-- ===== src/Waitlist/Queue/Stepping.antt =====
-- How `joinWaitlist` and `leaveWaitlist` move the tables, for any relation that the passenger's
-- writes keep to.
use sky_high_core.Common.{
  ℕ, ◌≡◌, ◌+◌, refl, inl, inr, not, ◌||◌, ◌&&◌, ◌==◌, arith, Option-cases, Bool-cases,
}
use sky_high_core.Domain.Enums.{is_waiting}
use sky_high_core.Platform.Table.{is_none, find_by_key}
use sky_high_core.Platform.Backend.{Backend}
use sky_high_core.Platform.World.{World}
use sky_high_core.Audit
use sky_high_core.System.Motion.{Motion, Beside, rests, ends, join_on}
use sky_high_core.Waitlist.Queue.{
  or_zero, new_entry, waiting_for, get_next_position, insert_entry, join_waitlist, leave_waitlist,
  get_flight_waitlist,
}

module _ {be : Backend} {p : ℕ} (m : Motion be.db p) where
  pub leave_waitlist-Moved :
      (id : ℕ) (w : World be) → m.Moved w.tables (leave_waitlist id p w).1.tables
  unfolding leave_waitlist
  leave_waitlist-Moved id w =
      let seen = find_by_key be.waitlist_rows id (λ e. e.passenger_id == p) w.waitlists in
      elim (Option-cases (be.waitlist_rows.row w.waitlists id)) [
        | inl lost ↦ rests m (ground arith)
        | inr (e, at) ↦
            let key = be.waitlist_rows.row-key w.waitlists id e at in
            elim (Bool-cases (e.passenger_id == p && is_waiting e.status)) [
              | inl own ↦ ends m (ground arith) (m.leaves e w.tables (ground arith) (ground arith))
              | inr other ↦ rests m (ground arith)
            ]
      ]

  pub join_waitlist-Moved :
      (meanwhile : World be → World be) (moves : Beside m meanwhile) (f : ℕ) (w : World be)
      → m.Moved w.tables (join_waitlist meanwhile p f w).1.tables
  unfolding join_waitlist get_next_position insert_entry new_entry Audit.log
  join_waitlist-Moved meanwhile moves f w =
      let v = meanwhile w in
      let place =
        or_zero (be.waitlist_rows.max_of (λ e. e.position) (λ e. e.flight_id == f) w.waitlists)
        + 1 in
      let entry = new_entry (be.waitlist_rows.fresh v.waitlists) f p place v.clock in
      elim (Bool-cases (
        is_none (be.flight_rows.find_one (λ x. x.id == f) w.flights)
        || not (is_none (be.waitlist_rows.find_one (waiting_for f p) w.waitlists)))) [
          | inl refused ↦ rests m (ground arith)
          | inr fine ↦ elim (Option-cases (be.waitlist_rows.insert entry v.waitlists)) [
            | inl clash ↦ ends m (ground arith) (moves w)
            | inr (rows, e) ↦ elim (Bool-cases (be.is_passenger p)) [
              | inl known ↦ ends m (ground arith) (
                  join_on m (moves w) (
                    m.joins entry rows v.tables refl (be.waitlist_rows.row-fresh v.waitlists) e
                      known))
              | inr unknown ↦ ends m (ground arith) (moves w)
            ]
          ]
        ]

  pub get_flight_waitlist_keeps : (f : ℕ) (w : World be) → (get_flight_waitlist f w).1 ≡ w
  unfolding get_flight_waitlist
  get_flight_waitlist_keeps f w =
      elim (Option-cases (be.flight_rows.find_one (λ x. x.id == f) w.flights)) [
        | inl lost ↦ ground arith
        | inr (flight, at) ↦ ground arith
      ]
