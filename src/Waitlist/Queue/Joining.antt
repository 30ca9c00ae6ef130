-- ===== src/Waitlist/Queue/Joining.antt =====
-- The effects of `joinWaitlist`.
use sky_high_core.Common.{
  ℕ, ◌+◌, ◌<◌, ◌≡◌, refl, inl, inr, none, some, false, ◌∷◌, ◌==◌, ==-refl, if◌then◌else◌, arith,
  Option-cases,
}
use sky_high_core.Domain.Entities.{Flight, Waitlist, same_entry}
use sky_high_core.Domain.Errors.{ok}
use sky_high_core.Domain.Dtos.{WaitlistResponse, Metric}
use sky_high_core.Platform.Table.{find_by_id}
use sky_high_core.Platform.Backend.{Backend}
use sky_high_core.Platform.World.{World}
use sky_high_core.Audit
use sky_high_core.Waitlist.Queue.{or_zero, to_response_dto, new_entry, insert_entry, join_waitlist}

module _ {be : Backend} where
  -- The new entry: its passenger had none on the flight, it comes after every one that the flight
  -- had when the call began, and no other row of the waitlist has changed. `v` is what the insert
  -- met.
  pub record Joined (p f : ℕ) (r : WaitlistResponse) (w v w' : World be) : Type 0 where
    pub flight : Flight
    pub flies : be.flight_rows.row w.flights f ≡ some flight
    pub entry : Waitlist
    pub is_new : be.waitlist_rows.row v.waitlists entry.id ≡ none
    pub booking : entry ≡ new_entry entry.id f p entry.position v.clock
    pub is_last :
        (i : ℕ) (e : Waitlist)
        → be.waitlist_rows.row w.waitlists i ≡ some e
        → e.flight_id ≡ f
        → e.position < entry.position
    pub is_only :
        (i : ℕ) (e : Waitlist)
        → be.waitlist_rows.row v.waitlists i ≡ some e
        → same_entry entry e ≡ false
    pub rows :
        (i : ℕ)
        → be.waitlist_rows.row w'.waitlists i
          ≡ (if i == entry.id then some entry else be.waitlist_rows.row v.waitlists i)
    pub seats : w'.seats ≡ v.seats
    pub check_ins : w'.check_ins ≡ v.check_ins
    pub metrics : w'.metrics ≡ Metric.waitlist_depth_inc f ∷ v.metrics
    pub response : r ≡ to_response_dto entry

  abbrev pub last_position : ℕ → World be → ℕ
  last_position f w =
      or_zero (be.waitlist_rows.max_of (λ e. e.position) (λ e. e.flight_id == f) w.waitlists) + 1

  last_position_lem :
      (f : ℕ) (w : World be) (i : ℕ) (e : Waitlist)
      → be.waitlist_rows.row w.waitlists i ≡ some e
      → e.flight_id ≡ f
      → e.position < last_position f w
  last_position_lem f w i e at on =
      elim (Option-cases
        (be.waitlist_rows.max_of (λ e. e.position) (λ e. e.flight_id == f) w.waitlists)) [
          | inl empty ↦ absurd (
              ground (
                arith,
                ==-refl f,
                be.waitlist_rows.max_of-none (λ e. e.position) (λ e. e.flight_id == f) w.waitlists i
                    e empty at,
              ))
          | inr (n, top) ↦ ground (
            arith,
            be.waitlist_rows.max_of-le (λ e. e.position) (λ e. e.flight_id == f) w.waitlists n i e
                top at,
          )
        ]

  -- If `joinWaitlist` returns, the flight exists and, whatever others did between its reading of
  -- the positions and its insert, the insert met no entry of the passenger on the flight's
  -- waitlist; the new entry is WAITING at a position after every entry that the flight had when the
  -- call began, the insert changed no other entry, no seat and no check-in, and the depth of the
  -- waitlist was counted up.
  pub join_waitlist-Joined :
      (meanwhile : World be → World be) (p f : ℕ) (r : WaitlistResponse) (w w' : World be)
      → join_waitlist meanwhile p f w ≡ (ok r, w')
      → Joined p f r w (meanwhile w) w'
  unfolding join_waitlist insert_entry Audit.log
  join_waitlist-Joined meanwhile p f r w w' h =
      let v = meanwhile w in
      let entry = new_entry (be.waitlist_rows.fresh v.waitlists) f p (last_position f w) v.clock in
      let seen = find_by_id be.flight_rows f w.flights in
      let law = be.waitlist_rows.insert_law entry v.waitlists in
      elim (Option-cases (be.flight_rows.row w.flights f)) [
        | inl lost ↦ absurd (ground arith)
        | inr (flight, flies) ↦ record {
          flight = flight;
          flies = flies;
          entry = entry;
          is_new = ground (arith, be.waitlist_rows.row-fresh v.waitlists);
          booking = refl;
          is_last = λ i e at on. last_position_lem f w i e at on;
          is_only = λ i e at.
              ground (arith, be.waitlist_rows.find_one-none (same_entry entry) v.waitlists i e);
          rows = λ i. ground (arith, be.waitlist_rows.row-added entry v.waitlists i);
          seats = ground arith;
          check_ins = ground arith;
          metrics = ground arith;
          response = ground arith;
        }
      ]
