-- ===== src/Waitlist/Queue/Leaving.antt =====
-- The effects of `leaveWaitlist`, and its refusals.
use sky_high_core.Common.{ℕ, ◌≡◌, inl, inr, some, false, ◌∷◌, ◌==◌, arith, Option-cases}
use sky_high_core.Domain.Enums.{WaitlistStatus, is_waiting}
use sky_high_core.Domain.Entities.{Waitlist}
use sky_high_core.Domain.Errors.{ok, err, Exception, domain, waitlist_not_found}
use sky_high_core.Domain.Dtos.{WaitlistResponse, Metric}
use sky_high_core.Platform.Table.{changed_at, find_by_key}
use sky_high_core.Platform.Backend.{Backend}
use sky_high_core.Platform.World.{World}
use sky_high_core.Waitlist.Queue.{to_response_dto, left, leave_waitlist}

module _ {be : Backend} (id p : ℕ) (w w' : World be) where
  -- The passenger's own entry, WAITING before, is CANCELLED, and nothing else has changed.
  pub record Left (r : WaitlistResponse) : Type 0 where
    pub entry : Waitlist
    pub was : be.waitlist_rows.row w.waitlists id ≡ some entry
    pub owner : entry.passenger_id ≡ p
    pub was_waiting : entry.status ≡ WaitlistStatus.waiting
    pub rows :
        (i : ℕ)
        → be.waitlist_rows.row w'.waitlists i
          ≡ changed_at left (some id) (be.waitlist_rows.row w.waitlists) i
    pub seats : w'.seats ≡ w.seats
    pub check_ins : w'.check_ins ≡ w.check_ins
    pub metrics : w'.metrics ≡ Metric.waitlist_depth_dec entry.flight_id ∷ w.metrics
    pub response : r ≡ to_response_dto (left entry)

  -- If `leaveWaitlist` returns, the entry was the passenger's own and WAITING; it is CANCELLED, no
  -- other entry, no seat and no check-in has changed, and the depth of the waitlist was counted
  -- down.
  pub leave_waitlist-Left : (r : WaitlistResponse) → leave_waitlist id p w ≡ (ok r, w') → Left r
  unfolding leave_waitlist
  leave_waitlist-Left r h =
      let seen = find_by_key be.waitlist_rows id (λ e. e.passenger_id == p) w.waitlists in
      elim (Option-cases (be.waitlist_rows.row w.waitlists id)) [
        | inl lost ↦ absurd (ground arith)
        | inr (e, at) ↦
            let key = be.waitlist_rows.row-key w.waitlists id e at in
            record {
              entry = e;
              was = at;
              owner = ground arith;
              was_waiting = ground arith;
              rows = λ i. ground (arith, be.waitlist_rows.row-save (left e) w.waitlists i);
              seats = ground arith;
              check_ins = ground arith;
              metrics = ground arith;
              response = ground arith;
            }
      ]

  -- If `leaveWaitlist` throws, it is that there is no such entry, nothing has changed, and the
  -- entry, if it is stored and the passenger's, is not WAITING.
  pub leave_waitlist-err :
      (x : Exception)
      → leave_waitlist id p w ≡ (err x, w')
      → (x ≡ domain waitlist_not_found)
        × (w' ≡ w)
        × ((e : Waitlist)
            → be.waitlist_rows.row w.waitlists id ≡ some e
            → e.passenger_id ≡ p
            → is_waiting e.status ≡ false)
  unfolding leave_waitlist
  leave_waitlist-err x h =
      let seen = find_by_key be.waitlist_rows id (λ e. e.passenger_id == p) w.waitlists in
      elim (Option-cases (be.waitlist_rows.row w.waitlists id)) [
        | inl lost ↦ (ground arith, ground arith, λ e at own. absurd (ground arith))
        | inr (e, at) ↦ (ground arith, ground arith, λ d at' own. ground arith)
      ]
