-- ===== src/Waitlist/Queue/Endings.antt =====
-- Every way in which `leaveWaitlist` ends.
use sky_high_core.Common.{ℕ, ◌≡◌, inl, inr, some, false}
use sky_high_core.Domain.Enums.{is_waiting}
use sky_high_core.Domain.Entities.{Waitlist}
use sky_high_core.Domain.Errors.{Result, ok, err, domain, waitlist_not_found, Result-cases}
use sky_high_core.Domain.Dtos.{WaitlistResponse}
use sky_high_core.Platform.Backend.{Backend}
use sky_high_core.Platform.World.{World}
use sky_high_core.Waitlist.Queue.{leave_waitlist}
use sky_high_core.Waitlist.Queue.Leaving.{Left, leave_waitlist-Left, leave_waitlist-err}

module _ {be : Backend} (id p : ℕ) (w : World be) where
  -- What each result says of the state after the call.
  abbrev pub LeaveEnds : Result WaitlistResponse × World be → Type 0
  LeaveEnds (ok r, w') = Left id p w w' r
  LeaveEnds (err x, w') =
      (x ≡ domain waitlist_not_found)
      × (w' ≡ w)
      × ((e : Waitlist)
          → be.waitlist_rows.row w.waitlists id ≡ some e
          → e.passenger_id ≡ p
          → is_waiting e.status ≡ false)

  -- If `leaveWaitlist` returns, the entry was the passenger's own and WAITING; it is CANCELLED, no
  -- other entry, no seat and no check-in has changed, and the depth of the waitlist was counted
  -- down. If it throws, it is that there is no such entry, nothing has changed, and the entry, if
  -- it is stored and the passenger's, is not WAITING.
  pub leave_waitlist-LeaveEnds : LeaveEnds (leave_waitlist id p w)
  leave_waitlist-LeaveEnds = elim (Result-cases (leave_waitlist id p w)) [
    | inl (r, w', h) ↦ rw h (leave_waitlist-Left id p w w' r h)
    | inr (x, w', h) ↦ rw h (leave_waitlist-err id p w w' x h)
  ]
