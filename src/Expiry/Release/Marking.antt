-- ===== src/Expiry/Release/Marking.antt =====
-- The waitlist entry of an expired hold.
use sky_high_core.Common.{ℕ, ◌≡◌, inl, inr, Option, none, some, true, false, arith, Option-cases}
use sky_high_core.Domain.Entities.{Waitlist}
use sky_high_core.Domain.Errors.{ok}
use sky_high_core.Platform.Table.{changed_at}
use sky_high_core.Platform.Backend.{Backend}
use sky_high_core.Platform.World.{World}
use sky_high_core.Expiry.Release.{expired, assigned_to, mark_waitlist_entry_expired}

module _ {be : Backend} (f : ℕ) (w : World be) where
  -- Nothing but the waitlist changes.
  pub mark_waitlist_entry_expired-rest :
      (holder : Option ℕ)
      → let w' = (mark_waitlist_entry_expired f holder w).1 in
        ((mark_waitlist_entry_expired f holder w).0 ≡ ok tt)
        × (w'.seats ≡ w.seats)
        × (w'.check_ins ≡ w.check_ins)
        × (w'.audit_logs ≡ w.audit_logs)
        × (w'.redis ≡ w.redis)
        × (w'.clock ≡ w.clock)
        × (w'.locks ≡ w.locks)
        × (w'.events ≡ w.events)
  unfolding mark_waitlist_entry_expired
  mark_waitlist_entry_expired-rest none = ground arith
  mark_waitlist_entry_expired-rest (some q) = ground arith

module _ {be : Backend} (f p : ℕ) (w : World be) where
  -- An ASSIGNED entry of the passenger on the flight becomes EXPIRED; no other entry changes.
  pub data Marked (w' : World be) : Type 0 where
    no_entry :
        ((i : ℕ) (e : Waitlist)
          → be.waitlist_rows.row w.waitlists i ≡ some e
          → assigned_to f p e ≡ false)
        → w'.waitlists ≡ w.waitlists
        → Marked w'
    marked :
        (e : Waitlist)
        → be.waitlist_rows.row w.waitlists e.id ≡ some e
        → assigned_to f p e ≡ true
        → ((i : ℕ)
            → be.waitlist_rows.row w'.waitlists i
              ≡ changed_at expired (some e.id) (be.waitlist_rows.row w.waitlists) i)
        → Marked w'

  -- After `markWaitlistEntryExpired` for a passenger, either an entry of theirs on the flight that
  -- was ASSIGNED is EXPIRED and no other entry has changed, or they had none and the waitlist is
  -- the same.
  mark_waitlist_entry_expired-Marked : Marked (mark_waitlist_entry_expired f (some p) w).1
  unfolding mark_waitlist_entry_expired
  mark_waitlist_entry_expired-Marked =
      elim (Option-cases (be.waitlist_rows.find_one (assigned_to f p) w.waitlists)) [
        | inl absent ↦
            no_entry
              (λ i e at. be.waitlist_rows.find_one-none (assigned_to f p) w.waitlists i e absent at)
              (ground arith)
        | inr (e, found) ↦
            let (at, is_it) =
              be.waitlist_rows.find_one-some (assigned_to f p) w.waitlists e found in
            marked e at is_it
              (λ i. ground (arith, be.waitlist_rows.row-save (expired e) w.waitlists i))
      ]
