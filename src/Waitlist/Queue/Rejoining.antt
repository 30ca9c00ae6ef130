-- ===== src/Waitlist/Queue/Rejoining.antt =====
-- `joinWaitlist` for a passenger who has an entry.
use sky_high_core.Common.{ℕ, ◌≡◌, ◌≢◌, some, ==-refl, arith}
use sky_high_core.Domain.Entities.{Waitlist}
use sky_high_core.Domain.Errors.{ok}
use sky_high_core.Domain.Dtos.{WaitlistResponse}
use sky_high_core.Platform.Backend.{Backend}
use sky_high_core.Platform.World.{World}
use sky_high_core.Waitlist.Queue.{new_entry, join_waitlist}
use sky_high_core.Waitlist.Queue.Joining.{join_waitlist-Joined}

-- `joinWaitlist` does not return for a passenger who has an entry on the waitlist of the flight, of
-- whatever status, when its insert begins.
pub join_waitlist_rejoining :
    {be : Backend} (meanwhile : World be → World be) (p f i : ℕ) (e : Waitlist)
    (r : WaitlistResponse) (w w' : World be)
    → be.waitlist_rows.row (meanwhile w).waitlists i ≡ some e
    → e.passenger_id ≡ p
    → e.flight_id ≡ f
    → join_waitlist meanwhile p f w ≢ (ok r, w')
unfolding new_entry
join_waitlist_rejoining meanwhile p f i e r w w' at own on h =
    let d = join_waitlist-Joined meanwhile p f r w w' h in
    let clash = d.is_only i e at in ground (arith, d.booking, ==-refl p, ==-refl f)
