-- ===== src/Waitlist/Queue/Race.antt =====
-- Two requests that join at once.
use sky_high_core.Common.{ℕ, ◌≡◌, arith}
use sky_high_core.Domain.Errors.{ok}
use sky_high_core.Domain.Dtos.{WaitlistResponse}
use sky_high_core.Platform.Backend.{Backend}
use sky_high_core.Platform.World.{World}
use sky_high_core.Audit
use sky_high_core.Waitlist.Queue.{
  new_entry, to_response_dto, get_next_position, insert_entry, join_waitlist,
}
use sky_high_core.Waitlist.Queue.Joining.{last_position}

module _ {be : Backend} where
  join_waitlist-position :
      (meanwhile : World be → World be) (p f : ℕ) (r : WaitlistResponse) (w w' : World be)
      → join_waitlist meanwhile p f w ≡ (ok r, w')
      → r.position ≡ last_position f w
  unfolding join_waitlist get_next_position insert_entry new_entry to_response_dto Audit.log
  join_waitlist-position meanwhile p f r w w' h = ground arith

  -- If one passenger's `joinWaitlist` runs, and returns, between another's reading of the positions
  -- and its insert, on the same flight, and the other returns too, then both have the same
  -- position.
  pub join_waitlist_race :
      (p q f : ℕ) (r r' : WaitlistResponse) (w v w' : World be)
      → join_waitlist (λ u. u) q f w ≡ (ok r', v)
      → join_waitlist (λ _. v) p f w ≡ (ok r, w')
      → r.position ≡ r'.position
  join_waitlist_race p q f r r' w v w' first second = ground (
    arith,
    join_waitlist-position (λ u. u) q f r' w v first,
    join_waitlist-position (λ _. v) p f r w w' second,
  )
