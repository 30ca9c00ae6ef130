-- ===== src/CheckIn/Start/Outcome.antt =====
-- What `startCheckIn` has done when it returns, and when it throws.
use sky_high_core.Common.{
  ℕ, ◌+◌, ◌≡◌, ◌∙◌, inl, inr, none, some, if◌then◌else◌, arith, Option-cases,
}
use sky_high_core.Domain.Entities.{CheckIn}
use sky_high_core.Domain.Errors.{ok, Result-cases}
use sky_high_core.Domain.Dtos.{CheckInResponse, RedisKey, RedisValue}
use sky_high_core.Platform.Backend.{Backend}
use sky_high_core.Platform.World.{World}
use sky_high_core.Redis
use sky_high_core.Redis.Ttl
use sky_high_core.Seat
use sky_high_core.CheckIn.Steps.Announce.{announce_hold-cases}
use sky_high_core.CheckIn.Steps.{to_check_in_response}
use sky_high_core.CheckIn.Start.{
  hold_transaction, hold_seat_within_lock, hold_seat_under_lock, validate_request, start_check_in,
}
use sky_high_core.CheckIn.Start.Held.{SeatTaken, hold_transaction-SeatTaken}

module _ {be : Backend} where
  -- A request of passenger `p` that took effect: `v` is what its transaction met.
  pub record Started (p f s held_at : ℕ) (r : CheckInResponse) (v w : World be) : Type 0 where
    pub check_in : CheckIn
    pub taken : SeatTaken p f s held_at v.clock check_in v.tables w.tables
    pub hold_key :
        (t : ℕ)
        → be.redis.get t (RedisKey.seat_hold s) w.redis ≡ (
            if be.redis.is_live v.clock Ttl.seat_hold t
            then some (RedisValue.passenger p)
            else none)
    pub map_forgotten : (t : ℕ) → be.redis.get t (RedisKey.seat_map_cache f) w.redis ≡ none
    pub response :
        r ≡ to_check_in_response check_in (some (held_at + Ttl.in_ms Ttl.seat_hold)) none none

  module _ (meanwhile : World be → World be) (p f s : ℕ) (r : CheckInResponse)
      (w w' : World be) where
    hold_seat_within_lock-Started :
        hold_seat_within_lock meanwhile p f s w ≡ (ok r, w')
        → Started p f s w.clock r (meanwhile w) w'
    unfolding hold_seat_within_lock Redis.set_seat_hold Redis.set Seat.invalidate_cache Redis.del
    hold_seat_within_lock-Started h =
        let v = meanwhile w in
        let law = be.transaction_law CheckIn (hold_transaction p f s w.clock v.clock) v.tables in
        elim (Result-cases (hold_transaction p f s w.clock v.clock v.tables)) [
          | inl (c, t, e) ↦ elim (announce_hold-cases be p f s v.clock v.redis) [
            | inl told ↦ record {
              check_in = c;
              taken =
                  hold_transaction-SeatTaken p f s w.clock v.clock c v.tables w'.tables
                    (ground arith);
              hold_key = λ t. ground (arith, told.hold_key t, told.set, told.del);
              map_forgotten = λ t. ground (arith, told.map_forgotten t, told.set, told.del);
              response = ground arith;
            }
            | inr rejected ↦ absurd (ground (arith, rejected.cause))
          ]
          | inr (e, t, q) ↦ absurd (ground arith)
        ]

  Started-same :
      (p f s held_at : ℕ) {r r' : CheckInResponse} {v w w' : World be}
      → Started p f s held_at r v w
      → r' ≡ r
      → w'.tables ≡ w.tables
      → w'.redis ≡ w.redis
      → Started p f s held_at r' v w'
  Started-same p f s held_at d er et es = record {
    check_in = d.check_in;
    taken = rw et d.taken;
    hold_key = λ t. rw es (d.hold_key t);
    map_forgotten = λ t. rw es (d.map_forgotten t);
    response = er ∙ d.response;
  }

  pub validate_request-keeps : (p f s : ℕ) (w : World be) → (validate_request p f s w).1 ≡ w
  unfolding validate_request
  validate_request-keeps p f s w = ground arith

  module _ (meanwhile : World be → World be) (p f s : ℕ) where
    hold_seat_under_lock-Started :
        (w w' : World be) (r : CheckInResponse)
        → hold_seat_under_lock meanwhile p f s w ≡ (ok r, w')
        → (l : be.locks.State) × Started p f s w.clock r (meanwhile (record w { locks = l })) w'
    unfolding hold_seat_under_lock
    hold_seat_under_lock-Started w w' r h =
        elim (Option-cases (be.locks.acquire (RedisKey.seat_lock s) 5000 w.clock w.locks)) [
          | inl busy ↦ absurd (ground arith)
          | inr (l, e) ↦
              elim (Result-cases (hold_seat_within_lock meanwhile p f s (record w { locks = l }))) [
                | inl (r', w₁, q) ↦
                    let d =
                      hold_seat_within_lock-Started meanwhile p f s r' (record w { locks = l }) w₁
                        q in
                    (l, Started-same p f s w.clock d (ground arith) (ground arith) (ground arith))
                | inr (x, w₁, q) ↦ absurd (ground arith)
              ]
        ]

    -- If `startCheckIn` returns, then with some state of the locks, and whatever others did between
    -- its first look at the seat and its transaction, the transaction met the seat AVAILABLE, made
    -- it HELD by the passenger, inserted the only check-in of the passenger on the flight, changed
    -- no other seat or check-in and no flight or waitlist entry, and logged the hold; afterwards
    -- the seat's hold key names the passenger for its time to live, the cached seat map is gone,
    -- and the response is the check-in with its expiry.
    pub start_check_in-Started :
        (w w' : World be) (r : CheckInResponse)
        → start_check_in meanwhile p f s w ≡ (ok r, w')
        → (l : be.locks.State) × Started p f s w.clock r (meanwhile (record w { locks = l })) w'
    unfolding start_check_in
    start_check_in-Started w w' r h =
        let keeps = validate_request-keeps p f s w in
        elim (Result-cases (hold_seat_under_lock meanwhile p f s w)) [
          | inl (r', w₁, q) ↦
              let (l, d) = hold_seat_under_lock-Started w w₁ r' q in
              (l, Started-same p f s w.clock d (ground arith) (ground arith) (ground arith))
          | inr (x, w₁, q) ↦ absurd (ground arith)
        ]
