-- ===== src/CheckIn/Steps.antt =====
-- Private methods that several operations of the check-in service call.
pub mod Forget
pub mod Find
pub mod Announce
pub mod Reading
use sky_high_core.Common.{ℕ, ◌+◌, Option, none, some, ◌&&◌, ◌==◌, if◌then◌else◌}
use sky_high_core.Domain.Enums.{is_holding}
use sky_high_core.Domain.Entities.{CheckIn}
use sky_high_core.Domain.Errors.{
  Action, domain, check_in_not_found, entity_not_found, pure, gets, ◌>>=◌, ◌>>◌,
}
use sky_high_core.Domain.Dtos.{CheckInResponse, Message, RedisKey}
use sky_high_core.Platform.Backend.{Backend}
use sky_high_core.Platform.World.{World, or_throw}
use sky_high_core.Redis
use sky_high_core.Redis.Ttl
use sky_high_core.Seat

-- `toCheckInResponse`
abbrev pub to_check_in_response : CheckIn → Option ℕ → Option ℕ → Option Message → CheckInResponse
to_check_in_response check_in hold_expires_at confirmed_at message = record {
  id = check_in.id;
  passenger_id = check_in.passenger_id;
  flight_id = check_in.flight_id;
  seat_id = check_in.seat_id;
  status = check_in.status;
  baggage_weight = check_in.baggage_weight;
  excess_fee = check_in.excess_fee;
  payment_id = check_in.payment_id;
  hold_expires_at = hold_expires_at;
  confirmed_at = confirmed_at;
  message = message;
  created_at = check_in.created_at;
}

pub calculate_hold_expires_at : CheckIn → Option ℕ
calculate_hold_expires_at check_in =
    if is_holding check_in.status
    then some (check_in.created_at + Ttl.in_ms Ttl.seat_hold)
    else none

module _ {be : Backend} where
  unfoldable pub find_check_in_or_throw : ℕ → ℕ → Action (World be) CheckIn
  find_check_in_or_throw check_in_id passenger_id = do
    found ← gets λ w.
        be.check_in_rows.find_one (λ c. c.id == check_in_id && c.passenger_id == passenger_id)
          w.check_ins
    or_throw (domain check_in_not_found) found

  -- `findOneOrFail({ where: { id } })`
  unfoldable pub find_one_or_fail : ℕ → Action (World be) CheckIn
  find_one_or_fail check_in_id = do
    found ← gets λ w. be.check_in_rows.find_one (λ c. c.id == check_in_id) w.check_ins
    or_throw entity_not_found found

  -- After a commit that frees or confirms a seat: the hold key goes, and the cached map.
  unfoldable pub forget_hold : Option ℕ → ℕ → Action (World be) (Unit {0})
  forget_hold none flight_id = pure tt
  forget_hold (some seat_id) flight_id = do
    Redis.del (RedisKey.seat_hold seat_id)
    Seat.invalidate_cache flight_id

  pub get_check_in : ℕ → ℕ → Action (World be) CheckInResponse
  get_check_in check_in_id passenger_id = do
    check_in ← find_check_in_or_throw check_in_id passenger_id
    pure (to_check_in_response check_in (calculate_hold_expires_at check_in) none none)
