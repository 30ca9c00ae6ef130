-- ===== src/Expiry/Keyspace/Examples.antt =====
-- Keys and messages where an id is spelled by as many letters.
use Prim.Native.String.{◌++◌ as append, count}
use text.Mathlib.Text.{◌==◌ as str_eq}
use text.Mathlib.TextLemmas.{length-append}
use sky_high_core.Common.{
  ℕ, zero, suc, String, false, ◌≡◌, ◌∙◌, sym, ap, refl, arith, if◌then◌else◌,
}
use sky_high_core.Domain.Dtos.{RedisKey}
use sky_high_core.Domain.Errors.{pure}
use sky_high_core.Platform.Memory.Server.{memory}
use sky_high_core.Redis.Keys.{redis_expired_channel, spelling}
use sky_high_core.Redis.Keys.Spelling.{str_eq-spelling}
use sky_high_core.Expiry.Keyspace.{receive, expiry_of, receive-spelling}

abbrev letters : ℕ → String
letters zero = ""
letters (suc n) = append "x" (letters n)

count-letters : (n : ℕ) → count (letters n) ≡ n
count-letters zero = refl
count-letters (suc n) = omega (arith, length-append "x" (letters n), count-letters n)

letters_injective : (m n : ℕ) → letters m ≡ letters n → m ≡ n
letters_injective m n same = sym (count-letters m) ∙ ap count same ∙ count-letters n

str_eq-spelling_example :
    str_eq (spelling letters (RedisKey.seat_hold 2)) (spelling letters (RedisKey.seat_lock 2))
    ≡ false
str_eq-spelling_example =
    str_eq-spelling letters letters_injective (RedisKey.seat_hold 2) (RedisKey.seat_lock 2)

receive-spelling_example :
    receive {be = memory} count
      (λ w. w)
      redis_expired_channel
      (spelling letters (RedisKey.seat_hold 5))
    ≡ (if str_eq redis_expired_channel redis_expired_channel
        then expiry_of {be = memory} count (λ w. w) (RedisKey.seat_hold 5)
        else pure tt)
receive-spelling_example =
    receive-spelling {be = memory} count (λ w. w) letters count-letters redis_expired_channel
      (RedisKey.seat_hold 5)
