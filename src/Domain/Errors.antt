-- ===== src/Domain/Errors.antt =====
-- src/common/filters/exceptions/*.ts, and the errors of the libraries that the services pass on.
-- The texts of the messages are not modelled here: Filter has the details that clients see.
use sky_high_core.Common.{◌≡◌, refl, ◌⊎◌, inl, inr}

-- One constructor for each subclass of `DomainException`.
pub data DomainError : Type 0 where
  seat_already_held hold_expired payment_required flight_not_found : DomainError
  seat_not_found check_in_not_found already_checked_in already_on_waitlist : DomainError
  cancellation_not_allowed waitlist_not_found rate_limit_exceeded : DomainError

-- `unique_violation` is PostgreSQL's 23505, `foreign_key_violation` its 23503 and `numeric_overflow`
-- its 22003, each in a `QueryFailedError`; `lock_failed` is what Redlock rejects with, and
-- `redis_failed` what Redis does; `entity_not_found` comes from `findOneOrFail`.
pub data Exception : Type 0 where
  domain : DomainError → Exception
  unique_violation foreign_key_violation numeric_overflow : Exception
  lock_failed redis_failed entity_not_found : Exception

-- A promise: fulfilled, or rejected with an exception.
pub data Result (A : Type 0) : Type 0 where
  ok : A → Result A
  err : Exception → Result A

pub Result-cases :
    {S A : Type 0} (m : Result A × S)
    → ((a : A) × (s : S) × (m ≡ (ok a, s))) ⊎ ((e : Exception) × (s : S) × (m ≡ (err e, s)))
Result-cases (ok a, s) = inl (a, s, refl)
Result-cases (err e, s) = inr (e, s, refl)

-- An asynchronous method. What was written before a rejection stays written, so the state comes
-- back beside the exception too.
abbrev pub Action : Type 0 → Type 0 → Type 0
Action S A = S → Result A × S

module _ {S A : Type 0} where
  abbrev pub pure : A → Action S A
  pure a s = (ok a, s)

  abbrev pub throw : Exception → Action S A
  throw e s = (err e, s)

  abbrev pub gets : (S → A) → Action S A
  gets f s = (ok (f s), s)

module _ {S : Type 0} where
  abbrev pub modify : (S → S) → Action S (Unit {0})
  modify f s = (ok tt, f s)

infixl 5 ◌>>=◌ ◌>>◌
abbrev pub ◌>>=◌ : {S A B : Type 0} → Action S A → (A → Action S B) → Action S B
◌>>=◌ m f s = let (r, s') = m s in elim r [ ok a ↦ f a s' | err e ↦ (err e, s') ]

abbrev pub ◌>>◌ : {S A B : Type 0} → Action S A → Action S B → Action S B
m >> k = m >>= λ _. k
