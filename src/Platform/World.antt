-- ===== src/Platform/World.antt =====
-- The state that a method of a service sees and changes, and the methods' common steps.
use sky_high_core.Common.{ℕ, Option, none, some, Bool, List, ◌∷◌, if◌then◌else◌}
use sky_high_core.Domain.Entities.{AuditLog}
use sky_high_core.Domain.Errors.{
  Result, ok, err, Action, Exception, pure, throw, gets, modify, lock_failed,
}
use sky_high_core.Domain.Dtos.{Event, Metric, RedisKey}
use sky_high_core.Platform.Backend.{Backend, Tables}

-- `saving` is the audit rows whose save was started by nobody who waits for it and has not ended;
-- `events` and `metrics` are what was emitted and observed, newest first.
pub record World (be : Backend) : Type 0 where
  pub tables : Tables be.db
  pub open tables use *
  pub redis : be.redis.State
  pub locks : be.locks.State
  pub clock : ℕ
  pub saving : List AuditLog
  pub events : List Event
  pub metrics : List Metric

-- `where` clauses that find nothing: `if (!found) throw e`.
abbrev pub or_throw : {S A : Type 0} → Exception → Option A → Action S A
or_throw e none = throw e
or_throw e (some a) = pure a

-- `if (test) throw e`
abbrev pub throw_if : {S : Type 0} → Bool → Exception → Action S (Unit {0})
throw_if b e s = (if b then err e else ok tt, s)

module _ {be : Backend} where
  -- `Date.now()`
  abbrev pub now : Action (World be) ℕ
  now = gets λ w. w.clock

  abbrev pub emit : Event → Action (World be) (Unit {0})
  emit e = modify λ w. record w { events = e ∷ w.events }

  abbrev pub observe : Metric → Action (World be) (Unit {0})
  observe m = modify λ w. record w { metrics = m ∷ w.metrics }

  -- A transaction on the tables; the rest of the state is not its to roll back.
  abbrev pub in_transaction : {A : Type 0} → Action (Tables be.db) A → Action (World be) A
  in_transaction {A} body w =
      let (r, t) = be.transaction A body w.tables in (r, record w { tables = t })

  -- What other requests and time do while a method waits.
  abbrev pub await : (World be → World be) → Action (World be) (Unit {0})
  await meanwhile = modify meanwhile

  -- `finally { await releaseLock(lock) }`: a failed release replaces the outcome.
  abbrev pub released : {A : Type 0} → RedisKey → Result A × World be → Result A × World be
  released key (r, w) = elim (be.locks.release key w.clock w.locks) [
    | none ↦ (err lock_failed, w)
    | some l ↦ (r, record w { locks = l })
  ]
