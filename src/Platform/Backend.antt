-- ===== src/Platform/Backend.antt =====
-- The services behind the program: the database, Redis, Redlock.
use sky_high_core.Common.{
  ℕ, ◌+◌, ◌*◌, ◌<◌, Option, none, some, Bool, true, false, List, ◌≡◌, if◌then◌else◌, inl, inr,
  arith, Option-cases,
}
use sky_high_core.Domain.Entities.{
  Flight, Seat, CheckIn, Waitlist, AuditLog, same_place, same_booking, same_entry,
}
use sky_high_core.Domain.Errors.{Result, ok, err, Action}
use sky_high_core.Domain.Dtos.{RedisKey, RedisValue, same_key}
use sky_high_core.Platform.Table.{Table}

pub record Database : Type 1 where
  pub flight_rows : Table Flight (λ f. f.id) (λ _ _. false)
  pub seat_rows : Table Seat (λ s. s.id) same_place
  pub check_in_rows : Table CheckIn (λ c. c.id) same_booking
  pub waitlist_rows : Table Waitlist (λ w. w.id) same_entry
  -- whether a passenger is stored: no service writes the table `passenger`
  pub is_passenger : ℕ → Bool

-- What a transaction works on. The audit rows are listed newest first.
pub record Tables (db : Database) : Type 0 where
  pub flights : db.flight_rows.State
  pub seats : db.seat_rows.State
  pub check_ins : db.check_in_rows.State
  pub waitlists : db.waitlist_rows.State
  pub audit_logs : List AuditLog

-- Redis as the program uses it: strings with a time to live. `get` is asked at a time; `none` of a
-- write is a rejected promise.
pub record RedisServer : Type 1 where
  pub State : Type 0
  pub get : ℕ → RedisKey → State → Option RedisValue
  -- `SET key value EX seconds`, at a time
  pub set : RedisKey → RedisValue → ℕ → ℕ → State → Option State
  -- `DEL key`, at a time
  pub del : ℕ → RedisKey → State → Option State
  -- whether a key written at a time, for so many seconds, is still there at a later one
  pub is_live : ℕ → ℕ → ℕ → Bool
  pub is_live-before : (at ttl t : ℕ) → t < at + ttl * 1000 → is_live at ttl t ≡ true
  pub is_live-after : (at ttl t : ℕ) → at + ttl * 1000 < t → is_live at ttl t ≡ false
  pub get-set :
      (t : ℕ) (j k : RedisKey) (v : RedisValue) (ttl at : ℕ) (s s' : State)
      → set k v ttl at s ≡ some s'
      → get t j s'
        ≡ (if same_key k j then (if is_live at ttl t then some v else none) else get t j s)
  pub get-del :
      (t at : ℕ) (j k : RedisKey) (s s' : State)
      → del at k s ≡ some s'
      → get t j s' ≡ (if same_key k j then none else get t j s)

-- Redlock; `none` is a rejected promise. Nothing is assumed of the locks.
pub record LockServer : Type 1 where
  pub State : Type 0
  -- the resource, its time to live in milliseconds, the time
  pub acquire : RedisKey → ℕ → ℕ → State → Option State
  pub release : RedisKey → ℕ → State → Option State

-- A transaction commits when its callback returns, and rolls back when it throws.
abbrev pub commit : {T A : Type 0} → T → Result A × T → Result A × T
commit before (ok a, after) = (ok a, after)
commit before (err e, after) = (err e, before)

pub record Backend : Type 1 where
  pub db : Database
  pub open db use *
  pub redis : RedisServer
  pub locks : LockServer
  -- `dataSource.transaction(callback)`
  pub transaction : (A : Type 0) → Action (Tables db) A → Action (Tables db) A
  -- whether an audit row that nobody waits for is stored
  pub stores : AuditLog → Bool
  -- what numeric(5,2) and numeric(10,2) make of a numeral; `none` is an overflow
  pub to_weight : ℕ → Option ℕ
  pub to_fee : ℕ → Option ℕ
  pub transaction_law :
      (A : Type 0) (body : Action (Tables db) A) (t : Tables db)
      → transaction A body t ≡ commit t (body t)
  -- Redlock runs on the same Redis: at a time when a write is rejected, so is the release of a lock.
  pub set-none :
      (k : RedisKey) (v : RedisValue) (ttl t : ℕ) (s : redis.State) (key : RedisKey)
      (l : locks.State)
      → redis.set k v ttl t s ≡ none
      → locks.release key t l ≡ none
  pub del-none :
      (t : ℕ) (k : RedisKey) (s : redis.State) (key : RedisKey) (l : locks.State)
      → redis.del t k s ≡ none
      → locks.release key t l ≡ none

-- Every write to Redis is taken.
pub record AlwaysWrites (be : Backend) : Type 0 where
  pub written :
      (k : RedisKey) (v : RedisValue) (ttl t : ℕ) (s : be.redis.State)
      → (s' : be.redis.State) × (be.redis.set k v ttl t s ≡ some s')
  pub deleted :
      (t : ℕ) (k : RedisKey) (s : be.redis.State)
      → (s' : be.redis.State) × (be.redis.del t k s ≡ some s')

-- Every lock is granted and released.
pub record AlwaysGrants (be : Backend) : Type 0 where
  pub granted :
      (key : RedisKey) (ttl t : ℕ) (l : be.locks.State)
      → (l' : be.locks.State) × (be.locks.acquire key ttl t l ≡ some l')
  pub released :
      (key : RedisKey) (t : ℕ) (l : be.locks.State)
      → (l' : be.locks.State) × (be.locks.release key t l ≡ some l')

-- Then every write to Redis is taken too.
pub AlwaysGrants-AlwaysWrites :
    {be : Backend} → AlwaysGrants be → be.locks.State → RedisKey → AlwaysWrites be
AlwaysGrants-AlwaysWrites {be} grants l key = record {
  written = λ k v ttl t s. elim (Option-cases (be.redis.set k v ttl t s)) [
    | inl rejected ↦
        absurd (ground (arith, grants.released key t l, be.set-none k v ttl t s key l rejected))
    | inr taken ↦ taken
  ];
  deleted = λ t k s. elim (Option-cases (be.redis.del t k s)) [
    | inl rejected ↦
        absurd (ground (arith, grants.released key t l, be.del-none t k s key l rejected))
    | inr taken ↦ taken
  ];
}
