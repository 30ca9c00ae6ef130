-- ===== src/Platform/Memory/Server.antt =====
-- Redis, the locks and the transactions, implemented, and the backend of the examples.
use sky_high_core.Common.{
  ℕ, ◌+◌, ◌*◌, ◌<◌, Option, none, some, Bool, true, false, ◌≡◌, refl, inl, inr, arith,
  if◌then◌else◌, ltb, Bool-cases,
}
use sky_high_core.Domain.Entities.{same_place, same_booking, same_entry}
use sky_high_core.Domain.Dtos.{RedisKey, RedisValue, same_key}
use sky_high_core.Doubles.{double}
use sky_high_core.Platform.Backend.{Database, RedisServer, LockServer, Backend, commit}
use sky_high_core.Platform.Memory.Rows.{table}

-- A value with the time at which it was written, and its time to live.
pub record Stored : Type 0 where
  pub value : RedisValue
  pub written : ℕ
  pub ttl : ℕ

abbrev live : ℕ → ℕ → ℕ → Bool
live written ttl t = ltb t (written + ttl * 1000)

abbrev read : ℕ → Option Stored → Option RedisValue
read t none = none
read t (some s) = if live s.written s.ttl t then some s.value else none

abbrev pub write :
    RedisKey → RedisValue → ℕ → ℕ → (RedisKey → Option Stored) → RedisKey → Option Stored
write k v ttl at s j =
    if same_key k j then some (record { value = v; written = at; ttl = ttl }) else s j

abbrev pub remove : RedisKey → (RedisKey → Option Stored) → RedisKey → Option Stored
remove k s j = if same_key k j then none else s j

pub live-before : (at ttl t : ℕ) → t < at + ttl * 1000 → live at ttl t ≡ true
live-before at ttl t before = ground arith

pub live-after : (at ttl t : ℕ) → at + ttl * 1000 < t → live at ttl t ≡ false
live-after at ttl t after = ground arith

pub read-write :
    (t : ℕ) (j k : RedisKey) (v : RedisValue) (ttl at : ℕ) (s s' : RedisKey → Option Stored)
    → some (write k v ttl at s) ≡ some s'
    → read t (s' j)
      ≡ (if same_key k j then (if live at ttl t then some v else none) else read t (s j))
read-write t j k v ttl at s s' e = elim (Bool-cases (same_key k j)) [
  | inl y ↦ ground arith
  | inr y ↦ ground arith
]

pub read-remove :
    (t at : ℕ) (j k : RedisKey) (s s' : RedisKey → Option Stored)
    → some (remove k s) ≡ some s'
    → read t (s' j) ≡ (if same_key k j then none else read t (s j))
read-remove t at j k s s' e = elim (Bool-cases (same_key k j)) [
  | inl y ↦ ground arith
  | inr y ↦ ground arith
]

pub accepted : {S A : Type 0} {s : S} → some s ≡ none → A
accepted rejected = absurd (ground arith)

abbrev pub redis : RedisServer
redis = record {
  State = RedisKey → Option Stored;
  get = λ t k s. read t (s k);
  set = λ k v ttl at s. some (write k v ttl at s);
  del = λ t k s. some (remove k s);
  is_live = live;
  is_live-before = live-before;
  is_live-after = live-after;
  get-set = read-write;
  get-del = read-remove;
}

abbrev pub locks : LockServer
locks = record { State = Unit {0}; acquire = λ k ttl t s. some s; release = λ k t s. some s }

abbrev pub database : Database
database = record {
  flight_rows = table (λ f. f.id) (λ _ _. false);
  seat_rows = table (λ s. s.id) same_place;
  check_in_rows = table (λ c. c.id) same_booking;
  waitlist_rows = table (λ w. w.id) same_entry;
  is_passenger = λ p. ltb p 1000;
}

-- `numeric(5,2)` is full at 1000, `numeric(10,2)` at 10 ^ 8; the rounding to two places is left out.
abbrev pub memory : Backend
memory = record {
  db = database;
  redis = redis;
  locks = locks;
  transaction = λ A body t. commit t (body t);
  stores = λ row. true;
  to_weight = λ n. if ltb n (double 1000) then some n else none;
  to_fee = λ n. if ltb n (double 100000000) then some n else none;
  transaction_law = λ A body t. refl;
  set-none = λ k v ttl t s key l rejected. accepted rejected;
  del-none = λ t k s key l rejected. accepted rejected;
}
