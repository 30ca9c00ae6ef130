-- ===== src/Platform/Table.antt =====
-- A TypeORM repository over one entity: rows `R` with a primary key and a unique constraint.
-- `row` is the content of the table by primary key; no method calls it, the laws are stated by it.
use mathlib.Core.Option
use sky_high_core.Common.{
  ℕ, ◌≤◌, Option, none, some, Bool, true, false, ◌&&◌, List, [], ◌∷◌, All, Any, ◌≡◌, ◌≢◌, inl, inr,
  arith, if◌then◌else◌, ◌==◌, ==-refl, Option-cases,
}

abbrev pub is_none {ℓ} : {A : Type ℓ} → Option A → Bool
is_none none = true
is_none (some a) = false

-- What is left of a row once it is tested too.
abbrev pub keep_if {ℓ} : {A : Type ℓ} → (A → Bool) → Option A → Option A
keep_if p none = none
keep_if p (some a) = if p a then some a else none

-- A table in which the row under one key, if there is such a key, was changed by `f`.
abbrev pub changed_at : {R : Type 0} → (R → R) → Option ℕ → (ℕ → Option R) → ℕ → Option R
changed_at f none row i = row i
changed_at f (some k) row i = if i == k then Option.map f (row k) else row i

-- Each element is not after the next one.
abbrev pub Ordered : {R : Type 0} → (R → R → Bool) → List R → Type 0
Ordered le [] = Unit {0}
Ordered le (x ∷ []) = Unit {0}
Ordered le (x ∷ (y ∷ ys)) = (le x y ≡ true) × Ordered le (y ∷ ys)

-- No two elements have the same key.
abbrev pub DistinctKeys : {R : Type 0} → (R → ℕ) → List R → Type 0
DistinctKeys key [] = Unit {0}
DistinctKeys key (x ∷ xs) = All (λ y. key x ≢ key y) xs × DistinctKeys key xs

pub record Table (R : Type 0) (key : R → ℕ) (clash : R → R → Bool) : Type 1 where
  pub State : Type 0
  pub row : State → ℕ → Option R
  -- `findOne({ where })`
  pub find_one : (R → Bool) → State → Option R
  -- `findOne({ where, order: { m: "ASC" } })`
  pub find_least : (R → ℕ) → (R → Bool) → State → Option R
  -- `find({ where, order })` and `getMany()`; the order is that of a test for "not after"
  pub find : (R → R → Bool) → (R → Bool) → State → List R
  -- `SELECT MAX(m) WHERE`
  pub max_of : (R → ℕ) → (R → Bool) → State → Option ℕ
  -- `update(where, set)`, and its `affected`
  pub update : (R → Bool) → (R → R) → State → State
  pub affected : (R → Bool) → State → ℕ
  -- the id that the next row gets by `DEFAULT uuid_generate_v4()`
  pub fresh : State → ℕ
  -- `save` of a row that is new, `none` for a unique violation, and the table with the row added
  pub insert : R → State → Option State
  pub added : R → State → State
  -- `save` of a row that was loaded
  pub save : R → State → State
  pub row-key : (t : State) (i : ℕ) (r : R) → row t i ≡ some r → key r ≡ i
  pub find_one-some :
      (p : R → Bool) (t : State) (r : R)
      → find_one p t ≡ some r
      → (row t (key r) ≡ some r) × (p r ≡ true)
  pub find_one-none :
      (p : R → Bool) (t : State) (i : ℕ) (r : R)
      → find_one p t ≡ none
      → row t i ≡ some r
      → p r ≡ false
  pub find_least-some :
      (m : R → ℕ) (p : R → Bool) (t : State) (r : R)
      → find_least m p t ≡ some r
      → (row t (key r) ≡ some r) × (p r ≡ true)
  pub find_least-le :
      (m : R → ℕ) (p : R → Bool) (t : State) (r : R) (i : ℕ) (q : R)
      → find_least m p t ≡ some r
      → row t i ≡ some q
      → p q ≡ true
      → m r ≤ m q
  pub find_least-none :
      (m : R → ℕ) (p : R → Bool) (t : State) (i : ℕ) (r : R)
      → find_least m p t ≡ none
      → row t i ≡ some r
      → p r ≡ false
  pub find-sound :
      (le : R → R → Bool) (p : R → Bool) (t : State)
      → All (λ r. (row t (key r) ≡ some r) × (p r ≡ true)) (find le p t)
  pub find-complete :
      (le : R → R → Bool) (p : R → Bool) (t : State) (i : ℕ) (r : R)
      → row t i ≡ some r
      → p r ≡ true
      → Any (λ q. q ≡ r) (find le p t)
  pub find-Ordered :
      (le : R → R → Bool) (p : R → Bool) (t : State)
      → ((a b : R) → le a b ≡ false → le b a ≡ true)
      → Ordered le (find le p t)
  pub find-DistinctKeys :
      (le : R → R → Bool) (p : R → Bool) (t : State) → DistinctKeys key (find le p t)
  pub max_of-none :
      (m : R → ℕ) (p : R → Bool) (t : State) (i : ℕ) (r : R)
      → max_of m p t ≡ none
      → row t i ≡ some r
      → p r ≡ false
  pub max_of-le :
      (m : R → ℕ) (p : R → Bool) (t : State) (n i : ℕ) (r : R)
      → max_of m p t ≡ some n
      → row t i ≡ some r
      → p r ≡ true
      → m r ≤ n
  pub row-update :
      (p : R → Bool) (f : R → R) (t : State) (i : ℕ)
      → ((r : R) → key (f r) ≡ key r)
      → row (update p f t) i ≡ Option.map (λ r. if p r then f r else r) (row t i)
  pub affected-zero : (p : R → Bool) (t : State) → (affected p t == 0) ≡ is_none (find_one p t)
  pub row-fresh : (t : State) → row t (fresh t) ≡ none
  pub insert_law :
      (r : R) (t : State)
      → insert r t ≡ (if is_none (find_one (clash r) t) then some (added r t) else none)
  pub row-added :
      (r : R) (t : State) (i : ℕ) → row (added r t) i ≡ (if i == key r then some r else row t i)
  pub row-save :
      (r : R) (t : State) (i : ℕ) → row (save r t) i ≡ (if i == key r then some r else row t i)

module _ {R : Type 0} {key : R → ℕ} {clash : R → R → Bool} (T : Table R key clash) where
  -- A search by primary key sees the row under that key, if it passes the rest of the test.
  pub find_by_key :
      (k : ℕ) (q : R → Bool) (t : T.State)
      → T.find_one (λ r. key r == k && q r) t ≡ keep_if q (T.row t k)
  find_by_key k q t = elim (Option-cases (T.find_one p t)) [
    | inl e ↦ elim (Option-cases (T.row t k)) [
      | inl absent ↦ ground arith
      | inr (r, e') ↦ ground (arith, T.find_one-none p t k r e e', T.row-key t k r e', ==-refl k)
    ]
    | inr (r, e) ↦ ground (arith, T.find_one-some p t r e)
  ]
    where
      p : R → Bool
      p r = key r == k && q r

  pub find_by_id : (k : ℕ) (t : T.State) → T.find_one (λ r. key r == k) t ≡ T.row t k
  find_by_id k t = elim (Option-cases (T.find_one (λ r. key r == k) t)) [
    | inl e ↦ elim (Option-cases (T.row t k)) [
      | inl absent ↦ ground arith
      | inr (r, e') ↦
          ground
            (arith, T.find_one-none (λ r. key r == k) t k r e e', T.row-key t k r e', ==-refl k)
    ]
    | inr (r, e) ↦ ground (arith, T.find_one-some (λ r. key r == k) t r e)
  ]

  -- An update by primary key changes that row, if it passes the rest of the test, and no other.
  pub update_by_key :
      (k : ℕ) (q : R → Bool) (f : R → R) (t : T.State) (i : ℕ)
      → ((r : R) → key (f r) ≡ key r)
      → T.row (T.update (λ r. key r == k && q r) f t) i
        ≡ (if i == k then Option.map (λ r. if q r then f r else r) (T.row t k) else T.row t i)
  update_by_key k q f t i keeps = elim (Option-cases (T.row t i)) [
    | inl absent ↦ ground (arith, T.row-update p f t i keeps)
    | inr (r, e) ↦ ground (arith, T.row-update p f t i keeps, T.row-key t i r e)
  ]
    where
      p : R → Bool
      p r = key r == k && q r

  pub update_by_id :
      (k : ℕ) (f : R → R) (t : T.State) (i : ℕ)
      → ((r : R) → key (f r) ≡ key r)
      → T.row (T.update (λ r. key r == k) f t) i ≡ changed_at f (some k) (T.row t) i
  update_by_id k f t i keeps = elim (Option-cases (T.row t i)) [
    | inl absent ↦ ground (arith, T.row-update (λ r. key r == k) f t i keeps)
    | inr (r, e) ↦ ground (arith, T.row-update (λ r. key r == k) f t i keeps, T.row-key t i r e)
  ]

  -- Whether an update by primary key has changed a row.
  pub affected_by_key :
      (k : ℕ) (q : R → Bool) (t : T.State)
      → (T.affected (λ r. key r == k && q r) t == 0) ≡ is_none (keep_if q (T.row t k))
  affected_by_key k q t = rw (T.affected-zero, find_by_key k q t)
