-- ===== src/Platform/Memory/Rows.antt =====
-- The table interface, implemented: a table is a function from keys to rows, with a bound.
use mathlib.Core.Option
use sky_high_core.Common.{
  ℕ, suc, ◌<◌, Option, none, some, Bool, true, ◌≡◌, refl, inl, inr, arith, if◌then◌else◌, ◌==◌,
  ==-refl, ltb, Bool-cases, Option-cases,
}
use sky_high_core.Platform.Table.{Table, is_none, keep_if}
use sky_high_core.Platform.Memory.Scans
use sky_high_core.Platform.Memory.Scans.{first, least, greatest, count, sorted}
use sky_high_core.Platform.Memory.Lists
use sky_high_core.Platform.Memory.Ordered

-- A row is there if it is below the bound and stands under its own key.
pub record Rows (R : Type 0) : Type 0 where
  pub next : ℕ
  pub at : ℕ → Option R

module _ {R : Type 0} (key : R → ℕ) where
  abbrev pub row : Rows R → ℕ → Option R
  row t i = if ltb i t.next then keep_if (λ r. key r == i) (t.at i) else none

  abbrev put : R → Rows R → Rows R
  put r t = record {
    next = if ltb (key r) t.next then t.next else suc (key r);
    at = λ i. if i == key r then some r else row t i;
  }

  abbrev changed : (R → Bool) → (R → R) → Rows R → Rows R
  changed p f t = record {
    next = t.next;
    at = λ i. Option.map (λ r. if p r then f r else r) (row t i);
  }

  pub row-below : (t : Rows R) (i : ℕ) (r : R) → row t i ≡ some r → i < t.next
  row-below t i r e = elim (Bool-cases (ltb i t.next)) [
    | inl y ↦ ground arith
    | inr y ↦ ground arith
  ]

  pub row-own : (t : Rows R) (i : ℕ) (r : R) → row t i ≡ some r → key r ≡ i
  row-own t i r e = elim (Bool-cases (ltb i t.next)) [
    | inl y ↦ elim (Option-cases (t.at i)) [
      | inl z ↦ ground arith
      | inr (a, z) ↦ elim (Bool-cases (key a == i)) [
        | inl z' ↦ ground arith
        | inr z' ↦ ground arith
      ]
    ]
    | inr y ↦ ground arith
  ]

  pub row-at_key : (t : Rows R) (i : ℕ) (r : R) → row t i ≡ some r → row t (key r) ≡ some r
  row-at_key t i r e = ground (arith, row-own t i r e)

  pub row-put :
      (r : R) (t : Rows R) (i : ℕ) → row (put r t) i ≡ (if i == key r then some r else row t i)
  row-put r t i = elim (Bool-cases (i == key r)) [
    | inl y ↦ elim (Bool-cases (ltb (key r) t.next)) [
      | inl z ↦ ground (arith, ==-refl i)
      | inr z ↦ ground (arith, ==-refl i)
    ]
    | inr y ↦ elim (Option-cases (row t i)) [
      | inl z ↦ ground arith
      | inr (a, z) ↦ elim (Bool-cases (ltb (key r) t.next)) [
        | inl z' ↦ ground (arith, row-below t i a z, row-own t i a z)
        | inr z' ↦ ground (arith, row-below t i a z, row-own t i a z)
      ]
    ]
  ]

  pub row-changed :
      (p : R → Bool) (f : R → R) (t : Rows R) (i : ℕ)
      → ((r : R) → key (f r) ≡ key r)
      → row (changed p f t) i ≡ Option.map (λ r. if p r then f r else r) (row t i)
  row-changed p f t i keeps = elim (Option-cases (row t i)) [
    | inl z ↦ ground arith
    | inr (a, z) ↦ elim (Bool-cases (p a)) [
      | inl y ↦ ground (arith, row-below t i a z, row-own t i a z, keeps a)
      | inr y ↦ ground (arith, row-below t i a z, row-own t i a z)
    ]
  ]

  pub row-next : (t : Rows R) → row t t.next ≡ none
  row-next t = ground arith

  abbrev pub table : (clash : R → R → Bool) → Table R key clash
  table clash = record {
    State = Rows R;
    row = row;
    find_one = λ p t. first p (row t) t.next;
    find_least = λ m p t. least m p (row t) t.next;
    find = λ le p t. sorted le p (row t) t.next;
    max_of = λ m p t. greatest m p (row t) t.next;
    update = changed;
    affected = λ p t. count p (row t) t.next;
    fresh = λ t. t.next;
    insert = λ r t. if is_none (first (clash r) (row t) t.next) then some (put r t) else none;
    added = put;
    save = put;
    row-key = row-own;
    find_one-some =
        λ p t r e. let (i, z, y) = Scans.first-some p (row t) t.next r e in (row-at_key t i r z, y);
    find_one-none = λ p t i r e z. Scans.first-none p (row t) t.next i r e (row-below t i r z) z;
    find_least-some = λ m p t r e.
        let (i, z, y) = Scans.least-some m p (row t) t.next r e in (row-at_key t i r z, y);
    find_least-le =
        λ m p t r i q e z y. Scans.least-le m p (row t) t.next r i q e (row-below t i q z) z y;
    find_least-none =
        λ m p t i r e z. Scans.least-none m p (row t) t.next i r e (row-below t i r z) z;
    find-sound = λ le p t.
        Lists.sorted-All (λ r. (row t (key r) ≡ some r) × (p r ≡ true)) le p (row t) t.next
          λ i r z y. (row-at_key t i r z, y);
    find-complete =
        λ le p t i r z y. Lists.sorted-Any le p (row t) t.next i r (row-below t i r z) z y;
    find-Ordered = λ le p t total. Ordered.sorted-Ordered le total p (row t) t.next;
    find-DistinctKeys = λ le p t. Ordered.sorted-DistinctKeys key le p (row t) t.next (row-own t);
    max_of-none =
        λ m p t i r e z. Lists.greatest-none m p (row t) t.next i r e (row-below t i r z) z;
    max_of-le =
        λ m p t n i r e z y. Lists.greatest-le m p (row t) t.next n i r e (row-below t i r z) z y;
    row-update = row-changed;
    affected-zero = λ p t. Lists.count-zero p (row t) t.next;
    row-fresh = row-next;
    insert_law = λ r t. refl;
    row-added = row-put;
    row-save = row-put;
  }
