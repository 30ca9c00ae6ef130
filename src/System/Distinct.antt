-- ===== src/System/Distinct.antt =====
-- Rows that two numbers tell apart.
use mathlib.Core.Option
use sky_high_core.Common.{
  ℕ, ◌≡◌, refl, sym, ◌∙◌, inl, inr, Option, none, some, ◌==◌, if◌then◌else◌, arith, Bool-cases,
  Option-cases,
}
use sky_high_core.Platform.Table.{changed_at}

module _ {R : Type 0} (k₁ k₂ : R → ℕ) where
  -- No two rows agree in both numbers.
  abbrev pub Distinct : (ℕ → Option R) → Type 0
  Distinct rows =
      (i j : ℕ) (a b : R) → rows i ≡ some a → rows j ≡ some b → k₁ a ≡ k₁ b → k₂ a ≡ k₂ b → i ≡ j

  -- Every row is an earlier one, with the same two numbers.
  abbrev pub Keeps : (rows rows' : ℕ → Option R) → Type 0
  Keeps rows rows' =
      (i : ℕ) (a' : R)
      → rows' i ≡ some a'
      → (a : R) × (rows i ≡ some a) × (k₁ a' ≡ k₁ a) × (k₂ a' ≡ k₂ a)

  pub Distinct-Keeps :
      (rows rows' : ℕ → Option R) → Keeps rows rows' → Distinct rows → Distinct rows'
  Distinct-Keeps rows rows' keeps d i j a b e e' p q =
      let (a₀, x, m, n) = keeps i a e in
      let (b₀, y, m', n') = keeps j b e' in d i j a₀ b₀ x y (sym m ∙ p ∙ m') (sym n ∙ q ∙ n')

  pub Distinct-insert :
      (rows rows' : ℕ → Option R) (n : ℕ) (r : R)
      → ((i : ℕ) → rows' i ≡ (if i == n then some r else rows i))
      → ((i : ℕ) (a : R) → rows i ≡ some a → k₁ a ≡ k₁ r → k₂ a ≡ k₂ r → ⊥)
      → Distinct rows
      → Distinct rows'
  Distinct-insert rows rows' n r is new d i j a b e e' p q =
      let at_i = is i in
      let at_j = is j in
      elim (Bool-cases (i == n)) [
        | inl x ↦ elim (Bool-cases (j == n)) [
          | inl y ↦ ground arith
          | inr y ↦
              let it : a ≡ r = ground arith in
              absurd (new j b (ground arith) (ground arith) (ground arith))
        ]
        | inr x ↦ elim (Bool-cases (j == n)) [
          | inl y ↦
              let it : b ≡ r = ground arith in
              absurd (new i a (ground arith) (ground arith) (ground arith))
          | inr y ↦ d i j a b (ground arith) (ground arith) p q
        ]
      ]

  pub Keeps-same : (rows rows' : ℕ → Option R) → ((i : ℕ) → rows' i ≡ rows i) → Keeps rows rows'
  Keeps-same rows rows' same i a e = (a, sym (same i) ∙ e, refl, refl)

  pub Keeps-map :
      (f : R → R) (rows rows' : ℕ → Option R)
      → ((r : R) → (k₁ (f r) ≡ k₁ r) × (k₂ (f r) ≡ k₂ r))
      → ((i : ℕ) → rows' i ≡ Option.map f (rows i))
      → Keeps rows rows'
  Keeps-map f rows rows' keeps is i a e = elim (Option-cases (rows i)) [
    | inl lost ↦ absurd (ground (arith, is i))
    | inr (r, at) ↦
        let same : a ≡ f r = ground (arith, is i) in
        (r, at, ground (arith, keeps r), ground (arith, keeps r))
  ]

  pub Keeps-changed_at :
      (f : R → R) (k : Option ℕ) (rows rows' : ℕ → Option R)
      → ((r : R) → (k₁ (f r) ≡ k₁ r) × (k₂ (f r) ≡ k₂ r))
      → ((i : ℕ) → rows' i ≡ changed_at f k rows i)
      → Keeps rows rows'
  Keeps-changed_at f none rows rows' keeps is i a e = Keeps-same rows rows' is i a e
  Keeps-changed_at f (some n) rows rows' keeps is i a e = elim (Bool-cases (i == n)) [
    | inl here ↦ elim (Option-cases (rows i)) [
      | inl lost ↦ absurd (ground (arith, is i))
      | inr (r, at) ↦
          let same : a ≡ f r = ground (arith, is i) in
          (r, at, ground (arith, keeps r), ground (arith, keeps r))
    ]
    | inr there ↦ (a, ground (arith, is i), refl, refl)
  ]
