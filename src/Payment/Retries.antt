-- ===== src/Payment/Retries.antt =====
-- How often the Payment Service is called, after which delays, and what the last call decides.
use native.Mathlib.Nat.{pow-suc}
use sky_high_core.Common.{
  ℕ, zero, suc, ◌+◌, ◌-◌, ◌*◌, ◌≤◌, ◌<◌, ◌≡◌, refl, ◌⊎◌, String, Option, none, some, List, [], ◌∷◌,
  inl, inr, arith, ap, ◌∙◌, ◌==◌, Bool-cases,
}
use sky_high_core.Payment.{
  PaymentConfig, Reply, response, failure, backoff_ms, attempts_from,
  call_payment_service_with_retry, response_result, failed_result,
}

-- `n` delays, each twice the one before.
abbrev pub doubling : ℕ → ℕ → List ℕ
doubling d zero = []
doubling d (suc n) = d ∷ doubling (d * 2) n

abbrev pub HasFailed : (ℕ → Reply) → ℕ → Type 0
HasFailed reply i = (m : String) × (reply i ≡ failure m)

Reply-cases :
    (x : Reply)
    → ((m : String) × (x ≡ failure m)) ⊎ ((t : String) × (s : String) × (x ≡ response t s))
Reply-cases (failure m) = inl (m, refl)
Reply-cases (response t s) = inr (t, s, refl)

backoff_ms-suc :
    (c : PaymentConfig) (attempt : ℕ)
    → backoff_ms c (suc (suc attempt)) ≡ backoff_ms c (suc attempt) * 2
unfolding backoff_ms
backoff_ms-suc c attempt = grind (arith, pow-suc 2 attempt)

≤-split : (i k : ℕ) → i ≤ k → (i < k) ⊎ (i ≡ k)
≤-split i k below = elim (Bool-cases (i == k)) [
  | inl same ↦ inr (ground arith)
  | inr apart ↦ inl (ground arith)
]

module _ (c : PaymentConfig) (reply : ℕ → Reply) where
  attempts_from-posts :
      (left attempt : ℕ) (e : Option String) → (attempts_from c reply left attempt e).posts ≤ left
  unfolding attempts_from
  attempts_from-posts zero attempt e = omega arith
  attempts_from-posts (suc left) attempt e = elim (Reply-cases (reply attempt)) [
    | inl (m, q) ↦ ground (arith, attempts_from-posts left (suc attempt) (some m))
    | inr (t, s, q) ↦ ground arith
  ]

  attempts_from-delays :
      (left attempt : ℕ) (e : Option String)
      → (attempts_from c reply left (suc attempt) e).delays
        ≡ doubling (backoff_ms c (suc attempt)) (attempts_from c reply left (suc attempt) e).posts
  unfolding attempts_from
  attempts_from-delays zero attempt e = refl
  attempts_from-delays (suc left) attempt e = elim (Reply-cases (reply (suc attempt))) [
    | inl (m, q) ↦
        ground (arith, backoff_ms-suc c attempt, attempts_from-delays left (suc attempt) (some m))
    | inr (t, s, q) ↦ ground arith
  ]

  -- The Payment Service is called at least once and at most `maxRetries` times more, and before
  -- each call but the first there is a delay, `initialBackoffMs` at first and twice as long every
  -- time.
  pub call_payment_service_with_retry-delays :
      let calls = call_payment_service_with_retry c reply in
      (1 ≤ calls.posts)
      × (calls.posts ≤ suc c.max_retries)
      × (calls.delays ≡ doubling c.initial_backoff_ms (calls.posts - 1))
  unfolding call_payment_service_with_retry attempts_from backoff_ms
  call_payment_service_with_retry-delays = elim (Reply-cases (reply 0)) [
    | inl (m, q) ↦
        let n = attempts_from-posts c.max_retries 1 (some m) in
        let d = attempts_from-delays c.max_retries 0 (some m) in
        (ground arith, ground arith, ground arith)
    | inr (t, s, q) ↦ (ground arith, ground arith, ground arith)
  ]

  attempts_from-answered :
      (n left attempt : ℕ) (e : Option String) (t s : String)
      → ((i : ℕ) → i < n → HasFailed reply (attempt + i))
      → reply (attempt + n) ≡ response t s
      → n < left
      → ((attempts_from c reply left attempt e).result ≡ response_result t s)
        × ((attempts_from c reply left attempt e).posts ≡ suc n)
  unfolding attempts_from
  attempts_from-answered n zero attempt e t s fails answer below = absurd (omega arith)
  attempts_from-answered zero (suc left) attempt e t s fails answer below =
      let at : reply attempt ≡ response t s = ground arith in (ground arith, ground arith)
  attempts_from-answered (suc n) (suc left) attempt e t s fails answer below =
      let (m, q) : HasFailed reply (attempt + 0) = fails 0 (omega arith) in
      let at : reply attempt ≡ failure m = ground arith in
      let (r, k) =
        attempts_from-answered n left (suc attempt) (some m) t s
          (λ i i<n.
            let (m', q') : HasFailed reply (attempt + suc i) = fails (suc i) (omega arith) in
            (m', ground arith))
          (ground arith) (omega arith) in
      (ground arith, ground arith)

  -- If the calls before number `n`, counted from 0, fail, number `n` gets a response and `n` is at
  -- most `maxRetries`, then the result is what that response says, and no call comes after it.
  call_payment_service_with_retry-answered :
      (n : ℕ) (t s : String)
      → n ≤ c.max_retries
      → ((i : ℕ) → i < n → HasFailed reply i)
      → reply n ≡ response t s
      → ((call_payment_service_with_retry c reply).result ≡ response_result t s)
        × ((call_payment_service_with_retry c reply).posts ≡ suc n)
  unfolding call_payment_service_with_retry
  call_payment_service_with_retry-answered n t s n≤ fails answer =
      attempts_from-answered n (suc c.max_retries) 0 none t s
        (λ i i<n. let (m', q') : HasFailed reply i = fails i i<n in (m', ground arith))
        (ground arith) (omega arith)

  attempts_from-exhausted :
      (left attempt : ℕ) (e : Option String) (m : String)
      → ((i : ℕ) → i ≤ left → HasFailed reply (attempt + i))
      → reply (attempt + left) ≡ failure m
      → ((attempts_from c reply (suc left) attempt e).result ≡ failed_result (some m))
        × ((attempts_from c reply (suc left) attempt e).posts ≡ suc left)
  unfolding attempts_from
  attempts_from-exhausted zero attempt e m fails last =
      let at : reply attempt ≡ failure m = ground arith in (ground arith, ground arith)
  attempts_from-exhausted (suc left) attempt e m fails last =
      let (m₀, q) : HasFailed reply (attempt + 0) = fails 0 (omega arith) in
      let at : reply attempt ≡ failure m₀ = ground arith in
      let (r, k) =
        attempts_from-exhausted left (suc attempt) (some m₀) m
          (λ i i≤.
            let (m', q') : HasFailed reply (attempt + suc i) = fails (suc i) (omega arith) in
            (m', ground arith))
          (ground arith) in
      (ground arith, ground arith)

  -- If all the calls up to number `maxRetries`, counted from 0, fail, then the payment has failed
  -- with the message of the last failure, after `maxRetries + 1` calls.
  call_payment_service_with_retry-exhausted :
      (m : String)
      → ((i : ℕ) → i ≤ c.max_retries → HasFailed reply i)
      → reply c.max_retries ≡ failure m
      → ((call_payment_service_with_retry c reply).result ≡ failed_result (some m))
        × ((call_payment_service_with_retry c reply).posts ≡ suc c.max_retries)
  unfolding call_payment_service_with_retry
  call_payment_service_with_retry-exhausted m fails last =
      attempts_from-exhausted c.max_retries 0 none m
        (λ i i≤. let (m', q') : HasFailed reply i = fails i i≤ in (m', ground arith)) (ground arith)

  -- The replies up to some number all fail, or one of them is the first response.
  first_response :
      (k : ℕ)
      → ((i : ℕ) → i < k → HasFailed reply i)
        ⊎ ((n : ℕ) × (t : String) × (s : String) × (n < k)
            × (reply n ≡ response t s)
            × ((i : ℕ) → i < n → HasFailed reply i))
  first_response zero = inl λ i i<0. absurd (omega arith)
  first_response (suc k) = elim (first_response k) [
    | inr (n, t, s, n<k, answer, fails) ↦ inr (n, t, s, omega arith, answer, fails)
    | inl fails ↦ elim (Reply-cases (reply k)) [
      | inr (t, s, answer) ↦ inr (k, t, s, omega arith, answer, fails)
      | inl (m, failed) ↦ inl λ i i≤k. elim (≤-split i k (omega arith)) [
        | inl i<k ↦ fails i i<k
        | inr same ↦ (m, ap reply same ∙ failed)
      ]
    ]
  ]

  -- What the calls come to: the first response, if there is one by number `maxRetries`, counted
  -- from 0, decides and is the last call; if there is none, the last failure decides.
  pub data Decided : Type 0 where
    answered :
        (n : ℕ) (t s : String)
        → n ≤ c.max_retries
        → ((i : ℕ) → i < n → HasFailed reply i)
        → reply n ≡ response t s
        → (call_payment_service_with_retry c reply).result ≡ response_result t s
        → (call_payment_service_with_retry c reply).posts ≡ suc n
        → Decided
    exhausted :
        (m : String)
        → ((i : ℕ) → i ≤ c.max_retries → HasFailed reply i)
        → reply c.max_retries ≡ failure m
        → (call_payment_service_with_retry c reply).result ≡ failed_result (some m)
        → (call_payment_service_with_retry c reply).posts ≡ suc c.max_retries
        → Decided

  -- One of two things holds. A call with a number of at most `maxRetries`, counted from 0, gets a
  -- response and the calls before it fail; then the result is what that response says, and no call
  -- comes after it. Or all the calls up to number `maxRetries` fail; then the payment has failed
  -- with the message of the last failure, after `maxRetries + 1` calls.
  pub call_payment_service_with_retry-Decided : Decided
  call_payment_service_with_retry-Decided = elim (first_response (suc c.max_retries)) [
    | inr (n, t, s, below, answer, fails) ↦
        let (result, posts) =
          call_payment_service_with_retry-answered n t s (omega arith) fails answer in
        answered n t s (omega arith) fails answer result posts
    | inl fails ↦
        let (m, failed) : HasFailed reply c.max_retries = fails c.max_retries (omega arith) in
        let all : (i : ℕ) → i ≤ c.max_retries → HasFailed reply i = λ i i≤. fails i (omega arith) in
        let (result, posts) = call_payment_service_with_retry-exhausted m all failed in
        exhausted m all failed result posts
  ]
