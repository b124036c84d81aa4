-- ===== src/Llm/Retry.antt =====
-- src/fava_trails/llm/_retry.py.
use fava_trails.Base.{
  ℕ, zero, suc, ◌≤◌, ◌<◌, ◌+◌, ◌≡◌, refl, ap, sym, ◌∙◌, ◌⊎◌, inl, inr, Bool, true, false, Option,
  none, some, List, [], ◌∷◌, arith, length, ltb, if◌then◌else◌, Bool-cases,
}
use fava_trails.Base.Number.{Float, finite}
use fava_trails.Base.Result.{Result, ok, err}
use fava_trails.Llm.Sanitize.{Raised, ExceptionKind}

abbrev pub default_max_attempts : ℕ
default_max_attempts = 3

abbrev pub default_delays : List Float
default_delays = finite 1 0 ∷ finite 3 0 ∷ []

-- `delays[min(n, len(delays) - 1)]`
unfoldable pub delay_at : List Float → ℕ → Float
delay_at [] n = finite 0 0
delay_at (d ∷ []) n = d
delay_at (d ∷ e ∷ rest) zero = d
delay_at (d ∷ e ∷ rest) (suc n) = delay_at (e ∷ rest) n

unfoldable pub is_retryable : ExceptionKind → Bool
is_retryable ExceptionKind.rate_limit_error = true
is_retryable ExceptionKind.provider_error = true
is_retryable _ = false

-- `raise last_exc`, where raising None is a TypeError
unfoldable pub last_raised : Option Raised → Raised
last_raised (some e) = e
last_raised none = record {
  kind = ExceptionKind.other_error;
  type_name = "TypeError";
  text = "exceptions must derive from BaseException";
  status_code = none;
  original = none;
}

-- `fn` may do something else at each call, which it is numbered by
module _ {ℓ} {A : Type ℓ} (max_attempts : ℕ) (fn : ℕ → Result Raised A) where
  -- what follows an attempt: the delays slept, and the outcome
  unfoldable pub after_attempt :
      ℕ → Result Raised A → List Float × Result Raised A → List Float × Result Raised A
  unfolding is_retryable delay_at
  after_attempt n (ok value) rest = ([], ok value)
  after_attempt n (err e) rest =
      if is_retryable e.kind
      then (if ltb (suc n) max_attempts then (delay_at default_delays n ∷ rest.0, rest.1) else rest)
      else ([], err e)

  last_of : Result Raised A → Option Raised → Option Raised
  last_of (ok _) last = last
  last_of (err e) last = some e

  -- the loop from attempt `n` on, with `remaining` attempts left
  unfoldable pub retry_from : ℕ → ℕ → Option Raised → List Float × Result Raised A
  unfolding after_attempt last_raised last_of
  retry_from zero n last_exc = ([], err (last_raised last_exc))
  retry_from (suc remaining) n last_exc =
      let outcome = fn n in
      let rest = retry_from remaining (suc n) (last_of outcome last_exc) in
      after_attempt n outcome rest

  unfoldable pub async_retry : List Float × Result Raised A
  unfolding retry_from
  async_retry = retry_from max_attempts 0 none

  -- An attempt that another one follows.
  abbrev pub IsTransient : ℕ → Type ℓ
  IsTransient n = (e : Raised) × (fn n ≡ err e) × (is_retryable e.kind ≡ true)

  -- The outcome is that of attempt `m`, after transient failures and a delay for each; it is final,
  -- or the last that is allowed.
  abbrev pub IsOutcome : ℕ → List Float × Result Raised A → Type ℓ
  IsOutcome n p =
      (m : ℕ) × (n ≤ m)
      × (m < max_attempts)
      × ((i : ℕ) → n ≤ i → i < m → IsTransient i)
      × (n + length p.0 ≡ m)
      × (p.1 ≡ fn m)
      × ((suc m ≡ max_attempts) ⊎ ((e : Raised) → fn m ≡ err e → is_retryable e.kind ≡ false))

  step-IsOutcome :
      (n : ℕ) (outcome : Result Raised A) (rest : List Float × Result Raised A)
      → fn n ≡ outcome
      → n < max_attempts
      → (suc n ≡ max_attempts → (e : Raised) → outcome ≡ err e → rest ≡ ([], err e))
      → (suc n < max_attempts → IsOutcome (suc n) rest)
      → IsOutcome n (after_attempt n outcome rest)
  unfolding after_attempt
  step-IsOutcome n (ok v) rest h b last later = (
    n,
    omega arith,
    b,
    λ i x y. absurd (omega (arith, x, y)),
    omega arith,
    sym h,
    inr (λ e g. absurd (differ v e (sym h ∙ g))),
  )
    where
      differ : (v : A) (e : Raised) → Path (Result Raised A) (ok v) (err e) → ⊥
      differ v e x = cc
  step-IsOutcome n (err e) rest h b last later = elim (Bool-cases (is_retryable e.kind)) [
    | inr final ↦
        rw (final, after_attempt)
          (
            n,
            omega arith,
            b,
            λ i x y. absurd (omega (arith, x, y)),
            omega arith,
            sym h,
            inr (λ f g. ap is_retryable (ap (λ r. kind_in r) (sym g ∙ h)) ∙ final),
          )
    | inl again ↦ elim (Bool-cases (ltb (suc n) max_attempts)) [
      | inl c ↦
          let k = later (ground (arith, c)) in
          rw (again, c, after_attempt)
            (
              k.0,
              omega (arith, k.1),
              k.2,
              λ i x y. earlier n k.0 i e h again x y k.3,
              omega (arith, k.4),
              k.5,
              k.6,
            )
      | inr c ↦
          let top : suc n ≡ max_attempts = ground (arith, b, c) in
          rw (again, c, last top e refl, after_attempt)
            (n, omega arith, b, λ i x y. absurd (omega (arith, x, y)), omega arith, sym h, inl top)
    ]
  ]
    where
      kind_in : Result Raised A → ExceptionKind
      kind_in (ok _) = ExceptionKind.other_error
      kind_in (err e) = e.kind

      earlier :
          (n m i : ℕ) (e : Raised)
          → fn n ≡ err e
          → is_retryable e.kind ≡ true
          → n ≤ i
          → i < m
          → ((i : ℕ) → suc n ≤ i → i < m → IsTransient i)
          → IsTransient i
      earlier n m i e h again x y k = elim (Bool-cases (ltb n i)) [
        | inl c ↦ k i (ground (arith, c)) y
        | inr c ↦ let same : i ≡ n = ground (arith, c, x) in rw same (e, h, again)
      ]

  retry_from-last :
      (remaining n : ℕ) (e : Raised) (last_exc : Option Raised) (outcome : Result Raised A)
      → remaining ≡ 0
      → outcome ≡ err e
      → retry_from remaining n (last_of outcome last_exc) ≡ ([], err e)
  unfolding retry_from last_raised last_of
  retry_from-last zero n e last_exc (ok v) z h = cc
  retry_from-last zero n e last_exc (err f) z h = ap (λ x. ([], x)) h
  retry_from-last (suc r) n e last_exc outcome z h = absurd (omega (arith, z))

  retry_from-IsOutcome :
      (remaining n : ℕ) (last_exc : Option Raised)
      → n + suc remaining ≡ max_attempts
      → IsOutcome n (retry_from (suc remaining) n last_exc)
  unfolding retry_from
  retry_from-IsOutcome zero n last_exc whole =
      step-IsOutcome n (fn n) (retry_from 0 (suc n) (last_of (fn n) last_exc)) refl
        (omega (arith, whole)) (λ top e h. retry_from-last 0 (suc n) e last_exc (fn n) refl h)
        (λ b. absurd (omega (arith, b, whole)))
  retry_from-IsOutcome (suc r) n last_exc whole =
      step-IsOutcome n (fn n) (retry_from (suc r) (suc n) (last_of (fn n) last_exc)) refl
        (omega (arith, whole)) (λ top e h. absurd (omega (arith, top, whole)))
        (λ b. retry_from-IsOutcome r (suc n) (last_of (fn n) last_exc) (omega (arith, whole)))

-- Where at least one attempt is allowed, the outcome is that of one of them: those before it failed
-- transiently and were followed by a delay each, and it returned, failed for good or was the last.
pub async_retry-IsOutcome {ℓ} :
    {A : Type ℓ} (attempts : ℕ) (fn : ℕ → Result Raised A)
    → IsOutcome (suc attempts) fn 0 (async_retry (suc attempts) fn)
unfolding async_retry
async_retry-IsOutcome attempts fn =
    retry_from-IsOutcome (suc attempts) fn attempts 0 none (omega arith)
