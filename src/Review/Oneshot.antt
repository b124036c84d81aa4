-- ===== src/Review/Oneshot.antt =====
-- `review_thought` of src/fava_trails/trust_gate.py, the policy `llm-oneshot`.
use mathlib.Core.Path.{subst, Path}
use fava_trails.Base.{
  ℕ, zero, suc, ◌<◌, ◌+◌, String, ◌≡◌, ◌≢◌, refl, sym, ap, ◌∙◌, inl, inr, ◌&&◌, Option, none, some,
  List, [], ◌∷◌, if◌then◌else◌, arith, nat_eq, Bool-cases, length, All,
}
use fava_trails.Base.Number.{Float}
use fava_trails.Base.Dict.{Dict}
use fava_trails.Base.Result.{Result, ok, err, ◌>>=◌, >>=-eq-ok}
use fava_trails.Base.Text.{concat}
use fava_trails.Base.Value.{Value, str}
use fava_trails.Models.Thought.{ThoughtRecord}
use fava_trails.Trail.Review.{TrustResult, failure, llm_advisory}
use fava_trails.Llm.Sanitize.{Raised}
use fava_trails.Llm.Completion.{LlmResponse}
use fava_trails.Review.Payload.{build_review_payload}
use fava_trails.Review.Verdict.{
  ReplyError, Reading, parse_verdict, IsVerdict, parse_verdict-IsVerdict,
}
use fava_trails.Review.Failures.{
  Refusal, check_policy-eq-ok, ChatRequest, or_text, check_policy, lifted, failure_text,
  is_value_error,
}

module _ (loads : String → Result ReplyError Value) (repr : Option Value → String)
    (dump : Dict Value → String) (chat : ℕ → ChatRequest → Result Raised LlmResponse)
    (provider : Option String) (now : ℕ) where
  abbrev pub reviewer_of : ChatRequest → String
  reviewer_of request = concat ("llm-oneshot:" ∷ request.model ∷ [])

  abbrev pub judged_result : ChatRequest → LlmResponse → Reading → TrustResult
  judged_result request response reading = record {
    verdict = reading.verdict;
    reasoning = reading.reasoning;
    reviewer = reviewer_of request;
    reviewed_at = now;
    confidence = reading.confidence;
    provider = or_text response.provider provider;
    model = or_text (some response.model) (some request.model);
    approval_kind = llm_advisory;
    policy = none;
    noul_probability = none;
    threshold = none;
  }

  abbrev pub error_result : ChatRequest → String → TrustResult
  error_result request reasoning = record {
    verdict = failure;
    reasoning = str reasoning;
    reviewer = reviewer_of request;
    reviewed_at = now;
    confidence = none;
    provider = provider;
    model = some request.model;
    approval_kind = llm_advisory;
    policy = none;
    noul_probability = none;
    threshold = none;
  }

  -- the body of the `try`
  unfoldable pub attempt_at : ChatRequest → ℕ → Result Raised TrustResult
  unfolding lifted parse_verdict
  attempt_at request n = do
    response ← chat n request
    reading ← lifted (parse_verdict loads repr response.content)
    ok (judged_result request response reading)

  -- what the handlers make of an attempt: the result, or the next attempt
  unfoldable pub handle :
      ChatRequest
      → ℕ
      → Result Raised TrustResult
      → List ChatRequest × TrustResult
      → List ChatRequest × TrustResult
  unfolding is_value_error failure_text
  handle request n (ok result) next = (request ∷ [], result)
  handle request n (err e) next =
      if is_value_error e.kind && nat_eq n 0
      then (request ∷ next.0, next.1)
      else (request ∷ [], error_result request (failure_text e))

  failed_text : Option Raised → String
  failed_text none = "Review failed: None"
  failed_text (some e) = concat ("Review failed: " ∷ e.text ∷ [])

  error_in : Result Raised TrustResult → Option Raised
  error_in (ok _) = none
  error_in (err e) = some e

  -- the loop from attempt `n` on, with `remaining` attempts left: the chats that were sent, and the
  -- result
  unfoldable pub review_attempts :
      ChatRequest → ℕ → ℕ → Option Raised → List ChatRequest × TrustResult
  unfolding attempt_at handle failed_text error_in
  review_attempts request zero n last_error = ([], error_result request (failed_text last_error))
  review_attempts request (suc remaining) n last_error =
      let outcome = attempt_at request n in
      let next = review_attempts request remaining (suc n) (error_in outcome) in
      handle request n outcome next

  abbrev pub request_for : ThoughtRecord → String → String → Option String → Float → ChatRequest
  request_for r prompt model trail_name timeout =
      let payload = build_review_payload dump prompt r trail_name in
      record { system = payload.0; user = payload.1; model = model; timeout = timeout }

  unfoldable pub review_thought :
      ThoughtRecord
      → String
      → String
      → String
      → Option String
      → Float
      → Result Refusal (List ChatRequest × TrustResult)
  unfolding check_policy review_attempts
  review_thought r prompt model policy trail_name timeout = do
    _ ← check_policy policy
    let request = request_for r prompt model trail_name timeout in
        ok (review_attempts request 2 0 none)

  -- The reply to attempt `n` is the verdict that the result states.
  abbrev pub IsReplied : ChatRequest → ℕ → TrustResult → Type 0
  IsReplied request n t =
      (response : LlmResponse) × (reading : Reading) × (chat n request ≡ ok response)
      × IsVerdict loads repr response.content reading
      × (t ≡ judged_result request response reading)

  unlifted :
      (outcome : Result ReplyError Reading) (reading : Reading)
      → lifted outcome ≡ ok reading
      → outcome ≡ ok reading
  unfolding lifted
  unlifted (ok r) reading h = ground (arith, h)
  unlifted (err e) reading h = cc

  attempt_at-IsReplied :
      (request : ChatRequest) (n : ℕ) (t : TrustResult)
      → attempt_at request n ≡ ok t
      → IsReplied request n t
  unfolding attempt_at
  attempt_at-IsReplied request n t h =
      let finish : LlmResponse → Reading → Result Raised TrustResult =
        λ a b. ok (judged_result request a b) in
      let a =
        >>=-eq-ok (chat n request) (λ x. lifted (parse_verdict loads repr x.content) >>= finish x)
          h in
      let b = >>=-eq-ok (lifted (parse_verdict loads repr a.0.content)) (finish a.0) a.2 in
      (
        a.0,
        b.0,
        a.1,
        parse_verdict-IsVerdict loads repr a.0.content b.0
            (unlifted (parse_verdict loads repr a.0.content) b.0 b.1),
        sym (ok-eq (judged_result request a.0 b.0) t b.2),
      )
    where
      ok-eq : (x y : TrustResult) → Path (Result Raised TrustResult) (ok x) (ok y) → x ≡ y
      ok-eq x y e = ground arith

  -- After attempt `n`, one of those sent from then on is the last.
  abbrev pub IsAttempted : ChatRequest → ℕ → ℕ → List ChatRequest × TrustResult → Type 0
  IsAttempted request n limit p =
      (m : ℕ) × (m < limit)
      × (n + length p.0 ≡ suc m)
      × All (λ q. q ≡ request) p.0
      × IsReplied request m p.1

  handle-IsAttempted :
      (request : ChatRequest) (n limit : ℕ) (outcome : Result Raised TrustResult)
      (next : List ChatRequest × TrustResult)
      → attempt_at request n ≡ outcome
      → n < limit
      → (next.1.verdict ≢ failure → IsAttempted request (suc n) limit next)
      → (handle request n outcome next).1.verdict ≢ failure
      → IsAttempted request n limit (handle request n outcome next)
  unfolding handle
  handle-IsAttempted request n limit (ok t) next e b k h =
      (n, b, omega arith, (refl, tt), attempt_at-IsReplied request n t e)
  handle-IsAttempted request n limit (err e) next same b k h =
      elim (Bool-cases (is_value_error e.kind && nat_eq n 0)) [
        | inl y ↦
            let later = k (rw (y, handle) at h) in
            rw (y, handle) (later.0, later.1, omega (arith, later.2), (refl, later.3), later.4)
        | inr y ↦ absurd ((rw (y, handle) at h) refl)
      ]

  review_attempts-IsAttempted :
      (request : ChatRequest) (remaining n : ℕ) (last_error : Option Raised)
      → (review_attempts request remaining n last_error).1.verdict ≢ failure
      → IsAttempted request n (n + remaining) (review_attempts request remaining n last_error)
  unfolding review_attempts
  review_attempts-IsAttempted request zero n last_error h = absurd (h refl)
  review_attempts-IsAttempted request (suc remaining) n last_error h =
      let outcome = attempt_at request n in
      let next = review_attempts request remaining (suc n) (error_in outcome) in
      handle-IsAttempted request n (n + suc remaining) outcome next refl (omega arith)
        (λ v.
          subst (λ x. IsAttempted request (suc n) x next) (shifted n remaining)
            (review_attempts-IsAttempted request remaining (suc n) (error_in outcome) v))
        h
    where
      shifted : (a b : ℕ) → suc a + b ≡ a + suc b
      shifted a b = omega arith

  -- A result that is no error states the verdict of a reply to the payload's request: the reply is
  -- the last of at most two, each request sent is that one, and the policy is `llm-oneshot`.
  pub review_thought-IsAttempted :
      (r : ThoughtRecord) (prompt model policy : String) (trail_name : Option String)
      (timeout : Float) (p : List ChatRequest × TrustResult)
      → review_thought r prompt model policy trail_name timeout ≡ ok p
      → p.1.verdict ≢ failure
      → (policy ≡ "llm-oneshot") × IsAttempted (request_for r prompt model trail_name timeout) 0 2 p
  unfolding review_thought
  review_thought-IsAttempted r prompt model policy trail_name timeout p h v =
      let request = request_for r prompt model trail_name timeout in
      let all = review_attempts request 2 0 none in
      let a = >>=-eq-ok (check_policy policy) (λ _. ok all) h in
      let same = ok-eq all p a.2 in
      (
        check_policy-eq-ok policy a.1,
        subst (IsAttempted request 0 2) same (
            review_attempts-IsAttempted request 2 0 none
              (λ x. v (sym (ap (λ y. y.1.verdict) same) ∙ x))),
      )
    where
      ok-eq :
          (x y : List ChatRequest × TrustResult)
          → Path (Result Refusal (List ChatRequest × TrustResult)) (ok x) (ok y)
          → x ≡ y
      ok-eq x y e = ground arith
