-- ===== src/Review/Decide.antt =====
-- `review_thought_decisions` of src/fava_trails/trust_gate.py.
use mathlib.Core.Path.{subst, Path}
use fava_trails.Base.{
  ℕ, String, ◌≡◌, ◌≢◌, ◌↔◌, refl, sym, ap, ◌∙◌, inl, inr, true, false, not, ◌&&◌, Option, none,
  some, List, [], ◌∷◌, if◌then◌else◌, arith, Bool-cases,
}
use fava_trails.Base.Number.{ℤ, Float, is_finite, float_le, zero_float, one_float}
use fava_trails.Base.Dict.{Dict}
use fava_trails.Base.Result.{Result, ok, err, ◌>>=◌, ◌>>◌, raise_if, >>=-eq-ok, raise_if-eq-ok}
use fava_trails.Base.Text.{concat, is_empty, strip}
use fava_trails.Base.Value.{Value, str, int, float}
use fava_trails.Models.Thought.{ThoughtRecord}
use fava_trails.Trail.Review.{TrustResult, Verdict, approve, reject, failure, llm_advisory}
use fava_trails.Decisions.Answer.{DecisionsError, overflow, NoulAnswer, IsProbability}
use fava_trails.Decisions.Client.{
  DecisionsClient, Request, Response, ask_noul, IsAnsweredOnce, ask_noul-answered,
}
use fava_trails.Review.Prompts.{invalid_question, invalid_threshold}
use fava_trails.Review.Payload.{build_decisions_state}
use fava_trails.Review.Failures.{Refusal, config_error, overflow_error, or_text}

unfoldable pub question_of : Value → Result Refusal String
question_of (str s) = if is_empty (strip s) then err (config_error invalid_question) else ok s
question_of _ = err (config_error invalid_question)

-- The texts of a DecisionsError and of a float are arguments, with `float(n)`, the HTTP client and
-- `yaml.dump`.
module _ (message : DecisionsError → String) (show : Float → String)
    (float_of_int : ℤ → Option Float) (post : Request → Response) (dump : Dict Value → String)
    (now : ℕ) where
  unfoldable pub float_value : Value → Result Refusal Float
  float_value (int n) = elim (float_of_int n) [ some x ↦ ok x | none ↦ err overflow_error ]
  float_value (float x) = ok x
  float_value _ = err (config_error invalid_threshold)

  unfoldable pub threshold_of : Value → Result Refusal Float
  unfolding float_value
  threshold_of v = do
    x ← float_value v
    raise_if (not (is_finite x)) (config_error invalid_threshold)
    raise_if (not (float_le zero_float x && float_le x one_float)) (config_error invalid_threshold)
    ok x

  -- the question and the threshold, where they are valid
  unfoldable pub validate_decisions_review_inputs : Value → Value → Result Refusal (String × Float)
  unfolding question_of threshold_of
  validate_decisions_review_inputs question threshold = do
    asked ← question_of question
    limit ← threshold_of threshold
    ok (asked, limit)

  reviewer_of : String → String
  reviewer_of model = concat ("decisions:" ∷ model ∷ [])

  unfoldable pub failure_text : DecisionsError → String
  failure_text overflow = "Unexpected error: OverflowError"
  failure_text e = concat ("Decisions review failed closed: " ∷ message e ∷ [])

  unfoldable pub verdict_of : Float → Float → Verdict
  verdict_of probability threshold = if float_le threshold probability then approve else reject

  reasoning_of : Float → Float → String
  reasoning_of probability threshold =
      if float_le threshold probability
      then concat (
          "Noul probability "
          ∷ show probability
          ∷ " is at or above the configured threshold "
          ∷ show threshold
          ∷ ". The Decisions response carries no reasoning; none is fabricated."
          ∷ [])
      else concat (
          "Noul probability "
          ∷ show probability
          ∷ " is below the configured threshold "
          ∷ show threshold
          ∷ ". The Decisions response carries no reasoning; none is fabricated."
          ∷ [])

  -- what is made of the client's outcome
  unfoldable pub result_of :
      DecisionsClient → String → Float → Result DecisionsError NoulAnswer → TrustResult
  unfolding reviewer_of failure_text verdict_of reasoning_of or_text
  result_of client model threshold (err e) = record {
    verdict = failure;
    reasoning = str (failure_text e);
    reviewer = reviewer_of model;
    reviewed_at = now;
    confidence = none;
    provider = some client.provider;
    model = some model;
    approval_kind = llm_advisory;
    policy = some "decisions";
    noul_probability = none;
    threshold = some threshold;
  }
  result_of client model threshold (ok answer) = record {
    verdict = verdict_of answer.probability threshold;
    reasoning = str (reasoning_of answer.probability threshold);
    reviewer = reviewer_of model;
    reviewed_at = now;
    confidence = none;
    provider = or_text (some client.provider) answer.provider;
    model = or_text answer.model (some model);
    approval_kind = llm_advisory;
    policy = some "decisions";
    noul_probability = some answer.probability;
    threshold = some threshold;
  }

  -- the requests that were posted, and the result
  unfoldable pub decide :
      DecisionsClient → String → Value → String × Float → List Request × TrustResult
  unfolding result_of ask_noul
  decide client model state (question, threshold) =
      let outcome = ask_noul float_of_int post client model state question in
      (outcome.0, result_of client model threshold outcome.1)

  unfoldable pub review_thought_decisions :
      ThoughtRecord
      → String
      → String
      → DecisionsClient
      → Value
      → Value
      → Option String
      → Result Refusal (List Request × TrustResult)
  unfolding validate_decisions_review_inputs decide build_decisions_state
  review_thought_decisions r prompt model client question threshold trail_name = do
    inputs ← validate_decisions_review_inputs question threshold
    ok (decide client model (build_decisions_state dump prompt r trail_name) inputs)

  -- What a verdict rests on: the configured question was asked once, and the answer is compared with
  -- the configured threshold, a number from 0 to 1.
  pub record IsDecided (client : DecisionsClient) (model : String) (state question : Value)
      (p : List Request × TrustResult) : Type 0 where
    pub asked : String
    pub limit : Float
    pub answer : NoulAnswer
    pub question_is : question ≡ str asked
    pub limit_range : IsProbability float_of_int limit
    pub answered : IsAnsweredOnce float_of_int post client model state asked answer p.0
    pub probability : p.1.noul_probability ≡ some answer.probability
    pub threshold : p.1.threshold ≡ some limit
    pub approved : (p.1.verdict ≡ approve) ↔ (float_le limit answer.probability ≡ true)
    pub rejected : (p.1.verdict ≡ reject) ↔ (float_le limit answer.probability ≡ false)

  question_of-eq-ok : (v : Value) (s : String) → question_of v ≡ ok s → v ≡ str s
  unfolding question_of
  question_of-eq-ok (str t) s h = elim (Bool-cases (is_empty (strip t))) [
    | inl e ↦ ground (arith, rw (e, question_of) at h)
    | inr e ↦ let same : t ≡ s = ground (arith, rw (e, question_of) at h) in ap (λ x. str x) same
  ]
  question_of-eq-ok Value.null s h = cc
  question_of-eq-ok (Value.bool x) s h = cc
  question_of-eq-ok (int x) s h = cc
  question_of-eq-ok (float x) s h = cc
  question_of-eq-ok (Value.list x) s h = cc
  question_of-eq-ok (Value.dict x) s h = cc

  threshold_of-IsProbability :
      (v : Value) (x : Float) → threshold_of v ≡ ok x → IsProbability float_of_int x
  unfolding threshold_of
  threshold_of-IsProbability v x h =
      let outside = λ (y : Float). not (float_le zero_float y && float_le y one_float) in
      let invalid = config_error invalid_threshold in
      let finish : Float → Result Refusal Float =
        λ y. raise_if (not (is_finite y)) invalid >> (raise_if (outside y) invalid >> ok y) in
      let a = >>=-eq-ok (float_value v) finish h in
      let b =
        raise_if-eq-ok (not (is_finite a.0)) invalid (raise_if (outside a.0) invalid >> ok a.0)
          a.2 in
      let c = raise_if-eq-ok (outside a.0) invalid (ok a.0) b.1 in
      let same : a.0 ≡ x = ground (arith, c.1) in
      subst (IsProbability float_of_int) same
        (ground (arith, b.0), ground (arith, c.0), ground (arith, c.0))

  decide-IsDecided :
      (client : DecisionsClient) (model : String) (state : Value) (asked : String) (limit : Float)
      → IsProbability float_of_int limit
      → (outcome : Result DecisionsError NoulAnswer)
      → (ask_noul float_of_int post client model state asked).1 ≡ outcome
      → (result_of client model limit outcome).verdict ≢ failure
      → IsDecided client model state (str asked) (
        (ask_noul float_of_int post client model state asked).0,
        result_of client model limit outcome,
      )
  unfolding result_of verdict_of
  decide-IsDecided client model state asked limit b (err e) same v = absurd (v refl)
  decide-IsDecided client model state asked limit b (ok a) same v = record {
    asked = asked;
    limit = limit;
    answer = a;
    question_is = refl;
    limit_range = b;
    answered = ask_noul-answered float_of_int post client model state asked a same;
    probability = refl;
    threshold = refl;
    approved = (λ h. ground (arith, h), λ h. ground (arith, h));
    rejected = (λ h. ground (arith, h), λ h. ground (arith, h));
  }

  pub review_thought_decisions-IsDecided :
      (r : ThoughtRecord) (prompt model : String) (client : DecisionsClient)
      (question threshold : Value) (trail_name : Option String) (p : List Request × TrustResult)
      → review_thought_decisions r prompt model client question threshold trail_name ≡ ok p
      → p.1.verdict ≢ failure
      → IsDecided client model (build_decisions_state dump prompt r trail_name) question p
  unfolding review_thought_decisions validate_decisions_review_inputs decide
  review_thought_decisions-IsDecided r prompt model client question threshold trail_name p h v =
      let state = build_decisions_state dump prompt r trail_name in
      let run : String × Float → Result Refusal (List Request × TrustResult) =
        λ i. ok (decide client model state i) in
      let pair : String → Float → Result Refusal (String × Float) = λ q x. ok (q, x) in
      let a = >>=-eq-ok (validate_decisions_review_inputs question threshold) run h in
      let b = >>=-eq-ok (question_of question) (λ q. threshold_of threshold >>= pair q) a.1 in
      let c = >>=-eq-ok (threshold_of threshold) (pair b.0) b.2 in
      let inputs = pair-eq (b.0, c.0) a.0 c.2 in
      let same : decide client model state (b.0, c.0) ≡ p =
        ap (decide client model state) inputs ∙ result-eq (decide client model state a.0) p a.2 in
      let limit = threshold_of-IsProbability threshold c.0 c.1 in
      let whole =
        decide-IsDecided client model state b.0 c.0 limit
          (ask_noul float_of_int post client model state b.0).1 refl
          (λ x. v (sym (ap (λ y. y.1.verdict) same) ∙ x)) in
      subst (IsDecided client model state question) same (
        subst (λ q. IsDecided client model state q (decide client model state (b.0, c.0)))
          (sym (question_of-eq-ok question b.0 b.1)) whole)
    where
      pair-eq :
          (x y : String × Float) → Path (Result Refusal (String × Float)) (ok x) (ok y) → x ≡ y
      pair-eq x y e = ground arith

      result-eq :
          (x y : List Request × TrustResult)
          → Path (Result Refusal (List Request × TrustResult)) (ok x) (ok y)
          → x ≡ y
      result-eq x y e = ground arith
