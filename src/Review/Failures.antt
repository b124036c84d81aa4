-- ===== src/Review/Failures.antt =====
-- What `review_thought` of src/fava_trails/trust_gate.py raises, and what it makes of an exception.
use fava_trails.Base.{
  String, ◌≡◌, Bool, true, false, not, Option, none, some, [], ◌∷◌, ◌==◌, if◌then◌else◌, arith,
  eq_iff,
}
use fava_trails.Base.Number.{Float}
use fava_trails.Base.Result.{Result, ok, err, ◌>>◌, raise_if, raise_if-eq-ok}
use fava_trails.Base.Text.{concat, is_empty}
use fava_trails.Llm.Sanitize.{Raised, ExceptionKind, sanitize_provider_exception}
use fava_trails.Review.Prompts.{TrustGateConfigError, wrong_policy, unknown_policy}
use fava_trails.Review.Verdict.{ReplyError, value_error, other_error, Reading}

-- What a review raises: NotImplementedError, OverflowError or a TrustGateConfigError.
pub data Refusal : Type 0 where
  not_implemented overflow_error : Refusal
  config_error : TrustGateConfigError → Refusal

-- The messages of a chat and its parameters. The temperature is 0, and the format a JSON object.
pub record ChatRequest : Type 0 where
  pub system : String
  pub user : String
  pub model : String
  pub timeout : Float

-- `a or b` on texts that may be None
unfoldable pub or_text : Option String → Option String → Option String
or_text none b = b
or_text (some a) b = if is_empty a then b else some a

unfoldable pub check_policy : String → Result Refusal (Unit {0})
check_policy policy = do
  raise_if (policy == "human") not_implemented
  raise_if (policy == "decisions") (config_error wrong_policy)
  raise_if (not (policy == "llm-oneshot")) (config_error unknown_policy)
  ok tt

-- the exception of a reply that is not accepted
unfoldable pub raised_by : ReplyError → Raised
raised_by (value_error text) = record {
  kind = ExceptionKind.value_error;
  type_name = "ValueError";
  text = text;
  status_code = none;
  original = none;
}
raised_by (other_error name) = record {
  kind = ExceptionKind.other_error;
  type_name = name;
  text = "";
  status_code = none;
  original = none;
}

unfoldable pub lifted : Result ReplyError Reading → Result Raised Reading
unfolding raised_by
lifted (ok r) = ok r
lifted (err e) = err (raised_by e)

-- the reasoning of an error result
unfoldable pub failure_text : Raised → String
unfolding sanitize_provider_exception
failure_text e = elim e.kind [
  | ExceptionKind.provider_error ↦ concat ("LLM API " ∷ sanitize_provider_exception e ∷ [])
  | ExceptionKind.value_error ↦
      concat ("Failed to parse reviewer response after retry: " ∷ e.text ∷ [])
  | ExceptionKind.other_error ↦ concat ("Unexpected error: " ∷ sanitize_provider_exception e ∷ [])
  | _ ↦ concat ("LLM connection error: " ∷ sanitize_provider_exception e ∷ [])
]

unfoldable pub is_value_error : ExceptionKind → Bool
is_value_error ExceptionKind.value_error = true
is_value_error _ = false

pub check_policy-eq-ok : (policy : String) → check_policy policy ≡ ok tt → policy ≡ "llm-oneshot"
unfolding check_policy
check_policy-eq-ok policy h =
    let last : Result Refusal (Unit {0}) = ok tt in
    let third = raise_if (not (policy == "llm-oneshot")) (config_error unknown_policy) >> last in
    let second = raise_if (policy == "decisions") (config_error wrong_policy) >> third in
    let a = raise_if-eq-ok (policy == "human") not_implemented second h in
    let b = raise_if-eq-ok (policy == "decisions") (config_error wrong_policy) third a.1 in
    let c = raise_if-eq-ok (not (policy == "llm-oneshot")) (config_error unknown_policy) last b.1 in
    ground (arith, c.0, eq_iff policy "llm-oneshot")
