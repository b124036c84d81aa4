-- ===== src/Llm/Sanitize.antt =====
-- src/fava_trails/llm/sanitize.py, and the exceptions that a call of a provider raises.
use fava_trails.Base.{ℕ, String, ◌&&◌, Option, none, some, [], ◌∷◌, leb, if◌then◌else◌}
use fava_trails.Base.Number.{pos}
use fava_trails.Base.Text.{concat, decimal}
use fava_trails.Base.Value.{Value, int}

-- The classes that a handler tells apart; `any_llm_error` is an AnyLLMError that is none of the
-- first three, and `other_error` is no AnyLLMError and no ValueError.
pub data ExceptionKind : Type 0 where
  provider_error rate_limit_error authentication_error any_llm_error : ExceptionKind
  value_error other_error : ExceptionKind

-- An exception: its class, its text and its attribute `status_code`. `original` is the status of
-- `original_exception`, where there is one.
pub record Raised : Type 0 where
  pub kind : ExceptionKind
  pub type_name : String
  pub text : String
  pub status_code : Option Value
  pub original : Option (Option Value)

-- `_safe_http_status`
unfoldable pub safe_http_status : Option Value → Option ℕ
safe_http_status (some (int (pos n))) = if leb 100 n && leb n 599 then some n else none
safe_http_status _ = none

original_status : Option (Option Value) → Option ℕ
unfolding safe_http_status
original_status none = none
original_status (some status) = safe_http_status status

status_of_raised : Raised → Option ℕ
unfolding safe_http_status original_status
status_of_raised e = elim (safe_http_status e.status_code) [
  | some n ↦ some n
  | none ↦ original_status e.original
]

unfoldable pub sanitize_provider_exception : Raised → String
unfolding status_of_raised decimal
sanitize_provider_exception e = elim (status_of_raised e) [
  | some n ↦ concat (e.type_name ∷ " (HTTP " ∷ decimal 2 n ∷ ")" ∷ [])
  | none ↦ e.type_name
]
