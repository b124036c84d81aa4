-- ===== src/Tests/Reviews.antt =====
-- A thought that is reviewed by a language model.
use fava_trails.Base.{
  nat_eq, ℕ, zero, suc, String, ◌≡◌, ◌≢◌, Option, false, refl, List, [], ◌∷◌, none, some, ◌==◌,
  if◌then◌else◌, length,
}
use fava_trails.Base.Number.{finite}
use fava_trails.Base.Dict.{Dict, lookup}
use fava_trails.Base.Result.{Result, ok, err}
use fava_trails.Base.Text.{concat}
use fava_trails.Base.Value.{Value, str, dict, field, end, entries}
use fava_trails.Config.Scope.{split_slash}
use fava_trails.Models.Enums.{draft}
use fava_trails.Models.Thought.{ThoughtRecord}
use fava_trails.Trail.Review.{TrustResult, Verdict, approve, failure}
use fava_trails.Llm.Sanitize.{Raised}
use fava_trails.Llm.Completion.{LlmResponse}
use fava_trails.Review.Prompts.{resolve_prompt, parts_of, IsNearest, resolve_prompt-IsNearest}
use fava_trails.Review.Payload.{build_review_payload, has_bracket, user_message-plain}
use fava_trails.Review.Verdict.{ReplyError, value_error, extract_json}
use fava_trails.Review.Extraction.{has_code, extract_json-object}
use Prim.Native.Char.{char, code}
use fava_trails.Base.Text.{is_space}
use fava_trails.Review.Failures.{ChatRequest}
use fava_trails.Review.Oneshot.{
  review_attempts, request_for, review_thought, IsAttempted, review_thought-IsAttempted,
}
use fava_trails.Tests.Samples.{thought}

abbrev prompts : Dict String
prompts = ("", "root") ∷ ("mw", "of mw") ∷ []

nearest : resolve_prompt prompts "mw/eng" ≡ ok "of mw"
unfolding resolve_prompt split_slash
nearest = refl

resolve_prompt-IsNearest_example :
    IsNearest prompts (parts_of "mw/eng") (length (parts_of "mw/eng")) "of mw"
resolve_prompt-IsNearest_example = resolve_prompt-IsNearest prompts "mw/eng" "of mw" nearest

abbrev dump : Dict Value → String
dump d = "<metadata>"

abbrev candidate : ThoughtRecord
candidate = thought "D" "alice" draft

user_message-plain_example :
    (content : String) × (metadata : String) × ((build_review_payload dump "prompt" candidate
        none).1
      ≡ concat (
          "<thought_under_review>\n" ∷ content ∷ "\n</thought_under_review>\n\n<thought_metadata>\n"
          ∷ metadata ∷ "</thought_metadata>" ∷ []))
    × (has_bracket content ≡ false)
    × (has_bracket metadata ≡ false)
user_message-plain_example = user_message-plain dump "prompt" candidate none

abbrev reply : String
reply = "Here it is:\n{\"verdict\": \"approve\"} Bye."

cut_out : extract_json reply ≡ "{\"verdict\": \"approve\"}"
unfolding extract_json
cut_out = refl

unfenced : extract_json "```json\n{}\n```" ≡ "{}"
unfolding extract_json
unfenced = refl

H_letter-code : nat_eq (code (char 72 tt)) b'`' ≡ false
H_letter-code = refl

no_opening : has_code b'{' "Here it is:\n" ≡ false
unfolding has_code
no_opening = refl

no_closing : has_code b'}' " Bye." ≡ false
unfolding has_code
no_closing = refl

H_letter-is_space : is_space (char 72 tt) ≡ false
unfolding is_space
H_letter-is_space = refl

extract_json-object_example : extract_json reply ≡ "{\"verdict\": \"approve\"}"
extract_json-object_example =
    extract_json-object (char 72 tt) (char 123 tt) (char 125 tt) "ere it is:\n"
      "\"verdict\": \"approve\"" " Bye." H_letter-is_space H_letter-code refl refl no_opening
      no_closing

abbrev verdict : Value
verdict = dict (field "verdict" (str "approve") end)

abbrev loads : String → Result ReplyError Value
loads s =
    if s == "{\"verdict\": \"approve\"}" then ok verdict else err (value_error "Expecting value")

abbrev repr : Option Value → String
repr v = "a value"

abbrev served : String → LlmResponse
served content = record { content = content; model = "served"; usage = none; provider = none }

-- the first reply is no JSON
abbrev chat : ℕ → ChatRequest → Result Raised LlmResponse
chat zero r = ok (served "I approve.")
chat (suc n) r = ok (served reply)

abbrev policy : String
policy = "llm-oneshot"

abbrev request : ChatRequest
request =
    request_for loads repr dump chat (some "openrouter") 9 candidate "prompt" "model" none
      (finite 60 0)

abbrev reviewed : List ChatRequest × TrustResult
reviewed = review_attempts loads repr dump chat (some "openrouter") 9 request 2 0 none

finished :
    review_thought loads repr dump chat
      (some "openrouter")
      9
      candidate
      "prompt"
      "model"
      policy
      none
      (finite 60 0)
    ≡ ok reviewed
unfolding review_thought
finished = refl

approved : reviewed.1.verdict ≡ approve
unfolding review_attempts lookup entries
approved = refl

no_failure : (v : Verdict) → v ≡ approve → v ≢ failure
no_failure v e f = cc

review_thought-IsAttempted_example :
    (policy ≡ "llm-oneshot")
    × IsAttempted loads repr dump chat (some "openrouter") 9 request 0 2 reviewed
review_thought-IsAttempted_example =
    review_thought-IsAttempted loads repr dump chat (some "openrouter") 9 candidate "prompt" "model"
      policy none (finite 60 0) reviewed finished (no_failure reviewed.1.verdict approved)
