-- ===== src/Tests/Decides.antt =====
-- A thought that is reviewed through the Decisions API.
use fava_trails.Base.{String, ◌≡◌, ◌≢◌, Option, refl, List, none, some}
use fava_trails.Base.Number.{ℤ, pos, negsuc, Float, finite, is_finite, float_le}
use fava_trails.Base.Dict.{Dict, lookup}
use fava_trails.Base.Result.{ok}
use fava_trails.Base.Value.{Value, str, float, dict, field, end, entries}
use fava_trails.Models.Enums.{draft}
use fava_trails.Trail.Review.{TrustResult, Verdict, approve, failure}
use fava_trails.Decisions.Answer.{DecisionsError, NoulAnswer, parse_noul_answer}
use fava_trails.Decisions.Client.{
  DecisionsClient, given, Request, Response, response, ask_noul, IsAnsweredOnce, ask_noul-answered,
}
use fava_trails.Review.Payload.{build_decisions_state}
use fava_trails.Review.Decide.{
  decide, result_of, review_thought_decisions, IsDecided, review_thought_decisions-IsDecided,
}
use fava_trails.Tests.Samples.{thought}

abbrev pub float_of_int : ℤ → Option Float
float_of_int (pos n) = some (finite n 0)
float_of_int (negsuc n) = none

abbrev body : Value
body = dict (
    field "answers"
      (dict (
        field "trust" (dict (field "type" (str "noul") (field "noul" (float (finite 3 2)) end)))
          end))
      end)

-- a server that answers three quarters to every request
abbrev pub post : Request → Response
post r = response 200 (some body)

abbrev pub client : DecisionsClient
client = record { credential = given (some "key"); api_base = none; provider = "openrouter" }

abbrev answer : NoulAnswer
answer = record { probability = finite 3 2; provider = none; model = none; response_id = none }

abbrev state : Value
state = str "state"

asked : (ask_noul float_of_int post client "jev" state "Promote?").1 ≡ ok answer
unfolding ask_noul parse_noul_answer lookup entries
asked = refl

ask_noul-answered_example :
    IsAnsweredOnce float_of_int post client "jev" state "Promote?" answer
      (ask_noul float_of_int post client "jev" state "Promote?").0
ask_noul-answered_example =
    ask_noul-answered float_of_int post client "jev" state "Promote?" answer asked

abbrev pub message : DecisionsError → String
message e = "failed"

abbrev pub show : Float → String
show x = "a number"

abbrev pub dump : Dict Value → String
dump d = "metadata"

abbrev reviewed : List Request × TrustResult
reviewed =
    decide message show float_of_int post dump 9 client "jev"
      (build_decisions_state dump "prompt" (thought "D" "alice" draft) none)
      ("Promote?", finite 1 1)

decided :
    review_thought_decisions message show float_of_int post dump 9
      (thought "D" "alice" draft)
      "prompt"
      "jev"
      client
      (str "Promote?")
      (float (finite 1 1))
      none
    ≡ ok reviewed
unfolding review_thought_decisions is_finite float_le
decided = refl

approved : reviewed.1.verdict ≡ approve
unfolding decide is_finite float_le parse_noul_answer lookup entries ask_noul result_of
approved = refl

no_failure : (v : Verdict) → v ≡ approve → v ≢ failure
no_failure v e f = cc

review_thought_decisions-IsDecided_example :
    IsDecided message show float_of_int post dump 9 client "jev"
      (build_decisions_state dump "prompt" (thought "D" "alice" draft) none)
      (str "Promote?")
      reviewed
review_thought_decisions-IsDecided_example =
    review_thought_decisions-IsDecided message show float_of_int post dump 9
      (thought "D" "alice" draft) "prompt" "jev" client (str "Promote?") (float (finite 1 1)) none
      reviewed decided (no_failure reviewed.1.verdict approved)
