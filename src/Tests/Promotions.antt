-- ===== src/Tests/Promotions.antt =====
-- A replacement that the Decisions review approves, and its promotion.
use fava_trails.Base.{◌≡◌, ◌≢◌, refl, Bool, true, false, List, [], ◌∷◌, none, some}
use fava_trails.Base.Number.{finite, is_finite, float_le}
use fava_trails.Base.Dict.{Dict, lookup, insert}
use fava_trails.Base.Result.{Result, ok, err}
use fava_trails.Base.Value.{str, float, entries}
use fava_trails.Models.Enums.{draft, approved}
use fava_trails.Models.Thought.{default_frontmatter, namespace_route}
use fava_trails.Transactions.Disk.{TransactionError, Image}
use fava_trails.Governance.Index.{record_index, parse_records}
use fava_trails.Governance.Visibility.{successor_key}
use fava_trails.Base.Text.{has_infix, before_first}
use fava_trails.Trail.Paths.{is_below, find_thought_path, thought_path}
use fava_trails.Trail.Review.{TrustResult, apply_review}
use fava_trails.Trail.Promotion.{Plan, text_at, plan_promotion, unchanged}
use fava_trails.Decisions.Answer.{parse_noul_answer}
use fava_trails.Decisions.Client.{Request}
use fava_trails.Review.Payload.{build_decisions_state}
use fava_trails.Review.Decide.{decide, review_thought_decisions}
use fava_trails.Review.Promoted.{IsEndorsed, plan_promotion-IsEndorsed}
use fava_trails.Tests.Samples.{replacement, env, trail, files}
use fava_trails.Tests.Decides.{message, show, float_of_int, post, dump, client}

abbrev reviewed : List Request × TrustResult
reviewed =
    decide message show float_of_int post dump 9 client "jev"
      (build_decisions_state dump "prompt" (replacement draft) none) ("Promote?", finite 1 1)

decided :
    review_thought_decisions message show float_of_int post dump 9
      (replacement draft)
      "prompt"
      "jev"
      client
      (str "Promote?")
      (float (finite 1 1))
      none
    ≡ ok reviewed
unfolding review_thought_decisions is_finite float_le
decided = refl

abbrev plan_in : Result TransactionError Plan → Plan
plan_in (ok p) = p
plan_in (err e) = unchanged (replacement draft)

abbrev plan : Plan
plan =
    plan_in
      (plan_promotion env false [] trail (some reviewed.1) (some (replacement draft)) files "N")

planned :
    plan_promotion env false [] trail (some reviewed.1) (some (replacement draft)) files "N"
    ≡ ok plan
unfolding plan_promotion find_thought_path is_below namespace_route insert lookup apply_review
    default_frontmatter text_at decide parse_noul_answer entries has_infix parse_records
    record_index before_first successor_key
planned = refl

abbrev is_nonempty : Dict Image → Bool
is_nonempty [] = false
is_nonempty (_ ∷ _) = true

plan-nonempty : is_nonempty plan.writes ≡ true
unfolding plan_promotion find_thought_path is_below namespace_route insert lookup apply_review
    default_frontmatter text_at decide parse_noul_answer entries has_infix parse_records
    record_index before_first successor_key thought_path
plan-nonempty = refl

nonempty-writes : (d : Dict Image) → is_nonempty d ≡ true → d ≢ []
nonempty-writes [] h e = cc
nonempty-writes (w ∷ d) h e = cc

plan-approved : plan.record_.frontmatter.validation_status ≡ approved
unfolding plan_promotion find_thought_path is_below namespace_route insert lookup apply_review
    default_frontmatter text_at decide parse_noul_answer entries has_infix parse_records
    record_index before_first successor_key
plan-approved = refl

plan_promotion-IsEndorsed_example :
    IsEndorsed message show float_of_int post dump 9 client "jev"
      (build_decisions_state dump "prompt" (replacement draft) none)
      (str "Promote?")
      reviewed
plan_promotion-IsEndorsed_example =
    plan_promotion-IsEndorsed message show float_of_int post dump 9 (replacement draft) "prompt"
      "jev" client (str "Promote?") (float (finite 1 1)) none reviewed env false [] trail files "N"
      plan decided planned (nonempty-writes plan.writes plan-nonempty) plan-approved
