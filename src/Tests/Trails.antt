-- ===== src/Tests/Trails.antt =====
-- A promotion, an update, a successor and a thought that is saved.
use fava_trails.Base.{
  String, ◌≡◌, refl, ◌⊎◌, Bool, true, false, ◌||◌, none, some, [], ◌∷◌, if◌then◌else◌, ◌==◌,
}
use fava_trails.Base.Dict.{lookup, insert, remove}
use fava_trails.Base.Text.{has_infix, before_first}
use fava_trails.Base.Result.{ok}
use fava_trails.Models.Enums.{draft, proposed, approved, same_status}
use fava_trails.Models.Thought.{ThoughtRecord, default_frontmatter, namespace_route, is_superseded}
use fava_trails.Base.Number.{half_float, float_le}
use fava_trails.Models.Enums.{observation, references, relationship_of}
use fava_trails.Models.Thought.{empty_metadata}
use fava_trails.Trail.Paths.{is_valid_namespace}
use fava_trails.Trail.Saving.{Request, new_record, plan_save}
use fava_trails.Trail.Saving.Drafts.{IsPlaced, plan_save-IsPlaced}
use fava_trails.Governance.Visibility.{successor_key}
use fava_trails.Governance.Index.{parse_records, record_index}
use fava_trails.Transactions.Disk.{TransactionError, World, failed, done}
use fava_trails.Trail.Paths.{found, is_below, find_thought_path, thought_path}
use fava_trails.Trail.Review.{with_status, apply_review}
use fava_trails.Base.Number.{pos}
use fava_trails.Hooks.Pipeline.{HookSpec, nothing, run_pipeline}
use fava_trails.Hooks.Actions.{validate_action, thought_of}
use fava_trails.Trail.Promotion.{
  Environment, Plan, text_at, plan_promotion, publication, superseded_by,
}
use fava_trails.Trail.Promotion.Lifecycle.{plan_promotion-status, plan_promotion-unapproved}
use fava_trails.Trail.Promotion.Replacement.{linked, IsReplaceable, publication-replaces}
use fava_trails.Trail.Updates.{
  is_frozen, read_thought, with_content, plan_update, update_thought, plan_supersede,
}
use fava_trails.Trail.Updates.Freeze.{
  Updated, Lineage, plan_update-keeps, update_thought-frozen, plan_supersede-IsDraft,
}
use fava_trails.Tests.Samples.{
  replacement, original, env, trail, draft_path, original_path, files, refusal,
}

abbrev reviewed_draft : ThoughtRecord
reviewed_draft = apply_review env.isoformat (some refusal) (replacement draft)

abbrev rejected_plan : Plan
rejected_plan = record {
  record_ = reviewed_draft;
  target_namespace = "observations";
  writes = (draft_path, some "new") ∷ [];
  expected = (draft_path, replacement draft) ∷ [];
}

rejected_plan-planned :
    plan_promotion env false [] trail (some refusal) none files "N" ≡ ok rejected_plan
unfolding plan_promotion find_thought_path is_below namespace_route insert lookup apply_review
    default_frontmatter text_at
rejected_plan-planned = refl

plan_promotion-status_example :
    ((rejected_plan.writes ≡ []) × (rejected_plan.record_.frontmatter.validation_status ≡ approved))
    ⊎ (rejected_plan.record_.frontmatter.validation_status ≡ with_status (some refusal))
plan_promotion-status_example =
    plan_promotion-status env false [] trail (some refusal) none files "N" rejected_plan
      rejected_plan-planned

plan_promotion-unapproved_example :
    (rejected_plan.writes ≡ [])
    ⊎ ((source : String) × (text : String) × (before : ThoughtRecord) × (find_thought_path
            (is_below trail env.is_thought)
            "N"
            files
          ≡ found source)
        × (lookup source files ≡ some text)
        × (env.parse text ≡ ok before)
        × (rejected_plan.writes
            ≡ insert
                (if same_status (with_status (some refusal)) proposed
                  then thought_path trail before.frontmatter.thought_id
                      rejected_plan.target_namespace
                  else source)
                (some (env.render rejected_plan.record_))
                ((source, none) ∷ [])))
plan_promotion-unapproved_example =
    plan_promotion-unapproved env false [] trail (some refusal) none files "N" rejected_plan
      rejected_plan-planned refl

abbrev approved_plan : Plan
approved_plan = record {
  record_ = replacement approved;
  target_namespace = "observations";
  writes =
      (draft_path, none)
      ∷ ("trails/mw/thoughts/observations/N.md", some "new")
      ∷ (original_path, some "O")
      ∷ [];
  expected = (draft_path, replacement draft) ∷ (original_path, original) ∷ [];
}

abbrev approvable : ThoughtRecord
approvable = replacement approved

approved_plan-published :
    publication env trail files draft_path (replacement draft) approvable "observations"
    ≡ ok approved_plan
unfolding publication insert lookup default_frontmatter superseded_by has_infix parse_records
    record_index before_first successor_key thought_path
approved_plan-published = refl

publication-replaces_example :
    (q : String × ThoughtRecord) × IsReplaceable env trail files approvable q
    × (lookup q.0 approved_plan.writes ≡ some (some (env.render (linked trail approvable q.1))))
    × (lookup q.0 approved_plan.expected ≡ some q.1)
publication-replaces_example =
    publication-replaces env trail files approvable draft_path (replacement draft) "observations"
      approved_plan approved_plan-published refl

abbrev no_secret : String → Bool
no_secret text = text == "sk-secret"

N-read : read_thought env trail "N" files ≡ ok (draft_path, replacement draft)
unfolding read_thought find_thought_path is_below lookup
N-read = refl

O-read : read_thought env trail "O" files ≡ ok (original_path, original)
unfolding read_thought find_thought_path is_below lookup
O-read = refl

N-updated :
    plan_update env no_secret trail "N" "newer" files
    ≡ ok (draft_path, with_content (replacement draft) "newer")
unfolding plan_update find_thought_path is_below lookup default_frontmatter is_superseded
N-updated = refl

plan_update-keeps_example :
    Updated env no_secret trail "N" "newer" files
      (draft_path, with_content (replacement draft) "newer")
plan_update-keeps_example =
    plan_update-keeps env no_secret trail "N" "newer" files
      (draft_path, with_content (replacement draft) "newer") N-updated

abbrev world : World
world = record {
  disk = record { files = files; journal = none; commits = [] };
  schedule = done ∷ done ∷ [];
}

O-frozen : is_frozen original.frontmatter.validation_status || is_superseded original ≡ true
unfolding is_frozen
O-frozen = refl

update_thought-frozen_example :
    (e : TransactionError) × (update_thought env no_secret trail "Update" "O" "newer" world
      ≡ (failed e, world))
update_thought-frozen_example =
    update_thought-frozen env no_secret trail "Update" "O" "newer" original_path original world
      O-read O-frozen

abbrev successor : ThoughtRecord
successor = record {
  frontmatter = record (default_frontmatter "P" 11) {
    agent_id = "bob";
    parent_id = some "O";
    supersedes_id = some "O";
    supersedes_scope = some "mw";
  };
  content = "newer";
}

P-planned :
    plan_supersede env no_secret trail trail "P" 11 "bob" none "O" "newer" "stale" files
    ≡ ok (successor, ("trails/mw/thoughts/drafts/P.md", some "newer") ∷ [])
unfolding plan_supersede find_thought_path is_below lookup default_frontmatter remove thought_path
    float_le
P-planned = refl

plan_supersede-IsDraft_example :
    Lineage env no_secret trail trail "P" "O" files
      (successor, ("trails/mw/thoughts/drafts/P.md", some "newer") ∷ [])
plan_supersede-IsDraft_example =
    plan_supersede-IsDraft env no_secret trail trail "P" 11 "bob" none "O" "newer" "stale" files
      (successor, ("trails/mw/thoughts/drafts/P.md", some "newer") ∷ []) P-planned

abbrev request : Request
request = record {
  content = "note";
  agent_id = "alice";
  source_type = observation;
  confidence = half_float;
  namespace = none;
  parent_id = none;
  intent_ref = none;
  relationships = ("REFERENCES", "O") ∷ [];
  metadata = empty_metadata;
}

-- a hook that returns nothing, and changes the content in place
abbrev silent : HookSpec
silent = record {
  name = "silent";
  fn = λ e. nothing;
  fail_mode = "closed";
  timeout = half_float;
  order = pos 1;
  config = [];
  source = "";
}

abbrev changing : Environment
changing = record env { in_place = λ r. record r { content = "changed" } }

abbrev saved : ThoughtRecord
saved = record {
  frontmatter = record (default_frontmatter "Q" 13) {
    agent_id = "alice";
    relationships = record { type = references; target_id = "O" } ∷ [];
  };
  content = "changed";
}

Q-planned :
    plan_save changing (λ q. false) trail true (silent ∷ []) request "Q" 13 ≡ ok (saved, "drafts")
unfolding plan_save is_valid_namespace float_le default_frontmatter new_record relationship_of
    run_pipeline validate_action thought_of
Q-planned = refl

plan_save-IsPlaced_example :
    IsPlaced changing true "Q" (saved, "drafts") × (changing.has_secret saved ≡ false)
plan_save-IsPlaced_example =
    plan_save-IsPlaced changing (λ q. false) trail true (silent ∷ []) request "Q" 13
      (saved, "drafts") Q-planned
