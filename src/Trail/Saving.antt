-- ===== src/Trail/Saving.antt =====
-- `save_thought` of src/fava_trails/trail.py.
pub mod Drafts
use fava_trails.Base.{
  ℕ, String, Bool, true, false, not, ◌&&◌, ◌||◌, Option, none, some, List, [], ◌∷◌, if◌then◌else◌,
  or_else,
}
use fava_trails.Base.Number.{Float, float_le, zero_float, one_float}
use fava_trails.Base.Result.{Result, ok, err, raise_if}
use fava_trails.Base.Result
use fava_trails.Base.Text.{is_empty}
use fava_trails.Models.Enums.{SourceType, relationship_of}
use fava_trails.Models.Thought.{
  Relationship, ThoughtMetadata, ThoughtRecord, default_frontmatter, thought_id_of,
  default_namespace,
}
use fava_trails.Hooks.Actions.{HookEvent, saving, thought_of}
use fava_trails.Hooks.Pipeline.{HookSpec, PipelineResult, Outcome, returned, run_pipeline}
use fava_trails.Hooks.Pipeline
use fava_trails.Transactions.Disk.{
  World, Run, pure, lift, step, replace_file, TransactionError, obvious_secret, invalid_namespace,
  invalid_confidence, invalid_relationship, hook_failed, hook_rejected, ◌>>=◌, ◌>>◌,
}
use fava_trails.Transactions.Persist.{commit_files}
use fava_trails.Trail.Paths.{Trail, is_valid_namespace, thought_path}
use fava_trails.Trail.Promotion.{Environment, Call, nonempty_or, after_pipeline}

-- The arguments of a call. The metadata are those that the model made of the given dict.
pub record Request : Type 0 where
  pub content : String
  pub agent_id : String
  pub source_type : SourceType
  pub confidence : Float
  pub namespace : Option String
  pub parent_id : Option String
  pub intent_ref : Option String
  pub relationships : List (String × String)
  pub metadata : ThoughtMetadata

relationships_of : List (String × String) → Call (List Relationship)
unfolding relationship_of
relationships_of [] = ok []
relationships_of ((type, target) ∷ rest) =
    let others = relationships_of rest in
    elim (relationship_of type) [
      | none ↦ err invalid_relationship
      | some k ↦ Result.◌>>=◌ others (λ rs. ok (record { type = k; target_id = target } ∷ rs))
    ]

-- the record before the hooks; the ULID and the clock are read at the call
unfoldable pub new_record : Request → List Relationship → String → ℕ → ThoughtRecord
unfolding default_frontmatter
new_record q relationships ulid now = record {
  frontmatter = record (default_frontmatter ulid now) {
    agent_id = q.agent_id;
    source_type = q.source_type;
    confidence = q.confidence;
    parent_id = q.parent_id;
    intent_ref = q.intent_ref;
    metadata = q.metadata;
    relationships = relationships;
  };
  content = q.content;
}

unfoldable pub saving_event : Trail → ThoughtRecord → String → HookEvent
saving_event t record_ ns = record {
  trail_name = t.name;
  lifecycle_point = "before_save";
  payload = saving (some record_) ns;
}

module _ (env : Environment) (request_has_secret : Request → Bool) (t : Trail) where
  -- the checks up to the hooks
  unfoldable pub requested : Request → String → ℕ → Call (ThoughtRecord × String)
  unfolding relationships_of
  requested q ulid now =
      let ns = nonempty_or q.namespace default_namespace in
      Result.◌>>◌ (raise_if (request_has_secret q) obvious_secret) (
        Result.◌>>◌ (raise_if (not (is_valid_namespace ns)) invalid_namespace) (
          Result.◌>>◌
            (raise_if (not (float_le zero_float q.confidence && float_le q.confidence one_float))
              invalid_confidence)
            (Result.◌>>=◌ (relationships_of q.relationships)
              (λ rs. ok (new_record q rs ulid now, ns)))))

  unfoldable pub hooked :
      Bool → List HookSpec → ThoughtRecord × String → Call (ThoughtRecord × String)
  unfolding after_pipeline saving_event
  hooked false hooks p = ok p
  hooked true hooks p = after_pipeline env (run_pipeline hooks (saving_event t p.0 p.1)) p.0 p.1

  unfoldable pub checked : ThoughtRecord × String → Call (ThoughtRecord × String)
  checked p = Result.◌>>◌ (raise_if (env.has_secret p.0) obvious_secret) (ok p)

  -- the record and the namespace that it is written to
  unfoldable pub plan_save :
      Bool → List HookSpec → Request → String → ℕ → Call (ThoughtRecord × String)
  unfolding requested hooked checked
  plan_save has_hooks hooks q ulid now =
      Result.◌>>=◌ (requested q ulid now) (λ p. Result.◌>>=◌ (hooked has_hooks hooks p) checked)

  -- the argument `message` is the commit's
  unfoldable pub save_thought :
      String → Bool → List HookSpec → Request → String → ℕ → Run ThoughtRecord
  unfolding plan_save thought_path
  save_thought message has_hooks hooks q ulid now = do
    p ← lift (plan_save has_hooks hooks q ulid now)
    step (replace_file (thought_path t (thought_id_of p.0) p.1) (some (env.render p.0)))
    commit_files message ((thought_path t (thought_id_of p.0) p.1, some (env.render p.0)) ∷ [])
    pure p.0
