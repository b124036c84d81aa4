-- ===== src/Trail/Updates.antt =====
-- `update_thought`, `supersede` and `propose_truth` of src/fava_trails/trail.py, with their effects
-- on the disk. The collection of garbage and the hooks that only observe are left out.
pub mod Freeze
use fava_trails.Base.{
  ℕ, String, ◌≡◌, Bool, true, false, not, ◌&&◌, ◌||◌, Option, none, some, List, [], ◌∷◌,
  if◌then◌else◌, or_else,
}
use fava_trails.Base.Number.{Float, float_le, zero_float, one_float}
use fava_trails.Base.Dict.{Dict, remove}
use fava_trails.Base.Value.{Value}
use fava_trails.Base.Result.{Result, ok, err, raise_if}
use fava_trails.Base.Result
use fava_trails.Base.Text.{concat}
use fava_trails.Models.Enums.{ValidationStatus, approved, rejected, tombstoned, same_status}
use fava_trails.Models.Thought.{ThoughtRecord, default_frontmatter, thought_id_of, is_superseded}
use fava_trails.Hooks.Pipeline.{HookSpec}
use fava_trails.Transactions.Disk.{
  Image, World, Run, pure, lift, step, replace_file, TransactionError, obvious_secret,
  content_frozen, content_superseded, invalid_confidence, ◌>>=◌, ◌>>◌,
}
use fava_trails.Transactions.Persist.{recover, commit_files, persist_governance}
use fava_trails.Trail.Paths.{Trail, thought_path, is_below, find_thought_path}
use fava_trails.Trail.Review.{TrustResult}
use fava_trails.Trail.Promotion.{Environment, Plan, Call, located, text_at, plan_promotion}

-- FROZEN_STATUSES
unfoldable pub is_frozen : ValidationStatus → Bool
is_frozen s = same_status s approved || same_status s rejected || same_status s tombstoned

-- `ThoughtRecord.from_markdown(path.read_text())` of the file of an id
unfoldable pub read_thought :
    Environment → Trail → String → Dict String → Call (String × ThoughtRecord)
unfolding located text_at
read_thought env t id files =
    Result.◌>>=◌ (located (find_thought_path (is_below t env.is_thought) id files)) (λ path.
      Result.◌>>=◌ (text_at files path) (λ text. Result.◌>>=◌ (env.parse text) (λ r. ok (path, r))))

-- the bounds of `ThoughtFrontmatter.confidence`
unfoldable pub is_confidence : Float → Bool
is_confidence c = float_le zero_float c && float_le c one_float

-- `record.content = new_content`
abbrev pub with_content : ThoughtRecord → String → ThoughtRecord
with_content r new_content = record r { content = new_content }

module _ (env : Environment) (text_has_secret : String → Bool) (t : Trail) where
  -- the guards of the update of a record
  unfoldable pub plan_content : String → String × ThoughtRecord → Call (String × ThoughtRecord)
  unfolding is_frozen is_superseded
  plan_content new_content (path, r) =
      Result.◌>>◌ (raise_if (is_frozen r.frontmatter.validation_status) content_frozen) (
        Result.◌>>◌ (raise_if (is_superseded r) content_superseded) (
          Result.◌>>◌ (raise_if (env.has_secret (with_content r new_content)) obvious_secret)
            (ok (path, with_content r new_content))))

  unfoldable pub plan_update : String → String → Dict String → Call (String × ThoughtRecord)
  unfolding read_thought plan_content
  plan_update id new_content files =
      Result.◌>>◌ (raise_if (text_has_secret new_content) obvious_secret)
        (Result.◌>>=◌ (read_thought env t id files) (plan_content new_content))

  pub write_update : String → String × ThoughtRecord → Run ThoughtRecord
  write_update message (path, r) = do
    step (replace_file path (some (env.render r)))
    commit_files message ((path, some (env.render r)) ∷ [])
    pure r

  -- the message of the commit is an argument here and below
  unfoldable pub update_thought : String → String → String → Run ThoughtRecord
  unfolding plan_update write_update
  update_thought message id new_content = do
    p ← (λ w. lift (plan_update id new_content w.disk.files) w)
    write_update message p

  -- The successor of a thought: a draft of its own that names the thought, with the thought's
  -- metadata but for the reviews. `ulid` and `now` are read at the call. The frontmatter's check of
  -- the confidence is made by the caller.
  unfoldable pub successor_of : String → ℕ → String → Float → String → ThoughtRecord → ThoughtRecord
  unfolding default_frontmatter
  successor_of ulid now agent_id confidence new_content original =
      let fm = original.frontmatter in
      let meta = fm.metadata in
      record {
        frontmatter = record (default_frontmatter ulid now) {
          agent_id = agent_id;
          source_type = fm.source_type;
          confidence = confidence;
          parent_id = some fm.thought_id;
          supersedes_id = some fm.thought_id;
          supersedes_scope = some t.name;
          intent_ref = fm.intent_ref;
          metadata = record meta { extra = remove "approval" (remove "trust_gate" meta.extra) };
          relationships = fm.relationships;
        };
        content = new_content;
      }

  -- `dest` is the trail of the successor; the original's confidence is taken where none is given
  unfoldable pub plan_supersede :
      Trail
      → String
      → ℕ
      → String
      → Option Float
      → String
      → String
      → String
      → Dict String
      → Call (ThoughtRecord × Dict Image)
  unfolding read_thought successor_of is_confidence
  plan_supersede dest ulid now agent_id confidence id new_content reason files =
      Result.◌>>◌ (raise_if (text_has_secret new_content || text_has_secret reason) obvious_secret)
        (Result.◌>>=◌ (read_thought env t id files) (λ p.
          let c = or_else confidence p.1.frontmatter.confidence in
          let new = successor_of ulid now agent_id c new_content p.1 in
          Result.◌>>◌ (raise_if (not (is_confidence c)) invalid_confidence) (
            Result.◌>>◌ (raise_if (env.has_secret new) obvious_secret)
              (ok (new, (thought_path dest ulid "drafts", some (env.render new)) ∷ [])))))

  -- `from_markdown(text) == r`
  unfoldable pub is_record : String → ThoughtRecord → Bool
  is_record text r = elim (env.parse text) [ err _ ↦ false | ok r' ↦ env.same_record r' r ]

  module _ (inside : String → Bool) where
    unfoldable pub supersede :
        String
        → Trail
        → String
        → ℕ
        → String
        → Option Float
        → String
        → String
        → String
        → Run ThoughtRecord
    unfolding plan_supersede is_record
    supersede message dest ulid now agent_id confidence id new_content reason = do
      p ← (λ w.
          lift (plan_supersede dest ulid now agent_id confidence id new_content reason w.disk.files)
            w)
      persist_governance inside is_record p.1 message [] (pure tt) (pure tt)
      pure p.0

    module _ (has_hooks : Bool) (hooks : List HookSpec) where
      -- nothing is persisted of a thought that was approved already
      carry_out : String → Plan → Run ThoughtRecord
      unfolding is_record
      carry_out message p = elim p.writes [
        | [] ↦ pure p.record_
        | e ∷ writes ↦
            persist_governance inside is_record (e ∷ writes) message p.expected (pure tt) (pure tt)
            >> pure p.record_
      ]

      unfoldable pub propose_truth :
          String → Option TrustResult → Option ThoughtRecord → String → Run ThoughtRecord
      unfolding carry_out
      propose_truth message trust_result reviewed_record id = do
        recover inside
        p ← (λ w.
            lift (plan_promotion env has_hooks hooks t trust_result reviewed_record w.disk.files id)
              w)
        carry_out message p
