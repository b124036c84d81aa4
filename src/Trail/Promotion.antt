-- ===== src/Trail/Promotion.antt =====
-- `propose_truth` of src/fava_trails/trail.py. What it decides is a plan, which
-- `persist_governance` carries out.
pub mod Inversion
pub mod Lifecycle
pub mod Replacement
use fava_trails.Base.{
  ℕ, String, Bool, true, false, not, ◌&&◌, ◌||◌, Option, none, some, List, [], ◌∷◌, ◌==◌,
  if◌then◌else◌, or_else, is_some, keep,
}
use fava_trails.Base.Dict.{Dict, lookup, insert}
use fava_trails.Base.Result.{Result, ok, err, ◌>>=◌, ◌>>◌, raise_if}
use fava_trails.Base.Text.{concat, is_empty, strip_prefix}
use fava_trails.Models.Enums.{ValidationStatus, proposed, approved, tombstoned, same_status}
use fava_trails.Models.Thought.{ThoughtRecord, thought_id_of, namespace_route}
use fava_trails.Config.Scope.{sanitize_scope_path}
use fava_trails.Governance.Visibility.{successor_key, is_truthy}
use fava_trails.Governance.Index.{parse_records, record_index, relative}
use fava_trails.Hooks.Actions.{HookEvent, proposing, thought_of}
use fava_trails.Hooks.Pipeline.{HookSpec, PipelineResult, Outcome, returned, run_pipeline}
use fava_trails.Hooks.Pipeline
use fava_trails.Transactions.Disk.{
  Image, TransactionError, not_found, ambiguous_id, malformed_thought, obvious_secret,
  invalid_namespace, invalid_scope, tombstoned_thought, changed_in_review, hook_rejected,
  hook_failed, predecessor_missing, predecessor_replaced,
}
use fava_trails.Trail.Paths.{
  Trail, Found, missing, found, ambiguous, is_valid_namespace, thought_path, is_below,
  find_thought_path,
}
use fava_trails.Trail.Review.{TrustResult, apply_review}

-- What the trail calls and does not implement: the YAML codec of the thoughts, the preflight for
-- secrets, the equality of records, the glob, and the rendering of a date. A hook may also change
-- the thought in place that its event holds: `in_place` is what such changes make of the thought
-- that the pipeline ends with. It is any function, so it may depend on all that the hooks saw.
pub record Environment : Type 0 where
  pub parse : String → Result TransactionError ThoughtRecord
  pub render : ThoughtRecord → String
  pub has_secret : ThoughtRecord → Bool
  pub same_record : ThoughtRecord → ThoughtRecord → Bool
  pub is_thought : String → Bool
  pub trails_dir : String
  pub isoformat : ℕ → String
  pub in_place : ThoughtRecord → ThoughtRecord

-- The record that is returned, and the files to write with what they must still hold. A plan
-- without writes has nothing to persist.
pub record Plan : Type 0 where
  pub record_ : ThoughtRecord
  pub target_namespace : String
  pub writes : Dict Image
  pub expected : Dict ThoughtRecord

abbrev pub Call : Type 0 → Type 0
Call A = Result TransactionError A

unfoldable pub located : Found → Call String
located missing = err not_found
located (found path) = ok path
located (ambiguous _) = err ambiguous_id

unfoldable pub text_at : Dict String → String → Call String
text_at files path = elim (lookup path files) [ none ↦ err not_found | some text ↦ ok text ]

-- the namespace that a redirect asks for, which is validated
unfoldable pub redirected : Option String → String → Call String
redirected none ns = ok ns
redirected (some ns') ns =
    if is_empty ns'
    then ok ns
    else do raise_if (not (is_valid_namespace ns')) invalid_namespace; ok ns'

-- the thought of the event that the pipeline ended with, if any
unfoldable pub mutated : PipelineResult → ThoughtRecord → ThoughtRecord
mutated r record_ = elim r.event [
  | none ↦ record_
  | some e ↦ or_else (thought_of e.payload) record_
]

unfoldable pub after_pipeline :
    Environment → Outcome → ThoughtRecord → String → Call (ThoughtRecord × String)
unfolding redirected mutated
after_pipeline env (Pipeline.error _) record_ ns = err hook_failed
after_pipeline env (returned r) record_ ns = do
  raise_if r.rejected hook_rejected
  ns' ← redirected r.redirect_namespace ns
  ok (env.in_place (mutated r record_), ns')

-- the before_propose hooks, where any hook is loaded
before_propose :
    Environment
    → Bool
    → List HookSpec
    → Trail
    → ThoughtRecord
    → String
    → Call (ThoughtRecord × String)
unfolding after_pipeline
before_propose env false hooks t record_ ns = ok (record_, ns)
before_propose env true hooks t record_ ns =
    after_pipeline env
      (run_pipeline hooks (record {
        trail_name = t.name;
        lifecycle_point = "before_propose";
        payload = proposing (some record_) ns;
      }))
      record_ ns

-- the records below the trails directory, with their paths
pub governed_records : Environment → Dict String → Call (Dict ThoughtRecord)
governed_records env files = parse_records env.parse false (keep (λ e. env.is_thought e.0) files)

-- the predecessor's candidates: records of the id below the scope
pub candidates : Environment → String → String → Dict ThoughtRecord → Dict ThoughtRecord
candidates env id scope records =
    keep
      (λ e.
        thought_id_of e.1 == id
        && is_some (strip_prefix (concat (env.trails_dir ∷ "/" ∷ scope ∷ "/thoughts/" ∷ [])) e.0))
      records

-- the only candidate
pub single : Dict ThoughtRecord → Call (String × ThoughtRecord)
single (e ∷ []) = ok e
single _ = err predecessor_missing

-- `original` with its link to the successor
unfoldable pub superseded_by : ThoughtRecord → String → String → ThoughtRecord
superseded_by original id scope = record original {
  frontmatter = record original.frontmatter {
    superseded_by = some id;
    superseded_scope = some scope;
  };
}

pub is_approved : Option ThoughtRecord → Bool
is_approved none = false
is_approved (some r) = same_status r.frontmatter.validation_status approved

-- `reviewed_record is not None and reviewed_record != record`
abbrev changed : Environment → Option ThoughtRecord → ThoughtRecord → Bool
changed env none r = false
changed env (some seen) r = not (env.same_record seen r)

-- `s or default`
abbrev pub nonempty_or : Option String → String → String
nonempty_or none d = d
nonempty_or (some s) d = if is_empty s then d else s

pub scope_of : String → Call String
unfolding sanitize_scope_path
scope_of name = elim (sanitize_scope_path name) [ ok s ↦ ok s | err _ ↦ err invalid_scope ]

-- the predecessor of an approved replacement, which no approved record has replaced yet
pub predecessor :
    Environment → Trail → Dict String → ThoughtRecord → String → Call (String × ThoughtRecord)
unfolding scope_of governed_records candidates single relative is_approved
predecessor env t files record_ id = do
  scope ← scope_of (nonempty_or record_.frontmatter.supersedes_scope t.name)
  records ← governed_records env files
  (path, original) ← single (candidates env id scope records)
  let fm = original.frontmatter
  let by_id = record_index (relative env.trails_dir records)
  raise_if (is_approved (lookup (successor_key fm.superseded_scope fm.superseded_by) by_id))
      predecessor_replaced
  ok (path, original)

-- the files to write: the source goes, the target comes, and with an approved replacement the
-- predecessor gets its link
unfoldable pub publication :
    Environment → Trail → Dict String → String → ThoughtRecord → ThoughtRecord → String → Call Plan
unfolding predecessor
publication env t files source before record_ ns =
    let status = record_.frontmatter.validation_status in
    let moves = same_status status approved || same_status status proposed in
    let target = if moves then thought_path t (thought_id_of before) ns else source in
    let writes = insert target (some (env.render record_)) ((source, none) ∷ []) in
    let expected = (source, before) ∷ [] in
    let plan : Plan = record {
      record_ = record_;
      target_namespace = ns;
      writes = writes;
      expected = expected;
    } in
    let linked = (do
      (path, original) ←
          predecessor env t files record_ (or_else record_.frontmatter.supersedes_id "")
      let link = superseded_by original (thought_id_of record_) t.name
      ok (record plan {
        writes = insert path (some (env.render link)) writes;
        expected = insert path original expected;
      })) in
    if same_status status approved && is_truthy record_.frontmatter.supersedes_id
    then linked
    else ok plan

-- the record after the hooks and the review, checked for secrets on the way
pub reviewed :
    Environment
    → Bool
    → List HookSpec
    → Trail
    → Option TrustResult
    → ThoughtRecord
    → Call (ThoughtRecord × String)
unfolding before_propose
reviewed env has_hooks hooks t trust_result before = do
  (record_, ns) ←
      before_propose env has_hooks hooks t before (namespace_route before.frontmatter.source_type)
  raise_if (has_hooks && env.has_secret record_) obvious_secret
  raise_if (env.has_secret (apply_review env.isoformat trust_result record_)) obvious_secret
  ok (apply_review env.isoformat trust_result record_, ns)

pub unchanged : ThoughtRecord → Plan
unchanged before = record { record_ = before; target_namespace = ""; writes = []; expected = [] }

module _ (env : Environment) (has_hooks : Bool) (hooks : List HookSpec) (t : Trail)
    (trust_result : Option TrustResult) (reviewed_record : Option ThoughtRecord)
    (files : Dict String) where
  plan_review : String → ThoughtRecord → Call Plan
  unfolding reviewed publication
  plan_review source before = do
    raise_if (same_status before.frontmatter.validation_status tombstoned) tombstoned_thought
    result ← reviewed env has_hooks hooks t trust_result before
    publication env t files source before result.0 result.1

  -- a thought that is approved already is returned as it is
  plan_record : String → ThoughtRecord → Call Plan
  unfolding plan_review unchanged
  plan_record source before = do
    raise_if (env.has_secret before) obvious_secret
    raise_if (changed env reviewed_record before) changed_in_review
    if same_status before.frontmatter.validation_status approved
        then ok (unchanged before)
        else plan_review source before

  plan_file : String → Call Plan
  unfolding text_at plan_record
  plan_file source = do
    text ← text_at files source
    before ← env.parse text
    plan_record source before

  -- `propose_truth` up to `persist_governance`: none of the files is written yet
  unfoldable pub plan_promotion : String → Call Plan
  unfolding located plan_file
  plan_promotion id = do
    source ← located (find_thought_path (is_below t env.is_thought) id files)
    plan_file source
