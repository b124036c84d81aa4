-- ===== src/Governance/Visibility.antt =====
-- The principal, the view that a caller selects, and the records that it shows
-- (src/fava_trails/governance.py).
use fava_trails.Base.{
  String, Bool, true, false, not, ◌&&◌, ◌||◌, Option, none, some, List, [], ◌∷◌, ◌==◌,
  if◌then◌else◌, contains, all_of, is_some, or_else,
}
use fava_trails.Base.Dict.{Dict, lookup}
use fava_trails.Base.Result.{Result, ok, ◌>>◌, raise_if}
use fava_trails.Base.Text.{concat, is_empty, strip}
use fava_trails.Models.Enums.{approved, status_value, status_of, same_status}
use fava_trails.Models.Thought.{ThoughtRecord}

pub record Principal : Type 0 where
  pub agent_id : Option String
  pub operator : Bool

-- `x or None`, and the truth of `x or ...`, for texts
abbrev pub or_none : String → Option String
or_none s = if is_empty s then none else some s

abbrev pub is_truthy : Option String → Bool
is_truthy none = false
is_truthy (some s) = not (is_empty s)

-- the process environment is the argument
unfoldable pub runtime_principal : (String → Option String) → Principal
unfolding strip
runtime_principal environ = record {
  agent_id = or_none (strip (or_else (environ "FAVA_TRAILS_AGENT_ID") ""));
  operator = or_else (environ "FAVA_TRAILS_OPERATOR") "" == "1";
}

pub record Visibility : Type 0 where
  pub mode : String
  pub principal : Principal
  pub statuses : List String
  pub include_superseded : Bool

-- the exceptions of `__post_init__`, in the order of its tests
pub data VisibilityError : Type 0 where
  unknown_mode authoring_needs_identity history_needs_operator : VisibilityError
  superseded_needs_history statuses_need_mode unknown_status authoring_statuses : VisibilityError

abbrev pub authoring_defaults : List String
authoring_defaults = "draft" ∷ "proposed" ∷ []

pub is_nonempty : List String → Bool
is_nonempty [] = false
is_nonempty (_ ∷ _) = true

-- `Visibility(...)` with its `__post_init__`
unfoldable pub visibility :
    String → Principal → List String → Bool → Result VisibilityError Visibility
unfolding is_nonempty status_of
visibility mode principal statuses include_superseded = do
  raise_if (not (contains mode ("governed" ∷ "authoring" ∷ "history" ∷ []))) unknown_mode
  raise_if (mode == "authoring" && not (is_truthy principal.agent_id)) authoring_needs_identity
  raise_if (mode == "history" && not principal.operator) history_needs_operator
  raise_if (include_superseded && not (mode == "history")) superseded_needs_history
  raise_if (is_nonempty statuses && mode == "governed") statuses_need_mode
  raise_if (not (all_of (λ s. is_some (status_of s)) statuses)) unknown_status
  raise_if (mode == "authoring" && not (all_of (λ s. contains s authoring_defaults) statuses))
      authoring_statuses
  ok (record {
    mode = mode;
    principal = principal;
    statuses = statuses;
    include_superseded = include_superseded;
  })

-- the key under which a successor is looked up; a missing id looks up ""
unfoldable pub successor_key : Option String → Option String → String
successor_key scope id =
    if is_truthy scope
    then concat (or_else scope "" ∷ ":" ∷ or_else id "None" ∷ [])
    else or_else id ""

unfoldable pub is_effectively_superseded : ThoughtRecord → Dict ThoughtRecord → Bool
unfolding successor_key
is_effectively_superseded record_ records =
    let fm = record_.frontmatter in
    elim (lookup (successor_key fm.superseded_scope fm.superseded_by) records) [
      | none ↦ false
      | some successor ↦ same_status successor.frontmatter.validation_status approved
    ]

unfoldable pub is_agent : Option String → String → Bool
is_agent none a = false
is_agent (some b) a = a == b

-- `Visibility.allows`
unfoldable pub allows : Visibility → ThoughtRecord → Dict ThoughtRecord → Bool
unfolding is_nonempty is_agent status_value
allows v record_ records =
    let status = status_value record_.frontmatter.validation_status in
    let chosen = if is_nonempty v.statuses then v.statuses else authoring_defaults in
    if v.mode == "governed" && not (status == "approved")
    then false
    else if v.mode == "authoring" && not (contains status chosen)
    then false
    else if v.mode == "authoring"
        && not (is_agent v.principal.agent_id record_.frontmatter.agent_id)
    then false
    else if v.mode == "history" && is_nonempty v.statuses && not (contains status v.statuses)
    then false
    else v.include_superseded || not (is_effectively_superseded record_ records)
