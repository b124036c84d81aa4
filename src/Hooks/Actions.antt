-- ===== src/Hooks/Actions.antt =====
-- Actions, patches, events and the validity matrix of src/fava_trails/hook_types.py.
use fava_trails.Base.{
  String, Bool, true, false, Option, none, some, List, [], ◌==◌, if◌then◌else◌, or_else,
}
use fava_trails.Base.Number.{Float}
use fava_trails.Base.Dict.{Dict, update}
use fava_trails.Base.Value.{Value}
use fava_trails.Models.Thought.{ThoughtRecord}

-- `ThoughtPatch`: only the fields that are set are applied.
pub record ThoughtPatch : Type 0 where
  pub content : Option String
  pub metadata : Option (Dict Value)
  pub tags : Option (List String)
  pub confidence : Option Float

-- `ThoughtPatch.apply`, on a copy
unfoldable pub apply_patch : ThoughtPatch → ThoughtRecord → ThoughtRecord
apply_patch p thought =
    let fm = thought.frontmatter in
    let meta = fm.metadata in
    record {
      content = or_else p.content thought.content;
      frontmatter = record fm {
        metadata = record meta {
          extra = elim p.metadata [ none ↦ meta.extra | some m ↦ update meta.extra m ];
          tags = or_else p.tags meta.tags;
        };
        confidence = or_else p.confidence fm.confidence;
      };
    }

-- `other` is a value that is none of the action classes.
pub data Action : Type 0 where
  proceed : Action
  reject : String → String → Action
  warn : String → String → Action
  advise : String → String → Option (Dict Value) → String → Action
  mutate : ThoughtPatch → Action
  redirect : String → Action
  annotate : Dict Value → Action
  recall_select : List String → String → Action
  other : Action

-- The fields of the event classes that the pipeline and the hooks read. An event has a `thought`
-- or `results`, as its class has.
pub data Payload : Type 0 where
  saving saved proposing : Option ThoughtRecord → String → Payload
  proposed : Option ThoughtRecord → Payload
  superseded : Option ThoughtRecord → Option ThoughtRecord → Payload
  recalled : List ThoughtRecord → String → Option String → Payload

pub record HookEvent : Type 0 where
  pub trail_name : String
  pub lifecycle_point : String
  pub payload : Payload

-- `hasattr(event, "thought") and event.thought is not None`
unfoldable pub thought_of : Payload → Option ThoughtRecord
thought_of (saving t _) = t
thought_of (saved t _) = t
thought_of (proposing t _) = t
thought_of (proposed t) = t
thought_of (superseded _ _) = none
thought_of (recalled _ _ _) = none

-- `replace(event, thought=patched)`
unfoldable pub replace_thought : ThoughtRecord → Payload → Payload
replace_thought t (saving _ ns) = saving (some t) ns
replace_thought t (saved _ ns) = saved (some t) ns
replace_thought t (proposing _ ns) = proposing (some t) ns
replace_thought t (proposed _) = proposed (some t)
replace_thought t p = p

-- the results of a recall event, and none elsewhere
unfoldable pub results_of : Payload → List ThoughtRecord
results_of (recalled rs _ _) = rs
results_of _ = []

-- the rows of ACTION_VALIDITY
gating : Action → Bool
gating (recall_select _ _) = false
gating other = false
gating _ = true

observing : Action → Bool
observing (warn _ _) = true
observing (advise _ _ _ _) = true
observing (annotate _) = true
observing _ = false

selecting : Action → Bool
selecting proceed = true
selecting (recall_select _ _) = true
selecting (warn _ _) = true
selecting (advise _ _ _ _) = true
selecting (annotate _) = true
selecting _ = false

-- `validate_action`
unfoldable pub validate_action : String → Action → Bool
unfolding gating observing selecting
validate_action point action =
    if point == "before_save"
    then gating action
    else if point == "after_save"
    then observing action
    else if point == "before_propose"
    then gating action
    else if point == "after_propose"
    then observing action
    else if point == "after_supersede"
    then observing action
    else if point == "on_recall"
    then selecting action
    else if point == "on_recall_mix"
    then selecting action
    else false
