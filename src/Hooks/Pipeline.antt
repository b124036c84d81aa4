-- ===== src/Hooks/Pipeline.antt =====
-- `run_pipeline` and `dispatch_observer` of src/fava_trails/hook_pipeline.py.
mod Selection
pub mod Invariant
pub mod Soundness
use fava_trails.Base.{
  ℕ, ◌+◌, String, Bool, true, false, not, ◌&&◌, Option, none, some, List, [], ◌∷◌, map, ◌==◌, ltb,
  if◌then◌else◌, contains,
}
use fava_trails.Base.Number.{ℤ, Float}
use fava_trails.Base.Dict.{Dict}
use fava_trails.Base.Value.{Value}
use fava_trails.Models.Thought.{ThoughtRecord, thought_id_of}
use fava_trails.Hooks.Actions.{
  Action, proceed, reject, warn, advise, mutate, redirect, annotate, recall_select, other,
  HookEvent, thought_of, replace_thought, results_of, apply_patch, validate_action,
}
use fava_trails.Hooks.Feedback.{HookFeedback, no_feedback, merge, is_empty}

abbrev pub max_mutations : ℕ
max_mutations = 5

-- what awaiting a hook under its timeout gives: it times out, raises, or returns
pub data HookReturn : Type 0 where
  timed_out raised : HookReturn
  nothing : HookReturn
  one : Action → HookReturn
  many : List Action → HookReturn

-- A loaded hook. Its function is code of the operator; `timed_out` is where it takes longer than its
-- timeout.
pub record HookSpec : Type 0 where
  pub name : String
  pub fn : HookEvent → HookReturn
  pub fail_mode : String
  pub timeout : Float
  pub order : ℤ
  pub config : Dict Value
  pub source : String

pub data HookError : Type 0 where
  timeout_error execution_error : HookError

pub record PipelineResult : Type 0 where
  pub feedback : HookFeedback
  pub event : Option HookEvent
  pub rejected : Bool
  pub redirect_namespace : Option String
  pub recall_selection : Option (List String)

abbrev pub empty_result : Option HookEvent → PipelineResult
empty_result event = record {
  feedback = no_feedback;
  event = event;
  rejected = false;
  redirect_namespace = none;
  recall_selection = none;
}

-- the local variables of the loops
pub record State : Type 0 where
  pub event : HookEvent
  pub result : PipelineResult
  pub mutation_count : ℕ

-- The loops go on, return early, or raise.
pub data Progress : Type 0 where
  going : State → Progress
  halted : PipelineResult → Progress
  failed : HookError → Progress

abbrev pub merged : PipelineResult → Action → PipelineResult
merged r a = record r { feedback = merge r.feedback a }

-- the loop over `action.ordered_ulids`
unfoldable pub select_ids : List String → List String → List String → List String
select_ids valid seen [] = []
select_ids valid seen (ulid ∷ ulids) =
    let fresh = contains ulid valid && not (contains ulid seen) in
    let rest = select_ids valid (if fresh then ulid ∷ seen else seen) ulids in
    if fresh then ulid ∷ rest else rest

-- what the body of `isinstance(action, RecallSelect)` stores
unfoldable pub selection :
    List ThoughtRecord → List String → Option (List String) → Option (List String)
unfolding select_ids
selection [] ulids old = old
selection (r ∷ rs) ulids old = some (select_ids (map thought_id_of (r ∷ rs)) [] ulids)

patched : Option ThoughtRecord → (ThoughtRecord → ThoughtRecord) → State → State
patched none patch st = st
patched (some t) patch st =
    let event' = record st.event { payload = replace_thought (patch t) st.event.payload } in
    record st { event = event'; result = record st.result { event = some event' } }

-- the `isinstance(action, Mutate)` branch
pub apply_mutation : HookSpec → Action → (ThoughtRecord → ThoughtRecord) → State → Progress
unfolding patched
apply_mutation hook action patch st =
    let counted = record st { mutation_count = st.mutation_count + 1 } in
    let next = patched (thought_of st.event.payload) patch counted in
    if ltb max_mutations (st.mutation_count + 1)
    then (if hook.fail_mode == "closed" then failed execution_error else going counted)
    else going (record next { result = merged next.result action })

-- the branches on the class of a valid action
apply_valid : HookSpec → Action → State → Progress
unfolding apply_mutation selection
apply_valid hook (reject reason code) st =
    halted (record (merged st.result (reject reason code)) { rejected = true })
apply_valid hook (redirect namespace) st =
    halted (record (merged st.result (redirect namespace)) { redirect_namespace = some namespace })
apply_valid hook (mutate p) st = apply_mutation hook (mutate p) (apply_patch p) st
apply_valid hook (recall_select ulids reason) st =
    let chosen = selection (results_of st.event.payload) ulids st.result.recall_selection in
    going (record st {
      result = merged (record st.result { recall_selection = chosen }) (recall_select ulids reason);
    })
apply_valid hook (warn m c) st = going (record st { result = merged st.result (warn m c) })
apply_valid hook (advise m c p t) st =
    going (record st { result = merged st.result (advise m c p t) })
apply_valid hook (annotate v) st = going (record st { result = merged st.result (annotate v) })
apply_valid hook proceed st = going st
apply_valid hook other st = going st

unfoldable pub apply_action : HookSpec → Action → State → Progress
unfolding apply_valid
apply_action hook action st =
    if validate_action st.event.lifecycle_point action then apply_valid hook action st else going st

infixl 5 ◌>>=◌
abbrev pub ◌>>=◌ : Progress → (State → Progress) → Progress
going st >>= k = k st
halted r >>= k = halted r
failed e >>= k = failed e

unfoldable pub run_actions : HookSpec → List Action → State → Progress
unfolding apply_action
run_actions hook [] st = going st
run_actions hook (a ∷ actions) st = apply_action hook a st >>= run_actions hook actions

-- `_normalize_actions`
unfoldable pub normalize_actions : HookReturn → List Action
normalize_actions (one a) = a ∷ []
normalize_actions (many actions) = actions
normalize_actions _ = proceed ∷ []

-- one hook: a failure stops the pipeline only where the hook fails closed
after_hook : HookSpec → HookReturn → State → Progress
unfolding run_actions normalize_actions
after_hook hook timed_out st = if hook.fail_mode == "closed" then failed timeout_error else going st
after_hook hook raised st = if hook.fail_mode == "closed" then failed execution_error else going st
after_hook hook raw st = run_actions hook (normalize_actions raw) st

unfoldable pub run_hook : HookSpec → State → Progress
unfolding after_hook
run_hook hook st = after_hook hook (hook.fn st.event) st

unfoldable pub run_hooks : List HookSpec → State → Progress
unfolding run_hook
run_hooks [] st = going st
run_hooks (hook ∷ hooks) st = run_hook hook st >>= run_hooks hooks

-- the call returns a result or raises
pub data Outcome : Type 0 where
  returned : PipelineResult → Outcome
  error : HookError → Outcome

outcome : Progress → Outcome
outcome (going st) = returned st.result
outcome (halted r) = returned r
outcome (failed e) = error e

-- `run_pipeline` on `registry.get_hooks(event.lifecycle_point)`
unfoldable pub run_pipeline : List HookSpec → HookEvent → Outcome
unfolding outcome run_hooks
run_pipeline hooks event = outcome (
    run_hooks hooks
      (record { event = event; result = empty_result (some event); mutation_count = 0 }))

-- `_run_observer_hook`: every failure is swallowed
unfoldable pub run_observer_hook : HookSpec → HookEvent → List Action
unfolding normalize_actions
run_observer_hook hook event = elim (hook.fn event) [
  | timed_out ↦ []
  | raised ↦ []
  | nothing ↦ []
  | one a ↦ a ∷ []
  | many actions ↦ actions
]

merge_actions : List Action → HookFeedback → HookFeedback
merge_actions [] f = f
merge_actions (a ∷ actions) f = merge_actions actions (merge f a)

observe_all : List HookSpec → HookEvent → HookFeedback → HookFeedback
unfolding merge_actions run_observer_hook
observe_all [] event f = f
observe_all (hook ∷ hooks) event f =
    observe_all hooks event (merge_actions (run_observer_hook hook event) f)

-- `dispatch_observer`; with no hook the feedback is empty too
unfoldable pub dispatch_observer : List HookSpec → HookEvent → Option PipelineResult
unfolding observe_all
dispatch_observer hooks event =
    let f = observe_all hooks event no_feedback in
    if is_empty f then none else some (record (empty_result none) { feedback = f })
