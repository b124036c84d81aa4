-- ===== src/Hooks/Pipeline/Soundness.antt =====
-- What a run of the pipeline makes of an event (src/fava_trails/hook_pipeline.py).
use fava_trails.Base.{◌≡◌, refl, true, some, List, [], ◌∷◌, arith, ◌==◌, Bool-cases, inl, inr}
use mathlib.Core.Path.{subst}
use fava_trails.Hooks.Actions.{
  Action, proceed, reject, warn, advise, mutate, redirect, annotate, recall_select, other,
  HookEvent, results_of, validate_action,
}
use fava_trails.Hooks.Feedback.{merge, merge-IsBounded}
use fava_trails.Hooks.Pipeline.Invariant.{
  Inv, Keeps, IsSound, unpatched, merged-Inv, gate-of-reject, gate-of-redirect,
  apply_mutation-Keeps, selection-IsSelection,
}
use fava_trails.Hooks.Pipeline.{
  HookSpec, HookReturn, HookError, PipelineResult, State, Progress, going, halted, failed,
  apply_action, apply_valid, run_actions, run_hook, after_hook, run_hooks, run_pipeline,
  normalize_actions, returned, error, outcome, timed_out, raised, nothing, one, many, empty_result,
  ◌>>=◌,
}

module _ (e : HookEvent) where
  apply_valid-Keeps :
      (hook : HookSpec) (a : Action) (st : State)
      → Inv e st
      → validate_action st.event.lifecycle_point a ≡ true
      → Keeps e (apply_valid hook a st)
  unfolding apply_valid merge
  apply_valid-Keeps hook proceed st h v = h
  apply_valid-Keeps hook other st h v = h
  apply_valid-Keeps hook (warn m c) st h v = merged-Inv e st (warn m c) h refl refl
  apply_valid-Keeps hook (advise m c p t) st h v = merged-Inv e st (advise m c p t) h refl refl
  apply_valid-Keeps hook (annotate x) st h v = merged-Inv e st (annotate x) h refl refl
  apply_valid-Keeps hook (reject reason code) st h v = record {
    bounded = merge-IsBounded st.result.feedback (reject reason code) h.sound.bounded;
    selected = h.sound.selected;
    told = refl;
    redirected = h.sound.redirected;
    gated = λ _. rw (← h.point) (gate-of-reject e reason code st.event.lifecycle_point v);
    final = h.sound.final;
    event = h.sound.event;
    patches = h.sound.patches;
    few = h.sound.few;
    patched = h.sound.patched;
  }
  apply_valid-Keeps hook (redirect ns) st h v = record {
    bounded = merge-IsBounded st.result.feedback (redirect ns) h.sound.bounded;
    selected = h.sound.selected;
    told = h.sound.told;
    redirected = refl;
    gated = λ _. rw (← h.point) (gate-of-redirect e ns st.event.lifecycle_point v);
    final = h.sound.final;
    event = h.sound.event;
    patches = h.sound.patches;
    few = h.sound.few;
    patched = h.sound.patched;
  }
  apply_valid-Keeps hook (mutate p) st h v = apply_mutation-Keeps e hook p st h
  apply_valid-Keeps hook (recall_select ulids reason) st h v = record {
    sound = record {
      bounded = merge-IsBounded st.result.feedback (recall_select ulids reason) h.sound.bounded;
      selected =
          selection-IsSelection e (results_of st.event.payload) ulids st.result.recall_selection
            h.results h.sound.selected;
      told = h.sound.told;
      redirected = h.sound.redirected;
      gated = h.sound.gated;
      final = h.sound.final;
      event = h.sound.event;
      patches = h.sound.patches;
      few = h.sound.few;
      patched = h.sound.patched;
    };
    current = h.current;
    point = h.point;
    results = h.results;
    counted = h.counted;
    open_ = h.open_;
  }

  apply_action-Keeps :
      (hook : HookSpec) (a : Action) (st : State) → Inv e st → Keeps e (apply_action hook a st)
  unfolding apply_action
  apply_action-Keeps hook a st h = elim (Bool-cases (validate_action st.event.lifecycle_point a)) [
    | inl valid ↦ rw valid (apply_valid-Keeps hook a st h valid)
    | inr invalid ↦ rw invalid h
  ]

  Keeps-bind :
      (m : Progress) (k : State → Progress)
      → Keeps e m
      → ((st : State) → Inv e st → Keeps e (k st))
      → Keeps e (m >>= k)
  Keeps-bind (going st) k h f = f st h
  Keeps-bind (halted r) k h f = h
  Keeps-bind (failed x) k h f = tt

  run_actions-Keeps :
      (hook : HookSpec) (actions : List Action) (st : State)
      → Inv e st
      → Keeps e (run_actions hook actions st)
  unfolding run_actions
  run_actions-Keeps hook [] st h = h
  run_actions-Keeps hook (a ∷ actions) st h =
      Keeps-bind (apply_action hook a st) (run_actions hook actions)
        (apply_action-Keeps hook a st h) (λ st' h'. run_actions-Keeps hook actions st' h')

  after_hook-Keeps :
      (hook : HookSpec) (raw : HookReturn) (st : State)
      → Inv e st
      → Keeps e (after_hook hook raw st)
  unfolding after_hook
  after_hook-Keeps hook timed_out st h = elim (Bool-cases (hook.fail_mode == "closed")) [
    | inl closed ↦ rw closed tt
    | inr lenient ↦ rw lenient h
  ]
  after_hook-Keeps hook raised st h = elim (Bool-cases (hook.fail_mode == "closed")) [
    | inl closed ↦ rw closed tt
    | inr lenient ↦ rw lenient h
  ]
  after_hook-Keeps hook nothing st h = run_actions-Keeps hook (normalize_actions nothing) st h
  after_hook-Keeps hook (one a) st h = run_actions-Keeps hook (normalize_actions (one a)) st h
  after_hook-Keeps hook (many actions) st h =
      run_actions-Keeps hook (normalize_actions (many actions)) st h

  run_hooks-Keeps : (hooks : List HookSpec) (st : State) → Inv e st → Keeps e (run_hooks hooks st)
  unfolding run_hooks
  run_hooks-Keeps [] st h = h
  run_hooks-Keeps (hook ∷ hooks) st h =
      Keeps-bind (run_hook hook st) (run_hooks hooks)
        (unfold run_hook in after_hook-Keeps hook (hook.fn st.event) st h)
        (λ st' h'. run_hooks-Keeps hooks st' h')

  start : State
  start = record { event = e; result = empty_result (some e); mutation_count = 0 }

  start-Inv : Inv e start
  unfolding start
  start-Inv = record {
    sound = record {
      bounded = record {
        warnings = omega arith;
        advice = omega arith;
        warning_bytes = tt;
        advice_bytes = tt;
      };
      selected = tt;
      told = refl;
      redirected = refl;
      gated = λ x. cc;
      final = e;
      event = refl;
      patches = 0;
      few = omega arith;
      patched = unpatched;
    };
    current = refl;
    point = refl;
    results = refl;
    counted = omega arith;
    open_ = (refl, refl);
  }

returned_inj : (a b : PipelineResult) → returned a ≡ returned b → a ≡ b
returned_inj a b h = cc

not-returned : (x : HookError) (r : PipelineResult) → error x ≡ returned r → ⊥
not-returned x r h = cc

-- Whatever the hooks return, a result that the pipeline returns has: bounded feedback; a recall
-- selection of distinct ids of the event's own results; a feedback that says whether it was
-- rejected or redirected, which it is at a gate alone; and the event's thought under at most five
-- patches.
pub run_pipeline-IsSound :
    (hooks : List HookSpec) (e : HookEvent) (r : PipelineResult)
    → run_pipeline hooks e ≡ returned r
    → IsSound e r
unfolding run_pipeline start
run_pipeline-IsSound hooks e r h =
    go (run_hooks hooks (start e)) (run_hooks-Keeps e hooks (start e) (start-Inv e)) h
  where
    go : (m : Progress) → Keeps e m → outcome m ≡ returned r → IsSound e r
    go (going st) k h = unfold outcome in subst (IsSound e) (returned_inj st.result r h) k.sound
    go (halted x) k h = unfold outcome in subst (IsSound e) (returned_inj x r h) k
    go (failed x) k h = unfold outcome in elim (not-returned x r h) [ ]
