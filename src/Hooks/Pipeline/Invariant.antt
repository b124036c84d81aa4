-- ===== src/Hooks/Pipeline/Invariant.antt =====
-- The invariant of the pipeline's loops, and the actions that keep it.
use fava_trails.Base.{
  ℕ, suc, ◌+◌, ◌≤◌, String, ◌≡◌, refl, ap, ◌∙◌, is_some, ◌||◌, Bool, true, false, not, Option, none,
  some, List, [], ◌∷◌, map, arith, ◌==◌, ltb, contains, IsDistinct, All, Bool-cases, inl, inr,
}
use mathlib.Core.Path.{subst}
use fava_trails.Models.Thought.{ThoughtRecord, thought_id_of}
use fava_trails.Hooks.Actions.{
  Action, reject, mutate, redirect, HookEvent, Payload, superseded, recalled, ThoughtPatch,
  thought_of, replace_thought, results_of, apply_patch, validate_action,
}
use fava_trails.Hooks.Feedback.{merge, IsBounded, merge-IsBounded}
use fava_trails.Hooks.Pipeline.Selection.{select_ids-valid, select_ids-IsDistinct}
use fava_trails.Hooks.Pipeline.{
  HookSpec, PipelineResult, State, Progress, going, halted, failed, selection, apply_mutation,
  patched, max_mutations, merged,
}

-- `t'` is `t` after `n` patches.
pub data Patched (t : Option ThoughtRecord) : ℕ → Option ThoughtRecord → Type 0 where
  unpatched : Patched t 0 t
  patch :
      {n : ℕ} {u : ThoughtRecord} (p : ThoughtPatch)
      → Patched t n (some u)
      → Patched t (suc n) (some (apply_patch p u))

abbrev pub IsSelection : List String → Option (List String) → Type 0
IsSelection ids none = Unit
IsSelection ids (some us) = IsDistinct us × All (λ u. contains u ids ≡ true) us

-- The points at which an operation can be stopped or redirected.
abbrev pub is_gate : String → Bool
is_gate point = point == "before_save" || point == "before_propose"

-- What holds of the result of a pipeline that was called with the event `e`.
pub record IsSound (e : HookEvent) (r : PipelineResult) : Type 0 where
  pub bounded : IsBounded r.feedback
  pub selected : IsSelection (map thought_id_of (results_of e.payload)) r.recall_selection
  pub told : r.feedback.accepted ≡ not r.rejected
  pub redirected : r.feedback.redirected_to ≡ r.redirect_namespace
  pub gated : (r.rejected || is_some r.redirect_namespace) ≡ true → is_gate e.lifecycle_point ≡ true
  pub final : HookEvent
  pub event : r.event ≡ some final
  pub patches : ℕ
  pub few : patches ≤ max_mutations
  pub patched : Patched (thought_of e.payload) patches (thought_of final.payload)

-- What holds while the loops run.
pub record Inv (e : HookEvent) (st : State) : Type 0 where
  pub sound : IsSound e st.result
  pub current : sound.final ≡ st.event
  pub point : st.event.lifecycle_point ≡ e.lifecycle_point
  pub results : results_of st.event.payload ≡ results_of e.payload
  pub counted : sound.patches ≤ st.mutation_count
  pub open_ : (st.result.rejected ≡ false) × (st.result.redirect_namespace ≡ none)

abbrev pub Keeps : HookEvent → Progress → Type 0
Keeps e (going st) = Inv e st
Keeps e (halted r) = IsSound e r
Keeps e (failed _) = Unit

thought_of-replace_thought :
    (t u : ThoughtRecord) (p : Payload)
    → thought_of p ≡ some u
    → thought_of (replace_thought t p) ≡ some t
unfolding thought_of replace_thought
thought_of-replace_thought t u (superseded _ _) h = cc
thought_of-replace_thought t u (recalled _ _ _) h = cc
thought_of-replace_thought t u _ h = refl

results_of-replace_thought :
    (t : ThoughtRecord) (p : Payload) → results_of (replace_thought t p) ≡ results_of p
unfolding results_of replace_thought
results_of-replace_thought t (recalled _ _ _) = refl
results_of-replace_thought t _ = refl

module _ (e : HookEvent) where
  -- an action that only speaks
  pub merged-Inv :
      (st : State) (a : Action)
      → Inv e st
      → (merge st.result.feedback a).accepted ≡ st.result.feedback.accepted
      → (merge st.result.feedback a).redirected_to ≡ st.result.feedback.redirected_to
      → Inv e (record st { result = merged st.result a })
  merged-Inv st a h same here = record {
    sound = record {
      bounded = merge-IsBounded st.result.feedback a h.sound.bounded;
      selected = h.sound.selected;
      told = same ∙ h.sound.told;
      redirected = here ∙ h.sound.redirected;
      gated = h.sound.gated;
      final = h.sound.final;
      event = h.sound.event;
      patches = h.sound.patches;
      few = h.sound.few;
      patched = h.sound.patched;
    };
    current = h.current;
    point = h.point;
    results = h.results;
    counted = h.counted;
    open_ = h.open_;
  }

  pub gate-of-reject :
      (reason code : String) (point : String)
      → validate_action point (reject reason code) ≡ true
      → is_gate point ≡ true
  unfolding validate_action
  gate-of-reject reason code point h = ground arith

  pub gate-of-redirect :
      (ns : String) (point : String)
      → validate_action point (redirect ns) ≡ true
      → is_gate point ≡ true
  unfolding validate_action
  gate-of-redirect ns point h = ground arith

  -- one more action counted, with nothing else changed
  counted-Inv :
      (st : State) → Inv e st → Inv e (record st { mutation_count = st.mutation_count + 1 })
  counted-Inv st h = record {
    sound = h.sound;
    current = h.current;
    point = h.point;
    results = h.results;
    counted = omega (arith, h.counted);
    open_ = h.open_;
  }

  -- the thought of the event is patched
  patched-Inv :
      (st : State) (p : ThoughtPatch) (t : ThoughtRecord)
      → Inv e st
      → thought_of st.event.payload ≡ some t
      → st.mutation_count + 1 ≤ max_mutations
      → Inv e
          (patched (some t) (apply_patch p) (record st { mutation_count = st.mutation_count + 1 }))
  unfolding patched
  patched-Inv st p t h here few =
      let event' : HookEvent = record st.event {
        payload = replace_thought (apply_patch p t) st.event.payload;
      } in
      record {
        sound = record {
          bounded = h.sound.bounded;
          selected = h.sound.selected;
          told = h.sound.told;
          redirected = h.sound.redirected;
          gated = h.sound.gated;
          final = event';
          event = refl;
          patches = suc h.sound.patches;
          few = omega (arith, h.counted);
          patched = rw (thought_of-replace_thought (apply_patch p t) t st.event.payload here) (
              patch p (
                subst (Patched (thought_of e.payload) h.sound.patches)
                  (ap (λ (x : HookEvent). thought_of x.payload) h.current ∙ here) h.sound.patched));
        };
        current = refl;
        point = h.point;
        results = results_of-replace_thought (apply_patch p t) st.event.payload ∙ h.results;
        counted = omega (arith, h.counted);
        open_ = h.open_;
      }

  next-Inv :
      (st : State) (p : ThoughtPatch) (o : Option ThoughtRecord)
      → Inv e st
      → thought_of st.event.payload ≡ o
      → st.mutation_count + 1 ≤ max_mutations
      → Inv e (patched o (apply_patch p) (record st { mutation_count = st.mutation_count + 1 }))
  next-Inv st p none h here few = unfold patched in counted-Inv st h
  next-Inv st p (some t) h here few = patched-Inv st p t h here few

  pub apply_mutation-Keeps :
      (hook : HookSpec) (p : ThoughtPatch) (st : State)
      → Inv e st
      → Keeps e (apply_mutation hook (mutate p) (apply_patch p) st)
  unfolding apply_mutation merge
  apply_mutation-Keeps hook p st h = elim (Bool-cases (ltb max_mutations (st.mutation_count + 1))) [
    | inl over ↦ elim (Bool-cases (hook.fail_mode == "closed")) [
      | inl closed ↦ rw (over, closed) tt
      | inr lenient ↦ rw (over, lenient) (counted-Inv st h)
    ]
    | inr fits ↦
        let next =
          patched (thought_of st.event.payload) (apply_patch p)
            (record st { mutation_count = st.mutation_count + 1 }) in
        rw fits (
          merged-Inv next (mutate p)
            (next-Inv st p (thought_of st.event.payload) h refl (ground (arith, fits))) refl refl)
  ]

  pub selection-IsSelection :
      (rs : List ThoughtRecord) (ulids : List String) (old : Option (List String))
      → rs ≡ results_of e.payload
      → IsSelection (map thought_id_of (results_of e.payload)) old
      → IsSelection (map thought_id_of (results_of e.payload)) (selection rs ulids old)
  unfolding selection
  selection-IsSelection [] ulids old same h = h
  selection-IsSelection (r ∷ rs) ulids old same h = rw (← same) (
    select_ids-IsDistinct (map thought_id_of (r ∷ rs)) [] ulids,
    select_ids-valid (map thought_id_of (r ∷ rs)) [] ulids,
  )
