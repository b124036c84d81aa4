-- ===== src/Review/Promoted.antt =====
-- The Decisions review of src/fava_trails/trust_gate.py, and the promotion that follows it in
-- src/fava_trails/trail.py.
use mathlib.Core.Path.{Path, refl}
use fava_trails.Base.{ℕ, String, ◌≡◌, ◌≢◌, inl, inr, sym, ◌∙◌, Bool, true, Option, some, List, []}
use fava_trails.Base.Number.{ℤ, Float, float_le}
use fava_trails.Base.Dict.{Dict}
use fava_trails.Base.Result.{ok}
use fava_trails.Base.Value.{Value}
use fava_trails.Models.Enums.{ValidationStatus, approved}
use fava_trails.Models.Thought.{ThoughtRecord}
use fava_trails.Hooks.Pipeline.{HookSpec}
use fava_trails.Trail.Paths.{Trail}
use fava_trails.Trail.Review.{TrustResult, Verdict, approve, reject, failure, with_status}
use fava_trails.Trail.Promotion.{Environment, Plan, plan_promotion}
use fava_trails.Trail.Promotion.Lifecycle.{plan_promotion-status}
use fava_trails.Decisions.Answer.{DecisionsError}
use fava_trails.Decisions.Client.{DecisionsClient, Request, Response}
use fava_trails.Review.Payload.{build_decisions_state}
use fava_trails.Review.Decide.{
  review_thought_decisions, IsDecided, review_thought_decisions-IsDecided,
}

approved-verdict : (t : TrustResult) → with_status (some t) ≡ approved → t.verdict ≡ approve
approved-verdict t h = by_verdict t.verdict h
  where
    by_verdict :
        (v : Verdict)
        → Path ValidationStatus
            (elim v [
              | approve ↦ approved
              | reject ↦ ValidationStatus.rejected
              | failure ↦ ValidationStatus.error
            ])
            approved
        → v ≡ approve
    by_verdict approve e = refl
    by_verdict reject e = cc
    by_verdict failure e = cc

approve≢failure : (v : Verdict) → v ≡ approve → v ≢ failure
approve≢failure v e f = cc

module _ (message : DecisionsError → String) (show : Float → String)
    (float_of_int : ℤ → Option Float) (post : Request → Response) (dump : Dict Value → String)
    (now : ℕ) where
  -- The review was answered, and the answer is at least the threshold.
  abbrev pub IsEndorsed :
      DecisionsClient → String → Value → Value → List Request × TrustResult → Type 0
  IsEndorsed client model state question q =
      (d : IsDecided message show float_of_int post dump now client model state question q)
      × (float_le d.limit d.answer.probability ≡ true)

  pub plan_promotion-IsEndorsed :
      (r : ThoughtRecord) (prompt model : String) (client : DecisionsClient)
      (question threshold : Value) (trail_name : Option String) (q : List Request × TrustResult)
      (env : Environment) (has_hooks : Bool) (hooks : List HookSpec) (t : Trail)
      (files : Dict String) (id : String) (p : Plan)
      → review_thought_decisions message show float_of_int post dump now r prompt model client
          question threshold trail_name
        ≡ ok q
      → plan_promotion env has_hooks hooks t (some q.1) (some r) files id ≡ ok p
      → p.writes ≢ []
      → p.record_.frontmatter.validation_status ≡ approved
      → IsEndorsed client model (build_decisions_state dump prompt r trail_name) question q
  plan_promotion-IsEndorsed r prompt model client question threshold trail_name q env has_hooks
        hooks t files id p h k w a =
      let verdict : q.1.verdict ≡ approve =
        elim (plan_promotion-status env has_hooks hooks t (some q.1) (some r) files id p k) [
          | inl c ↦ absurd (w c.0)
          | inr c ↦ approved-verdict q.1 (sym c ∙ a)
        ] in
      let d =
        review_thought_decisions-IsDecided message show float_of_int post dump now r prompt model
          client question threshold trail_name q h (approve≢failure q.1.verdict verdict) in
      (d, d.approved.0 verdict)
