-- ===== src/Governance/Privilege.antt =====
-- The views that callers get, and what they show (src/fava_trails/governance.py).
use fava_trails.Base.{
  String, ◌≡◌, refl, ◌≢◌, ◌⊎◌, Bool, true, false, not, ◌&&◌, ◌||◌, some, List, [], ◌∷◌, arith, ◌==◌,
  eq_iff, contains, all_of, is_some, or_else, if-eq-true,
}
use fava_trails.Base.Dict.{Dict}
use fava_trails.Base.Result.{ok, raise_if-eq-ok}
use fava_trails.Models.Enums.{ValidationStatus, approved, status_value, status_of}
use fava_trails.Models.Thought.{ThoughtRecord}
use fava_trails.Governance.Visibility.{
  Principal, Visibility, is_truthy, authoring_defaults, visibility, allows, is_nonempty, is_agent,
  is_effectively_superseded, unknown_mode, authoring_needs_identity, history_needs_operator,
  superseded_needs_history, statuses_need_mode, unknown_status, authoring_statuses,
}

module _ (mode : String) (p : Principal) (statuses : List String) (inc : Bool)
    (v : Visibility) where
  -- The tests that raised nothing, one by one, and the view that was built.
  abbrev Checks : Type 0
  Checks =
      (contains mode ("governed" ∷ "authoring" ∷ "history" ∷ []) ≡ true)
      × (mode == "authoring" && not (is_truthy p.agent_id) ≡ false)
      × (mode == "history" && not p.operator ≡ false)
      × (inc && not (mode == "history") ≡ false)
      × (mode == "authoring" && not (all_of (λ s. contains s authoring_defaults) statuses) ≡ false)
      × (v ≡ record { mode = mode; principal = p; statuses = statuses; include_superseded = inc })

  checks : visibility mode p statuses inc ≡ ok v → Checks
  unfolding visibility
  checks h =
      let h₁ =
        raise_if-eq-ok (not (contains mode ("governed" ∷ "authoring" ∷ "history" ∷ [])))
          unknown_mode _ h in
      let h₂ =
        raise_if-eq-ok (mode == "authoring" && not (is_truthy p.agent_id)) authoring_needs_identity
          _ h₁.1 in
      let h₃ = raise_if-eq-ok (mode == "history" && not p.operator) history_needs_operator _ h₂.1 in
      let h₄ = raise_if-eq-ok (inc && not (mode == "history")) superseded_needs_history _ h₃.1 in
      let h₅ =
        raise_if-eq-ok (is_nonempty statuses && mode == "governed") statuses_need_mode _ h₄.1 in
      let h₆ =
        raise_if-eq-ok (not (all_of (λ s. is_some (status_of s)) statuses)) unknown_status _ h₅.1 in
      let h₇ =
        raise_if-eq-ok
          (mode == "authoring" && not (all_of (λ s. contains s authoring_defaults) statuses))
          authoring_statuses _ h₆.1 in
      (ground (arith, h₁.0), h₂.0, h₃.0, h₄.0, h₇.0, ground (arith, h₇.1))

-- The early returns of `allows` that were not taken.
module _ (v : Visibility) (r : ThoughtRecord) (records : Dict ThoughtRecord) where
  abbrev Shown : Type 0
  Shown =
      (v.mode == "governed" && not (status_value r.frontmatter.validation_status == "approved")
        ≡ false)
      × (v.mode == "authoring" && not (is_agent v.principal.agent_id r.frontmatter.agent_id)
          ≡ false)
      × (v.include_superseded || not (is_effectively_superseded r records) ≡ true)

  shown : allows v r records ≡ true → Shown
  unfolding allows
  shown h =
      let a = if-eq-true _ _ h in
      let b = if-eq-true _ _ a.1 in
      let c = if-eq-true _ _ b.1 in let d = if-eq-true _ _ c.1 in (a.0, c.0, d.1)

not-approved : (s : ValidationStatus) → s ≢ approved → (status_value s == "approved") ≡ false
unfolding status_value
not-approved approved h = absurd (h refl)
not-approved _ h = refl

module _ (mode : String) (p : Principal) (statuses : List String) (inc : Bool) (v : Visibility)
    (r : ThoughtRecord) (records : Dict ThoughtRecord) where
  -- A view that a caller was given shows a thought that is not approved only to an operator, or
  -- to the agent that wrote it.
  pub unapproved_needs_privilege :
      visibility mode p statuses inc ≡ ok v
      → allows v r records ≡ true
      → r.frontmatter.validation_status ≢ approved
      → (p.operator ≡ true) ⊎ (p.agent_id ≡ some r.frontmatter.agent_id)
  unapproved_needs_privilege h a na =
      let c = checks mode p statuses inc v h in
      let s = shown v r records a in
      let na' = not-approved r.frontmatter.validation_status na in
      unfold is_agent in
      ground (
        arith,
        eq_iff mode "governed",
        eq_iff mode "authoring",
        eq_iff mode "history",
        eq_iff r.frontmatter.agent_id (or_else p.agent_id ""),
      )

  -- A thought with an approved successor is shown to operators alone.
  pub superseded_needs_operator :
      visibility mode p statuses inc ≡ ok v
      → allows v r records ≡ true
      → is_effectively_superseded r records ≡ true
      → p.operator ≡ true
  superseded_needs_operator h a sup =
      let c = checks mode p statuses inc v h in let s = shown v r records a in ground arith
