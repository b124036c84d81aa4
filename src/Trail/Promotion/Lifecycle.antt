-- ===== src/Trail/Promotion/Lifecycle.antt =====
-- The statuses of a thought through its reviews, and the files that a promotion writes
-- (`propose_truth` of src/fava_trails/trail.py).
use fava_trails.Base.{
  ℕ, String, ◌≡◌, refl, sym, ap, ◌∙◌, Bool, true, false, ◌&&◌, ◌||◌, ◌⊎◌, inl, inr, Option, none,
  some, List, [], ◌∷◌, arith, if◌then◌else◌, Bool-cases, or_else,
}
use fava_trails.Base.Dict.{Dict, insert, lookup}
use fava_trails.Base.Result.{Result, ok, err, ◌>>◌, raise_if, >>=-eq-ok, raise_if-eq-ok}
use fava_trails.Models.Enums.{ValidationStatus, same_status→eq, proposed, approved, same_status}
use fava_trails.Models.Thought.{ThoughtRecord, thought_id_of, namespace_route}
use fava_trails.Governance.Visibility.{is_truthy}
use fava_trails.Hooks.Pipeline.{HookSpec}
use fava_trails.Transactions.Disk.{TransactionError, obvious_secret}
use fava_trails.Trail.Paths.{Trail, found, is_below, find_thought_path, thought_path}
use fava_trails.Trail.Review.{
  TrustResult, approve, reject, failure, apply_review, status_for, with_status,
}
use fava_trails.Trail.Promotion.{
  Environment, Plan, unchanged, reviewed, before_propose, publication, predecessor, superseded_by,
  plan_promotion,
}
use fava_trails.Trail.Promotion.Inversion.{invert}

abbrev status_in : Result TransactionError (ThoughtRecord × String) → ValidationStatus
status_in (ok r) = r.0.frontmatter.validation_status
status_in (err _) = proposed

apply_review-status :
    (isoformat : ℕ → String) (trust_result : Option TrustResult) (r : ThoughtRecord)
    → (apply_review isoformat trust_result r).frontmatter.validation_status
      ≡ with_status trust_result
unfolding apply_review status_for
apply_review-status isoformat none r = refl
apply_review-status isoformat (some t) r = elim t.verdict [
  | approve ↦ refl
  | reject ↦ refl
  | failure ↦ refl
]

module _ (env : Environment) (has_hooks : Bool) (hooks : List HookSpec) (t : Trail)
    (trust_result : Option TrustResult) where
  reviewed-status :
      (before : ThoughtRecord) (r : ThoughtRecord × String)
      → reviewed env has_hooks hooks t trust_result before ≡ ok r
      → r.0.frontmatter.validation_status ≡ with_status trust_result
  unfolding reviewed
  reviewed-status before r h =
      let ns = namespace_route before.frontmatter.source_type in
      let final = λ (x : ThoughtRecord × String). apply_review env.isoformat trust_result x.0 in
      let tail = λ (x : ThoughtRecord × String).
        raise_if (env.has_secret (final x)) obvious_secret >> ok (final x, x.1) in
      let a =
        >>=-eq-ok (before_propose env has_hooks hooks t before ns)
          (λ x. raise_if (has_hooks && env.has_secret x.0) obvious_secret >> tail x) h in
      let b = raise_if-eq-ok (has_hooks && env.has_secret a.0.0) obvious_secret (tail a.0) a.2 in
      let c =
        raise_if-eq-ok (env.has_secret (final a.0)) obvious_secret (ok (final a.0, a.0.1)) b.1 in
      let e = apply_review-status env.isoformat trust_result a.0.0 in ap status_in (sym c.1) ∙ e

module _ (env : Environment) (t : Trail) (files : Dict String) (source : String)
    (before r : ThoughtRecord) (ns : String) where
  abbrev pub status : ValidationStatus
  status = r.frontmatter.validation_status

  abbrev pub target : String
  target =
      if same_status status approved || same_status status proposed
      then thought_path t (thought_id_of before) ns
      else source

  -- the plan of a record that replaces none
  abbrev pub moved : Plan
  moved = record {
    record_ = r;
    target_namespace = ns;
    writes = insert target (some (env.render r)) ((source, none) ∷ []);
    expected = (source, before) ∷ [];
  }

  -- the plan of an approved replacement
  abbrev pub replacing : String × ThoughtRecord → Plan
  replacing (path, original) = record moved {
    writes =
        insert path (some (env.render (superseded_by original (thought_id_of r) t.name)))
          (insert target (some (env.render r)) ((source, none) ∷ []));
    expected = insert path original ((source, before) ∷ []);
  }

  abbrev pub IsReplaced : Plan → Type 0
  IsReplaced p =
      (q : String × ThoughtRecord) × (predecessor env t files r
          (or_else r.frontmatter.supersedes_id "")
        ≡ ok q)
      × (p ≡ replacing q)

  pub publication-cases :
      (p : Plan)
      → publication env t files source before r ns ≡ ok p
      → (((same_status status approved && is_truthy r.frontmatter.supersedes_id) ≡ false)
          × (p ≡ moved))
        ⊎ (((same_status status approved && is_truthy r.frontmatter.supersedes_id) ≡ true)
            × IsReplaced p)
  unfolding publication
  publication-cases p h =
      elim (Bool-cases (same_status status approved && is_truthy r.frontmatter.supersedes_id)) [
        | inl e ↦
            let a =
              >>=-eq-ok (predecessor env t files r (or_else r.frontmatter.supersedes_id ""))
                (λ q. ok (replacing q)) (rw e at h) in
            inr (e, (a.0, a.1, ground (arith, a.2)))
        | inr e ↦ inl (e, ground (arith, rw e at h))
      ]

-- what is published without an approval
unapproved-moved :
    (env : Environment) (t : Trail) (files : Dict String) (source : String)
    (before r : ThoughtRecord) (ns : String) (p : Plan)
    → publication env t files source before r ns ≡ ok p
    → same_status r.frontmatter.validation_status approved ≡ false
    → p ≡ moved env t files source before r ns
unapproved-moved env t files source before r ns p h u =
    elim (publication-cases env t files source before r ns p h) [
      | inl c ↦ c.1
      | inr c ↦ ground (arith, c.0, u)
    ]

moved-writes :
    (env : Environment) (t : Trail) (files : Dict String) (source : String)
    (before r : ThoughtRecord) (ns : String) (p : Plan) (s : ValidationStatus)
    → p ≡ moved env t files source before r ns
    → r.frontmatter.validation_status ≡ s
    → same_status s approved ≡ false
    → p.writes
      ≡ insert
          (if same_status s proposed
            then thought_path t (thought_id_of before) p.target_namespace
            else source)
          (some (env.render p.record_))
          ((source, none) ∷ [])
moved-writes env t files source before r ns p s m e u = rw m (rw e (rw u refl))

-- publications end with the record they were given
publication-record_ :
    (env : Environment) (t : Trail) (files : Dict String) (source : String)
    (before r : ThoughtRecord) (ns : String) (p : Plan)
    → publication env t files source before r ns ≡ ok p
    → p.record_ ≡ r
publication-record_ env t files source before r ns p h =
    elim (publication-cases env t files source before r ns p h) [
      | inl c ↦ ap (λ q. q.record_) c.1
      | inr c ↦ ap (λ q. q.record_) c.1.2
    ]

module _ (env : Environment) (has_hooks : Bool) (hooks : List HookSpec) (t : Trail)
    (trust_result : Option TrustResult) (reviewed_record : Option ThoughtRecord)
    (files : Dict String) (id : String) (p : Plan) where
  -- A promotion that is planned either writes no file and returns a thought that is approved
  -- already, or it returns a thought whose status is the one that the review gives: proposed
  -- without a review, else approved, rejected or error by its verdict.
  pub plan_promotion-status :
      plan_promotion env has_hooks hooks t trust_result reviewed_record files id ≡ ok p
      → ((p.writes ≡ []) × (p.record_.frontmatter.validation_status ≡ approved))
        ⊎ (p.record_.frontmatter.validation_status ≡ with_status trust_result)
  unfolding unchanged
  plan_promotion-status h =
      let i = invert env has_hooks hooks t trust_result reviewed_record files id p h in
      elim i.branch [
        | inl c ↦ inl (
          ap (λ q. q.writes) c.1,
          ap (λ q. q.record_.frontmatter.validation_status) c.1
              ∙ same_status→eq i.before.frontmatter.validation_status approved c.0,
        )
        | inr c ↦
            let r = c.2.0 in
            inr (
              ap (λ x. x.frontmatter.validation_status)
                (publication-record_ env t files i.source i.before r.0 r.1 p c.2.2)
              ∙ reviewed-status env has_hooks hooks t trust_result i.before r c.2.1)
      ]

  -- Without an approving review, a promotion that is planned writes no file, or it writes exactly
  -- this: with the record that was parsed from the file found for the id, that file is removed and
  -- the reviewed record is written, a proposal to the path of the parsed record's id in the target
  -- namespace and any other thought back to the file. No other thought gets a link to it.
  pub plan_promotion-unapproved :
      plan_promotion env has_hooks hooks t trust_result reviewed_record files id ≡ ok p
      → same_status (with_status trust_result) approved ≡ false
      → (p.writes ≡ [])
        ⊎ ((source : String) × (text : String) × (before : ThoughtRecord) × (find_thought_path
                (is_below t env.is_thought)
                id
                files
              ≡ found source)
            × (lookup source files ≡ some text)
            × (env.parse text ≡ ok before)
            × (p.writes
                ≡ insert
                    (if same_status (with_status trust_result) proposed
                      then thought_path t before.frontmatter.thought_id p.target_namespace
                      else source)
                    (some (env.render p.record_))
                    ((source, none) ∷ [])))
  unfolding unchanged
  plan_promotion-unapproved h u =
      let i = invert env has_hooks hooks t trust_result reviewed_record files id p h in
      elim i.branch [
        | inl c ↦ inl (ap (λ q. q.writes) c.1)
        | inr c ↦
            let r = c.2.0 in
            let s = reviewed-status env has_hooks hooks t trust_result i.before r c.2.1 in
            let m =
              unapproved-moved env t files i.source i.before r.0 r.1 p c.2.2
                (ap (λ s. same_status s approved) s ∙ u) in
            inr (
              i.source,
              i.text,
              i.before,
              i.source_found,
              i.text_found,
              i.parsed,
              moved-writes env t files i.source i.before r.0 r.1 p (with_status trust_result) m s u,
            )
      ]
