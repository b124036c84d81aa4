-- ===== src/Trail/Promotion/Inversion.antt =====
-- What a promotion that was planned has passed on the way.
use fava_trails.Base.{
  String, ◌≡◌, Bool, true, false, ◌⊎◌, inl, inr, Option, some, List, arith, if◌then◌else◌,
  Bool-cases,
}
use fava_trails.Base.Dict.{Dict, lookup}
use fava_trails.Base.Result.{Result, ok, ◌>>=◌, ◌>>◌, raise_if, >>=-eq-ok, raise_if-eq-ok}
use fava_trails.Models.Enums.{approved, tombstoned, same_status}
use fava_trails.Models.Thought.{ThoughtRecord}
use fava_trails.Hooks.Pipeline.{HookSpec}
use fava_trails.Transactions.Disk.{
  TransactionError, obvious_secret, changed_in_review, tombstoned_thought,
}
use fava_trails.Trail.Paths.{Trail, Found, found, is_below, find_thought_path}
use fava_trails.Trail.Review.{TrustResult}
use fava_trails.Trail.Promotion.{
  Environment, Plan, located, text_at, changed, unchanged, reviewed, publication, plan_review,
  plan_record, plan_file, plan_promotion,
}

pub located-eq-ok : (f : Found) (source : String) → located f ≡ ok source → f ≡ found source
unfolding located
located-eq-ok f source h = ground arith

pub text_at-eq-ok :
    (files : Dict String) (path text : String)
    → text_at files path ≡ ok text
    → lookup path files ≡ some text
unfolding text_at
text_at-eq-ok files path text h = ground arith

module _ (env : Environment) (has_hooks : Bool) (hooks : List HookSpec) (t : Trail)
    (trust_result : Option TrustResult) (reviewed_record : Option ThoughtRecord)
    (files : Dict String) (id : String) (p : Plan) where
  abbrev pub review : ThoughtRecord → Result TransactionError (ThoughtRecord × String)
  review before = reviewed env has_hooks hooks t trust_result before

  -- The file that was found, its record, and the branch that was taken.
  pub record Planned : Type 0 where
    pub source : String
    pub before : ThoughtRecord
    pub text : String
    pub source_found : find_thought_path (is_below t env.is_thought) id files ≡ found source
    pub text_found : lookup source files ≡ some text
    pub parsed : env.parse text ≡ ok before
    pub no_secret : env.has_secret before ≡ false
    pub as_reviewed : changed env reviewed_record before ≡ false
    pub branch :
        ((same_status before.frontmatter.validation_status approved ≡ true)
          × (p ≡ unchanged before))
        ⊎ ((same_status before.frontmatter.validation_status approved ≡ false)
            × (same_status before.frontmatter.validation_status tombstoned ≡ false)
            × ((r : ThoughtRecord × String) × (review before ≡ ok r)
                × (publication env t files source before r.0 r.1 ≡ ok p)))

  branch_of :
      (source : String) (before : ThoughtRecord)
      → (if same_status before.frontmatter.validation_status approved
          then ok (unchanged before)
          else plan_review env has_hooks hooks t trust_result reviewed_record files source before)
        ≡ ok p
      → ((same_status before.frontmatter.validation_status approved ≡ true)
          × (p ≡ unchanged before))
        ⊎ ((same_status before.frontmatter.validation_status approved ≡ false)
            × (same_status before.frontmatter.validation_status tombstoned ≡ false)
            × ((r : ThoughtRecord × String) × (review before ≡ ok r)
                × (publication env t files source before r.0 r.1 ≡ ok p)))
  unfolding plan_review
  branch_of source before h =
      elim (Bool-cases (same_status before.frontmatter.validation_status approved)) [
        | inl e ↦ inl (e, ground (arith, rw e at h))
        | inr e ↦
            let a =
              raise_if-eq-ok (same_status before.frontmatter.validation_status tombstoned)
                tombstoned_thought
                (review before >>= λ r. publication env t files source before r.0 r.1)
                (rw e at h) in
            let b =
              >>=-eq-ok (review before) (λ r. publication env t files source before r.0 r.1) a.1 in
            inr (e, a.0, b)
      ]

  -- Inversion of a promotion that was planned.
  pub invert :
      plan_promotion env has_hooks hooks t trust_result reviewed_record files id ≡ ok p → Planned
  unfolding plan_promotion plan_file plan_record text_at
  invert h =
      let a =
        >>=-eq-ok (located (find_thought_path (is_below t env.is_thought) id files))
          (plan_file env has_hooks hooks t trust_result reviewed_record files) h in
      let source = a.0 in
      let b =
        >>=-eq-ok (text_at files source)
          (λ text.
            env.parse text
            >>= plan_record env has_hooks hooks t trust_result reviewed_record files source)
          a.2 in
      let c =
        >>=-eq-ok (env.parse b.0)
          (plan_record env has_hooks hooks t trust_result reviewed_record files source) b.2 in
      let before = c.0 in
      let chosen =
        if same_status before.frontmatter.validation_status approved
        then ok (unchanged before)
        else plan_review env has_hooks hooks t trust_result reviewed_record files source before in
      let d =
        raise_if-eq-ok (env.has_secret before) obvious_secret
          (raise_if (changed env reviewed_record before) changed_in_review >> chosen) c.2 in
      let e = raise_if-eq-ok (changed env reviewed_record before) changed_in_review chosen d.1 in
      record {
        source = source;
        before = before;
        text = b.0;
        text_found = text_at-eq-ok files source b.0 b.1;
        parsed = c.1;
        source_found =
            located-eq-ok (find_thought_path (is_below t env.is_thought) id files) source a.1;
        no_secret = d.0;
        as_reviewed = e.0;
        branch = branch_of source before e.1;
      }
