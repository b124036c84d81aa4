-- ===== src/Trail/Saving/Drafts.antt =====
-- What the hooks make of a thought that is saved (`save_thought` of src/fava_trails/trail.py).
use mathlib.Core.Path.{subst}
use fava_trails.Base.{
  ℕ, String, ◌≡◌, refl, sym, Bool, true, false, not, ◌&&◌, Option, none, some, List, arith, or_else,
  Bool-cases, inl, inr,
}
use fava_trails.Base.Number.{float_le, zero_float, one_float}
use fava_trails.Base.Result.{ok, raise_if, >>=-eq-ok, raise_if-eq-ok, ◌>>=◌, ◌>>◌}
use fava_trails.Base.Text.{is_empty}
use fava_trails.Models.Enums.{draft}
use fava_trails.Models.Thought.{ThoughtRecord, default_frontmatter, default_namespace}
use fava_trails.Hooks.Actions.{HookEvent, apply_patch, thought_of}
use fava_trails.Hooks.Pipeline.{HookSpec, PipelineResult, Outcome, returned, run_pipeline}
use fava_trails.Hooks.Pipeline
use fava_trails.Hooks.Pipeline.Invariant.{Patched, unpatched, patch, IsSound}
use fava_trails.Hooks.Pipeline.Soundness.{run_pipeline-IsSound}
use fava_trails.Transactions.Disk.{
  hook_rejected, invalid_namespace, obvious_secret, invalid_confidence,
}
use fava_trails.Trail.Paths.{Trail, is_valid_namespace}
use fava_trails.Trail.Promotion.{
  Environment, Call, nonempty_or, redirected, mutated, after_pipeline,
}
use fava_trails.Trail.Saving.{
  Request, relationships_of, new_record, saving_event, requested, hooked, checked, plan_save,
}

ok-eq : (x y : ThoughtRecord × String) → Path (Call (ThoughtRecord × String)) (ok x) (ok y) → x ≡ y
ok-eq x y e = ground arith

-- A draft of the id.
abbrev pub IsDraft : String → ThoughtRecord → Type 0
IsDraft ulid r =
    (r.frontmatter.validation_status ≡ draft)
    × (r.frontmatter.thought_id ≡ ulid)
    × (r.frontmatter.superseded_by ≡ none)

-- what is there is a draft
abbrev AllDraft : String → Option ThoughtRecord → Type 0
AllDraft ulid none = Unit
AllDraft ulid (some r) = IsDraft ulid r

Patched-AllDraft :
    (ulid : String) (t : Option ThoughtRecord) (n : ℕ) (t' : Option ThoughtRecord)
    → AllDraft ulid t
    → Patched t n t'
    → AllDraft ulid t'
unfolding apply_patch
Patched-AllDraft ulid t _ t' h unpatched = h
Patched-AllDraft ulid t _ t' h (patch {n} {u} p k) = Patched-AllDraft ulid t n (some u) h k

-- what the hooks make in place of a thought, where any hook is loaded
abbrev pub hooks_change : Environment → Bool → ThoughtRecord → ThoughtRecord
hooks_change env false r = r
hooks_change env true r = env.in_place r

mutated-IsDraft :
    (ulid : String) (e : HookEvent) (r : PipelineResult) (record_ : ThoughtRecord)
    → IsSound e r
    → thought_of e.payload ≡ some record_
    → IsDraft ulid record_
    → IsDraft ulid (mutated r record_)
unfolding mutated
mutated-IsDraft ulid e r record_ s here d =
    let k : AllDraft ulid (thought_of s.final.payload) =
      Patched-AllDraft ulid (thought_of e.payload) s.patches (thought_of s.final.payload)
        (subst (AllDraft ulid) (sym here) d) s.patched in
    rw s.event (go (thought_of s.final.payload) k)
  where
    go : (o : Option ThoughtRecord) → AllDraft ulid o → IsDraft ulid (or_else o record_)
    go none k = d
    go (some x) k = k

redirected-is_valid_namespace :
    (to : Option String) (ns ns' : String)
    → redirected to ns ≡ ok ns'
    → is_valid_namespace ns ≡ true
    → is_valid_namespace ns' ≡ true
unfolding redirected
redirected-is_valid_namespace none ns ns' h v = ground (arith, h, v)
redirected-is_valid_namespace (some to) ns ns' h v = elim (Bool-cases (is_empty to)) [
  | inl e ↦ ground (arith, rw e at h, v)
  | inr e ↦
      let k = raise_if-eq-ok (not (is_valid_namespace to)) invalid_namespace (ok to) (rw e at h) in
      ground (arith, k.0, k.1)
]

-- a draft in a valid namespace
abbrev IsRequested : String → ThoughtRecord × String → Type 0
IsRequested ulid p = IsDraft ulid p.0 × (is_valid_namespace p.1 ≡ true)

-- What the hooks make in place of a draft, in a valid namespace.
abbrev pub IsPlaced : Environment → Bool → String → ThoughtRecord × String → Type 0
IsPlaced env has_hooks ulid p =
    (original : ThoughtRecord) × IsDraft ulid original
    × (p.0 ≡ hooks_change env has_hooks original)
    × (is_valid_namespace p.1 ≡ true)

after_pipeline-IsPlaced :
    (env : Environment) (ulid : String) (e : HookEvent) (o : Outcome) (p q : ThoughtRecord × String)
    → ((r : PipelineResult) → o ≡ returned r → IsSound e r)
    → thought_of e.payload ≡ some p.0
    → IsRequested ulid p
    → after_pipeline env o p.0 p.1 ≡ ok q
    → IsPlaced env true ulid q
unfolding after_pipeline
after_pipeline-IsPlaced env ulid e (Pipeline.error x) p q s here d h = cc
after_pipeline-IsPlaced env ulid e (returned r) p q s here d h =
    let a =
      raise_if-eq-ok r.rejected hook_rejected
        (redirected r.redirect_namespace p.1 >>= λ ns. ok (env.in_place (mutated r p.0), ns)) h in
    let b =
      >>=-eq-ok (redirected r.redirect_namespace p.1) (λ ns. ok (env.in_place (mutated r p.0), ns))
        a.1 in
    subst (IsPlaced env true ulid) (ok-eq (env.in_place (mutated r p.0), b.0) q b.2) (
      mutated r p.0,
      mutated-IsDraft ulid e r p.0 (s r refl) here d.0,
      refl,
      redirected-is_valid_namespace r.redirect_namespace p.1 b.0 b.1 d.1,
    )

module _ (env : Environment) (request_has_secret : Request → Bool) (t : Trail) where
  requested-IsRequested :
      (q : Request) (ulid : String) (now : ℕ) (p : ThoughtRecord × String)
      → requested env request_has_secret t q ulid now ≡ ok p
      → IsRequested ulid p
  unfolding requested new_record default_frontmatter
  requested-IsRequested q ulid now p h =
      let ns = nonempty_or q.namespace default_namespace in
      let made_of : Call (ThoughtRecord × String) =
        relationships_of q.relationships >>= λ rs. ok (new_record q rs ulid now, ns) in
      let bounded = float_le zero_float q.confidence && float_le q.confidence one_float in
      let a =
        raise_if-eq-ok (request_has_secret q) obvious_secret
          (raise_if (not (is_valid_namespace ns)) invalid_namespace
            >> (raise_if (not bounded) invalid_confidence >> made_of))
          h in
      let b =
        raise_if-eq-ok (not (is_valid_namespace ns)) invalid_namespace
          (raise_if (not bounded) invalid_confidence >> made_of) a.1 in
      let c = raise_if-eq-ok (not bounded) invalid_confidence made_of b.1 in
      let d =
        >>=-eq-ok (relationships_of q.relationships) (λ rs. ok (new_record q rs ulid now, ns))
          c.1 in
      subst (IsRequested ulid) (ok-eq (new_record q d.0 ulid now, ns) p d.2)
        ((refl, refl, refl), ground (arith, b.0))

  hooked-IsPlaced :
      (has_hooks : Bool) (hooks : List HookSpec) (ulid : String) (p r : ThoughtRecord × String)
      → IsRequested ulid p
      → hooked env request_has_secret t has_hooks hooks p ≡ ok r
      → IsPlaced env has_hooks ulid r
  unfolding hooked saving_event thought_of
  hooked-IsPlaced false hooks ulid p r d h =
      subst (IsPlaced env false ulid) (ok-eq p r h) (p.0, d.0, refl, d.1)
  hooked-IsPlaced true hooks ulid p r d h =
      let e = saving_event t p.0 p.1 in
      after_pipeline-IsPlaced env ulid e (run_pipeline hooks e) p r
        (λ x k. run_pipeline-IsSound hooks e x k) refl d h

  -- Whatever actions the hooks return, a thought that is saved is a draft of its own new id that
  -- nothing has superseded, but for what the hooks change in place of the thought they are given:
  -- it is that change of such a draft, and where no hook is loaded it is the draft itself. What is
  -- saved has no obvious secret and its namespace is a valid one, in-place changes included.
  pub plan_save-IsPlaced :
      (has_hooks : Bool) (hooks : List HookSpec) (q : Request) (ulid : String) (now : ℕ)
      (p : ThoughtRecord × String)
      → plan_save env request_has_secret t has_hooks hooks q ulid now ≡ ok p
      → IsPlaced env has_hooks ulid p × (env.has_secret p.0 ≡ false)
  unfolding plan_save checked
  plan_save-IsPlaced has_hooks hooks q ulid now p h =
      let check = checked env request_has_secret t in
      let rest = λ (x : ThoughtRecord × String).
        hooked env request_has_secret t has_hooks hooks x >>= check in
      let a = >>=-eq-ok (requested env request_has_secret t q ulid now) rest h in
      let b = >>=-eq-ok (hooked env request_has_secret t has_hooks hooks a.0) check a.2 in
      let c = raise_if-eq-ok (env.has_secret b.0.0) obvious_secret (ok b.0) b.2 in
      subst (λ x. IsPlaced env has_hooks ulid x × (env.has_secret x.0 ≡ false)) (ok-eq b.0 p c.1)
        (
          hooked-IsPlaced has_hooks hooks ulid a.0 b.0 (requested-IsRequested q ulid now a.0 a.1)
              b.1,
          c.0,
        )
