-- ===== src/Trail/Updates/Freeze.antt =====
-- The freeze of the contents and the lineage of a successor (src/fava_trails/trail.py).
use mathlib.Core.Path.{subst}
use fava_trails.Base.{
  ℕ, String, ◌≡◌, Bool-cases, inl, inr, refl, ap, ◌∙◌, Bool, true, false, not, ◌||◌, or_else,
  Option, none, some, [], ◌∷◌, arith,
}
use fava_trails.Base.Number.{Float, float_le, zero_float, one_float}
use fava_trails.Base.Dict.{Dict, lookup, remove, lookup-remove}
use fava_trails.Base.Result.{Result, ok, err, raise_if, >>=-eq-ok, raise_if-eq-ok, ◌>>=◌, ◌>>◌}
use fava_trails.Models.Enums.{ValidationStatus, draft, approved, rejected, tombstoned, same_status}
use fava_trails.Models.Thought.{ThoughtRecord, default_frontmatter, is_superseded}
use fava_trails.Transactions.Disk.{
  Image, lift, World, Exit, failed, TransactionError, obvious_secret, content_frozen,
  content_superseded, invalid_confidence,
}
use fava_trails.Transactions.Disk
use fava_trails.Trail.Paths.{Trail, found, thought_path, is_below, find_thought_path}
use fava_trails.Trail.Promotion.{Environment, located, text_at}
use fava_trails.Trail.Promotion.Inversion.{located-eq-ok, text_at-eq-ok}
use fava_trails.Trail.Updates.{
  is_frozen, is_confidence, read_thought, with_content, plan_content, plan_update, write_update,
  update_thought, successor_of, plan_supersede,
}

ok-eq : {A : Type 0} (a b : A) → Path (Result TransactionError A) (ok a) (ok b) → a ≡ b
ok-eq a b h = ground arith

not_superseded : (r : ThoughtRecord) → is_superseded r ≡ false → r.frontmatter.superseded_by ≡ none
unfolding is_superseded
not_superseded r h = ground (arith, h)

is_confidence-bounds :
    (c : Float)
    → not (is_confidence c) ≡ false
    → (float_le zero_float c ≡ true) × (float_le c one_float ≡ true)
unfolding is_confidence
is_confidence-bounds c h = ground (arith, h)

not_frozen :
    (s : ValidationStatus)
    → is_frozen s ≡ false
    → (same_status s approved ≡ false)
      × (same_status s rejected ≡ false)
      × (same_status s tombstoned ≡ false)
unfolding is_frozen
not_frozen s h = ground (arith, h)

-- the file that a thought was read from
read_thought-eq-ok :
    (env : Environment) (t : Trail) (id : String) (files : Dict String) (q : String × ThoughtRecord)
    → read_thought env t id files ≡ ok q
    → (text : String) × (find_thought_path (is_below t env.is_thought) id files ≡ found q.0)
      × (lookup q.0 files ≡ some text)
      × (env.parse text ≡ ok q.1)
unfolding read_thought
read_thought-eq-ok env t id files q h =
    let a =
      >>=-eq-ok (located (find_thought_path (is_below t env.is_thought) id files))
        (λ path. text_at files path >>= λ text. env.parse text >>= λ r. ok (path, r)) h in
    let b = >>=-eq-ok (text_at files a.0) (λ text. env.parse text >>= λ r. ok (a.0, r)) a.2 in
    let c = >>=-eq-ok (env.parse b.0) (λ r. ok (a.0, r)) b.2 in
    let same = ok-eq (a.0, c.0) q c.2 in
    subst
      (λ (x : String × ThoughtRecord).
        (text : String) × (find_thought_path (is_below t env.is_thought) id files ≡ found x.0)
        × (lookup x.0 files ≡ some text)
        × (env.parse text ≡ ok x.1))
      same
      (
        b.0,
        located-eq-ok (find_thought_path (is_below t env.is_thought) id files) a.0 a.1,
        text_at-eq-ok files a.0 b.0 b.1,
        c.1,
      )

module _ (env : Environment) (text_has_secret : String → Bool) (t : Trail) where
  -- What is written of an update, and to which file.
  abbrev pub Updated : String → String → Dict String → String × ThoughtRecord → Type 0
  Updated id new_content files p =
      (r : ThoughtRecord) × (text : String) × (find_thought_path (is_below t env.is_thought) id
          files
        ≡ found p.0)
      × (lookup p.0 files ≡ some text)
      × (env.parse text ≡ ok r)
      × (p.1.frontmatter ≡ r.frontmatter)
      × (p.1.content ≡ new_content)
      × ((same_status r.frontmatter.validation_status approved ≡ false)
          × (same_status r.frontmatter.validation_status rejected ≡ false)
          × (same_status r.frontmatter.validation_status tombstoned ≡ false))
      × (r.frontmatter.superseded_by ≡ none)
      × (env.has_secret p.1 ≡ false)

  -- An update that passes its guards is of the file found for the id: the record parsed from it is
  -- neither approved, rejected nor tombstoned, and no successor is set on it. The record that is
  -- written to that path has exactly its frontmatter and the new content, and no obvious secret.
  pub plan_update-keeps :
      (id new_content : String) (files : Dict String) (p : String × ThoughtRecord)
      → plan_update env text_has_secret t id new_content files ≡ ok p
      → Updated id new_content files p
  unfolding plan_update plan_content
  plan_update-keeps id new_content files p h =
      let a =
        raise_if-eq-ok (text_has_secret new_content) obvious_secret
          (read_thought env t id files >>= plan_content env text_has_secret t new_content) h in
      let b =
        >>=-eq-ok (read_thought env t id files) (plan_content env text_has_secret t new_content)
          a.1 in
      let r = b.0.1 in
      let written = ok (b.0.0, with_content r new_content) in
      let checked =
        raise_if (env.has_secret (with_content r new_content)) obvious_secret >> written in
      let c =
        raise_if-eq-ok (is_frozen r.frontmatter.validation_status) content_frozen
          (raise_if (is_superseded r) content_superseded >> checked) b.2 in
      let d = raise_if-eq-ok (is_superseded r) content_superseded checked c.1 in
      let e =
        raise_if-eq-ok (env.has_secret (with_content r new_content)) obvious_secret written d.1 in
      let same = ok-eq (b.0.0, with_content r new_content) p e.1 in
      let f = read_thought-eq-ok env t id files b.0 b.1 in
      subst (Updated id new_content files) same (
        r,
        f.0,
        f.1,
        f.2,
        f.3,
        refl,
        refl,
        not_frozen r.frontmatter.validation_status c.0,
        not_superseded r d.0,
        e.0,
      )

  plan_update-frozen :
      (id new_content path : String) (r : ThoughtRecord) (files : Dict String)
      → read_thought env t id files ≡ ok (path, r)
      → (is_frozen r.frontmatter.validation_status || is_superseded r) ≡ true
      → (e : TransactionError) × (plan_update env text_has_secret t id new_content files ≡ err e)
  unfolding plan_update plan_content
  plan_update-frozen id new_content path r files h f =
      elim (Bool-cases (text_has_secret new_content)) [
        | inl e ↦ (obvious_secret, rw e refl)
        | inr e ↦ elim (Bool-cases (is_frozen r.frontmatter.validation_status)) [
          | inl k ↦ (content_frozen, rw (e, h, k) refl)
          | inr k ↦
              let s : is_superseded r ≡ true = ground (arith, f, k) in
              (content_superseded, rw (e, h, k, s) refl)
        ]
      ]

  -- An update of a thought that is approved, rejected or tombstoned, or that is superseded, fails
  -- and leaves the disk as it is, whatever steps would come. A status of error is none of these.
  pub update_thought-frozen :
      (message id new_content path : String) (r : ThoughtRecord) (w : World)
      → read_thought env t id w.disk.files ≡ ok (path, r)
      → (is_frozen r.frontmatter.validation_status || is_superseded r) ≡ true
      → (e : TransactionError) × (update_thought env text_has_secret t message id new_content w
          ≡ (failed e, w))
  unfolding update_thought
  update_thought-frozen message id new_content path r w h f =
      let k = plan_update-frozen id new_content path r w.disk.files h f in
      (k.0, ap (λ m. Disk.◌>>=◌ (lift m) (write_update env text_has_secret t message) w) k.1)

  abbrev pub Lineage : Trail → String → String → Dict String → ThoughtRecord × Dict Image → Type 0
  Lineage dest ulid id files p =
      (q : String × ThoughtRecord) × (read_thought env t id files ≡ ok q)
      × (p.0.frontmatter.validation_status ≡ draft)
      × (p.0.frontmatter.supersedes_id ≡ some q.1.frontmatter.thought_id)
      × (p.0.frontmatter.supersedes_scope ≡ some t.name)
      × (float_le zero_float p.0.frontmatter.confidence ≡ true)
      × (float_le p.0.frontmatter.confidence one_float ≡ true)
      × (lookup "trust_gate" p.0.frontmatter.metadata.extra ≡ none)
      × (lookup "approval" p.0.frontmatter.metadata.extra ≡ none)
      × (p.1 ≡ (thought_path dest ulid "drafts", some (env.render p.0)) ∷ [])

  -- A successor that is planned is a draft that names the thought that was read, its confidence is
  -- between 0 and 1, and it takes over neither that thought's review nor its approval. Its file in the drafts of the destination is
  -- the only one to write.
  pub plan_supersede-IsDraft :
      (dest : Trail) (ulid : String) (now : ℕ) (agent_id : String) (confidence : Option Float)
      (id new_content reason : String) (files : Dict String) (p : ThoughtRecord × Dict Image)
      → plan_supersede env text_has_secret t dest ulid now agent_id confidence id new_content reason
          files
        ≡ ok p
      → Lineage dest ulid id files p
  unfolding plan_supersede successor_of default_frontmatter
  plan_supersede-IsDraft dest ulid now agent_id confidence id new_content reason files p h =
      let new = λ (q : String × ThoughtRecord).
        successor_of env text_has_secret t ulid now agent_id
          (or_else confidence q.1.frontmatter.confidence) new_content q.1 in
      let planned : String × ThoughtRecord → ThoughtRecord × Dict Image =
        λ q. (new q, (thought_path dest ulid "drafts", some (env.render (new q))) ∷ []) in
      let checked = λ (q : String × ThoughtRecord).
        raise_if (not (is_confidence (or_else confidence q.1.frontmatter.confidence)))
          invalid_confidence
        >> (raise_if (env.has_secret (new q)) obvious_secret >> ok (planned q)) in
      let a =
        raise_if-eq-ok (text_has_secret new_content || text_has_secret reason) obvious_secret
          (read_thought env t id files >>= checked) h in
      let b = >>=-eq-ok (read_thought env t id files) checked a.1 in
      let k = or_else confidence b.0.1.frontmatter.confidence in
      let d =
        raise_if-eq-ok (not (is_confidence k)) invalid_confidence
          (raise_if (env.has_secret (new b.0)) obvious_secret >> ok (planned b.0)) b.2 in
      let c = raise_if-eq-ok (env.has_secret (new b.0)) obvious_secret (ok (planned b.0)) d.1 in
      let bounds = is_confidence-bounds k d.0 in
      let same = ok-eq (planned b.0) p c.1 in
      let extra = b.0.1.frontmatter.metadata.extra in
      subst (Lineage dest ulid id files) same (
        b.0,
        b.1,
        refl,
        refl,
        refl,
        bounds.0,
        bounds.1,
        lookup-remove "approval" "trust_gate" (remove "trust_gate" extra)
            ∙ lookup-remove "trust_gate" "trust_gate" extra,
        lookup-remove "approval" "approval" (remove "trust_gate" extra),
        refl,
      )
