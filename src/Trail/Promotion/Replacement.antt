-- ===== src/Trail/Promotion/Replacement.antt =====
-- The predecessor of an approved replacement (`propose_truth` of src/fava_trails/trail.py).
use mathlib.Core.Path.{subst}
use fava_trails.Base.{
  String, ◌≡◌, refl, Bool, Option, none, ◌==◌, is_some, keep, sym, ap, ◌∙◌, true, false, ◌&&◌, some,
  [], ◌∷◌, arith, or_else, eq_refl, inl, inr,
}
use fava_trails.Base.Dict.{Dict, insert, lookup, lookup-insert}
use fava_trails.Base.Result.{ok, ◌>>=◌, ◌>>◌, raise_if, >>=-eq-ok, raise_if-eq-ok}
use fava_trails.Base.Text.{concat, strip_prefix}
use fava_trails.Config.Scope.{sanitize_scope_path}
use fava_trails.Models.Enums.{approved, same_status}
use fava_trails.Models.Thought.{ThoughtRecord, thought_id_of}
use fava_trails.Governance.Index.{record_index, relative}
use fava_trails.Governance.Visibility.{is_truthy, successor_key, is_effectively_superseded}
use fava_trails.Transactions.Disk.{predecessor_replaced}
use fava_trails.Trail.Paths.{Trail}
use fava_trails.Trail.Promotion.{
  Environment, Plan, scope_of, nonempty_or, governed_records, candidates, single, is_approved,
  publication, predecessor, superseded_by,
}
use fava_trails.Trail.Promotion.Lifecycle.{publication-cases, moved}

lookup-insert_same {ℓ} :
    {V : Type ℓ} (k : String) (v : V) (d : Dict V) → lookup k (insert k v d) ≡ some v
lookup-insert_same k v d = lookup-insert k k v d ∙ rw (eq_refl k) refl

-- the scope that is named, or the trail's own where none is
abbrev pub named_scope : Trail → Option String → String
named_scope t none = t.name
named_scope t (some String.[]) = t.name
named_scope t (some (String.◌∷◌ c s)) = String.◌∷◌ c s

named_scope-lem : (t : Trail) (s : Option String) → named_scope t s ≡ nonempty_or s t.name
named_scope-lem t none = refl
named_scope-lem t (some String.[]) = refl
named_scope-lem t (some (String.◌∷◌ c s)) = refl

single-eq-ok : (d : Dict ThoughtRecord) (q : String × ThoughtRecord) → single d ≡ ok q → d ≡ q ∷ []
unfolding single
single-eq-ok [] q h = cc
single-eq-ok (e ∷ []) q h = ground arith
single-eq-ok (e ∷ f ∷ d) q h = cc

is_approved-is_effectively_superseded :
    (r : ThoughtRecord) (records : Dict ThoughtRecord)
    → is_approved
        (lookup (successor_key r.frontmatter.superseded_scope r.frontmatter.superseded_by) records)
      ≡ is_effectively_superseded r records
unfolding is_approved is_effectively_superseded
is_approved-is_effectively_superseded r records = ground arith

scope_of-eq-ok :
    (name scope : String) → scope_of name ≡ ok scope → sanitize_scope_path name ≡ ok scope
unfolding scope_of
scope_of-eq-ok name scope h = ground arith

-- The predecessor with the successor's id and trail as its link, and all else as it was.
abbrev pub linked : Trail → ThoughtRecord → ThoughtRecord → ThoughtRecord
linked t r original = record original {
  frontmatter = record original.frontmatter {
    superseded_by = some r.frontmatter.thought_id;
    superseded_scope = some t.name;
  };
}

superseded_by-linked :
    (t : Trail) (r original : ThoughtRecord)
    → superseded_by original (thought_id_of r) t.name ≡ linked t r original
unfolding superseded_by
superseded_by-linked t r original = refl

module _ (env : Environment) (t : Trail) (files : Dict String) (r : ThoughtRecord) where
  -- a thought of the id that is replaced, in the thoughts of the scope
  abbrev pub is_candidate : String → String × ThoughtRecord → Bool
  is_candidate scope e =
      e.1.frontmatter.thought_id == or_else r.frontmatter.supersedes_id ""
      && is_some (strip_prefix (concat (env.trails_dir ∷ "/" ∷ scope ∷ "/thoughts/" ∷ [])) e.0)

  -- The only record of the id in the scope that the record names, which no approved record has
  -- replaced.
  abbrev pub IsReplaceable : String × ThoughtRecord → Type 0
  IsReplaceable q =
      (scope : String) × (records : Dict ThoughtRecord) × (sanitize_scope_path
          (named_scope t r.frontmatter.supersedes_scope)
        ≡ ok scope)
      × (governed_records env files ≡ ok records)
      × (keep (is_candidate scope) records ≡ q ∷ [])
      × (is_effectively_superseded q.1 (record_index (relative env.trails_dir records)) ≡ false)

  replaceable :
      (c q : String × ThoughtRecord) (scope : String) (records : Dict ThoughtRecord)
      → scope_of (nonempty_or r.frontmatter.supersedes_scope t.name) ≡ ok scope
      → governed_records env files ≡ ok records
      → candidates env (or_else r.frontmatter.supersedes_id "") scope records ≡ c ∷ []
      → is_effectively_superseded c.1 (record_index (relative env.trails_dir records)) ≡ false
      → c ≡ q
      → IsReplaceable q
  unfolding candidates
  replaceable c q scope records n g s u h =
      let named = scope_of-eq-ok (nonempty_or r.frontmatter.supersedes_scope t.name) scope n in
      let same : named_scope t r.frontmatter.supersedes_scope
          ≡ nonempty_or r.frontmatter.supersedes_scope t.name =
        named_scope-lem t r.frontmatter.supersedes_scope in
      subst IsReplaceable h (scope, records, ap sanitize_scope_path same ∙ named, g, s, u)

  predecessor-IsReplaceable :
      (q : String × ThoughtRecord)
      → predecessor env t files r (or_else r.frontmatter.supersedes_id "") ≡ ok q
      → IsReplaceable q
  unfolding predecessor
  predecessor-IsReplaceable q h =
      let id = or_else r.frontmatter.supersedes_id "" in
      let check = λ (records : Dict ThoughtRecord) (e : String × ThoughtRecord).
        raise_if
          (is_approved (
            lookup (successor_key e.1.frontmatter.superseded_scope e.1.frontmatter.superseded_by)
              (record_index (relative env.trails_dir records))))
          predecessor_replaced
        >> ok e in
      let find = λ (scope : String) (records : Dict ThoughtRecord).
        single (candidates env id scope records) >>= check records in
      let a =
        >>=-eq-ok (scope_of (nonempty_or r.frontmatter.supersedes_scope t.name))
          (λ scope. governed_records env files >>= find scope) h in
      let b = >>=-eq-ok (governed_records env files) (find a.0) a.2 in
      let c = >>=-eq-ok (single (candidates env id a.0 b.0)) (check b.0) b.2 in
      let key = successor_key c.0.1.frontmatter.superseded_scope c.0.1.frontmatter.superseded_by in
      let index = record_index (relative env.trails_dir b.0) in
      let d = raise_if-eq-ok (is_approved (lookup key index)) predecessor_replaced (ok c.0) c.2 in
      replaceable c.0 q a.0 b.0 a.1 b.1 (single-eq-ok (candidates env id a.0 b.0) c.0 c.1)
        (sym (is_approved-is_effectively_superseded c.0.1 index) ∙ d.0) (ground (arith, d.1))

  -- An approved replacement that is planned writes its id and its trail as the link on the one
  -- record of the replaced id in the scope that it names, its own trail where it names none, which
  -- no approved record had replaced, changes nothing else of that record, and expects it to be
  -- unchanged by then.
  pub publication-replaces :
      (source : String) (before : ThoughtRecord) (ns : String) (p : Plan)
      → publication env t files source before r ns ≡ ok p
      → (same_status r.frontmatter.validation_status approved
          && is_truthy r.frontmatter.supersedes_id)
        ≡ true
      → (q : String × ThoughtRecord) × IsReplaceable q
        × (lookup q.0 p.writes ≡ some (some (env.render (linked t r q.1))))
        × (lookup q.0 p.expected ≡ some q.1)
  publication-replaces source before ns p h e =
      elim (publication-cases env t files source before r ns p h) [
        | inl c ↦ ground (arith, c.0, e)
        | inr c ↦
            let q = c.1.0 in
            (
              q,
              predecessor-IsReplaceable q c.1.1,
              ap (λ x. lookup q.0 x.writes) c.1.2
                  ∙ lookup-insert_same q.0
                      (some (env.render (superseded_by q.1 (thought_id_of r) t.name)))
                      (moved env t files source before r ns).writes
                  ∙ ap (λ x. some (some (env.render x))) (superseded_by-linked t r q.1),
              ap (λ x. lookup q.0 x.expected) c.1.2
                  ∙ lookup-insert_same q.0 q.1 ((source, before) ∷ []),
            )
      ]
