-- ===== src/Trail/Recall/Merged.antt =====
-- The ids in the merged results of `recall_multi` of src/fava_trails/trail.py.
use fava_trails.Base.{
  String, ◌≡◌, refl, sym, ◌∙◌, Bool, false, ◌||◌, List, [], ◌∷◌, ◌++◌, arith, ◌==◌, eq_iff,
  Bool-cases, inl, inr, any_of, contains, IsDistinct,
}
use fava_trails.Base.Result.{Result, ok, >>=-eq-ok}
use fava_trails.Models.Thought.{ThoughtRecord, thought_id_of}
use fava_trails.Governance.Visibility.{Visibility}
use fava_trails.Governance.Index.{RecordSnapshot}
use fava_trails.Hooks.Pipeline.{HookSpec}
use fava_trails.Transactions.Disk.{TransactionError}
use fava_trails.Trail.Paths.{Trail}
use fava_trails.Trail.Filter.{Texts, Query}
use fava_trails.Trail.Recall.{add_new, recall, merge_trails}

abbrev pub ids : List (ThoughtRecord × String) → List String
ids [] = []
ids (p ∷ ps) = thought_id_of p.0 ∷ ids ps

any_of-contains :
    (id : String) (ps : List (ThoughtRecord × String))
    → any_of (λ p. thought_id_of p.0 == id) ps ≡ contains id (ids ps)
any_of-contains id [] = refl
any_of-contains id (p ∷ ps) =
    ground
      (arith, any_of-contains id ps, eq_iff id (thought_id_of p.0), eq_iff (thought_id_of p.0) id)

contains-ids :
    (id : String) (ps : List (ThoughtRecord × String)) (q : ThoughtRecord × String)
    → contains id (ids (ps ++ (q ∷ []))) ≡ contains id (ids ps) || (id == thought_id_of q.0)
contains-ids id [] q = ground arith
contains-ids id (p ∷ ps) q = ground (arith, contains-ids id ps q)

append-IsDistinct :
    (ps : List (ThoughtRecord × String)) (q : ThoughtRecord × String)
    → IsDistinct (ids ps)
    → contains (thought_id_of q.0) (ids ps) ≡ false
    → IsDistinct (ids (ps ++ (q ∷ [])))
append-IsDistinct [] q d n = (refl, tt)
append-IsDistinct (p ∷ ps) q d n = (
  ground (
    arith,
    contains-ids (thought_id_of p.0) ps q,
    d.0,
    n,
    eq_iff (thought_id_of p.0) (thought_id_of q.0),
    eq_iff (thought_id_of q.0) (thought_id_of p.0),
  ),
  append-IsDistinct ps q d.1 (ground (arith, n)),
)

module _ (texts : Texts) (has_hooks : Bool) (hooks : List HookSpec)
    (snapshot : RecordSnapshot) where
  add_new-IsDistinct :
      (t : Trail) (rs : List ThoughtRecord) (ps : List (ThoughtRecord × String))
      → IsDistinct (ids ps)
      → IsDistinct (ids (add_new texts has_hooks hooks snapshot t rs ps))
  unfolding add_new
  add_new-IsDistinct t [] ps d = d
  add_new-IsDistinct t (r ∷ rs) ps d =
      elim (Bool-cases (any_of (λ p. thought_id_of p.0 == thought_id_of r) ps)) [
        | inl e ↦ rw e (add_new-IsDistinct t rs ps d)
        | inr e ↦ rw e (
            add_new-IsDistinct t rs (ps ++ ((r, t.name) ∷ []))
              (append-IsDistinct ps (r, t.name) d (sym (any_of-contains (thought_id_of r) ps) ∙ e)))
      ]

  -- No id occurs twice in what the trails' recalls are merged to, whatever the trails share.
  pub merge_trails-IsDistinct :
      (ts : List Trail) (v : Visibility) (q : Query) (ps merged : List (ThoughtRecord × String))
      → IsDistinct (ids ps)
      → merge_trails texts has_hooks hooks snapshot ts v q ps ≡ ok merged
      → IsDistinct (ids merged)
  unfolding merge_trails
  merge_trails-IsDistinct [] v q ps merged d h = rw (← ok-eq ps merged h) d
    where
      ok-eq :
          (x y : List (ThoughtRecord × String))
          → Path (Result TransactionError (List (ThoughtRecord × String))) (ok x) (ok y)
          → x ≡ y
      ok-eq x y e = ground arith
  merge_trails-IsDistinct (t ∷ ts) v q ps merged d h =
      let a =
        >>=-eq-ok (recall texts has_hooks hooks snapshot t v q)
          (λ rs.
            merge_trails texts has_hooks hooks snapshot ts v q
              (add_new texts has_hooks hooks snapshot t rs ps))
          h in
      merge_trails-IsDistinct ts v q (add_new texts has_hooks hooks snapshot t a.0 ps) merged
        (add_new-IsDistinct t a.0 ps d) a.2
