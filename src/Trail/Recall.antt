-- ===== src/Trail/Recall.antt =====
-- `recall` and `recall_multi` of src/fava_trails/trail.py.
pub mod Shown
pub mod Soundness
pub mod Merged
use fava_trails.Base.{
  ℕ, zero, suc, ◌≤◌, String, ◌≡◌, Bool, true, false, not, ◌&&◌, ◌||◌, Option, none, some, List, [],
  ◌∷◌, ◌++◌, arith, ◌==◌, if◌then◌else◌, ltb, or_else, is_some, keep, take, map, any_of, all_of,
  contains, length,
}
use fava_trails.Base.Dict.{Dict}
use fava_trails.Base.Result.{Result, ok, err, ◌>>=◌, ◌>>◌, raise_if}
use fava_trails.Base.Text.{concat, is_empty, strip_prefix, has_infix}
use fava_trails.Models.Enums.{source_value}
use fava_trails.Models.Thought.{ThoughtRecord, Relationship, thought_id_of}
use fava_trails.Governance.Visibility.{Visibility, allows}
use fava_trails.Governance.Index.{RecordSnapshot}
use fava_trails.Hooks.Actions.{HookEvent, recalled}
use fava_trails.Hooks.Pipeline.{HookSpec, Outcome, PipelineResult, returned, run_pipeline}
use fava_trails.Hooks.Pipeline
use fava_trails.Transactions.Disk.{TransactionError, invalid_namespace, hook_failed}
use fava_trails.Trail.Paths.{Trail, is_valid_namespace}
use fava_trails.Trail.Filter.{Texts, Query, matches_scope, matches_query, is_within}
use fava_trails.Trail.Order.{select}

pub thoughts_dir : Trail → String
thoughts_dir t = concat (t.directory ∷ "/thoughts" ∷ [])

-- `if namespace:`, whose name is validated
pub search_dir : Trail → Option String → Result TransactionError String
unfolding thoughts_dir
search_dir t none = ok (thoughts_dir t)
search_dir t (some ns) = if is_empty ns then ok (thoughts_dir t) else do
  raise_if (not (is_valid_namespace ns)) invalid_namespace
  ok (concat (thoughts_dir t ∷ "/" ∷ ns ∷ []))

module _ (visibility : Visibility) (by_id : Dict ThoughtRecord) where
  -- the loop over the records; the test of the limit follows the append
  pub gather : (String × ThoughtRecord → Bool) → ℕ → Dict ThoughtRecord → List ThoughtRecord
  gather wanted limit [] = []
  gather wanted limit ((path, r) ∷ records) =
      let skipped = gather wanted limit records in
      elim limit [
        | zero ↦ if wanted (path, r) && allows visibility r by_id then r ∷ [] else skipped
        | suc n ↦
            let later = gather wanted n records in
            if wanted (path, r) && allows visibility r by_id
            then (elim n [ zero ↦ r ∷ [] | suc _ ↦ r ∷ later ])
            else skipped
      ]

  -- the first record of the id in the trail
  pub first_of : String → String → Dict ThoughtRecord → Option ThoughtRecord
  first_of directory id [] = none
  first_of directory id ((path, r) ∷ records) =
      let later = first_of directory id records in
      if thought_id_of r == id && is_within directory path then some r else later

  -- the records that the results relate to, where they may be seen
  pub traverse : String → Dict ThoughtRecord → List String → List ThoughtRecord → List ThoughtRecord
  unfolding first_of
  traverse directory records [] results = results
  traverse directory records (id ∷ ids) results =
      let next = traverse directory records ids in
      if any_of (λ r. thought_id_of r == id) results
      then next results
      else elim (first_of directory id records) [
        | none ↦ next results
        | some r ↦ if allows visibility r by_id then next (results ++ (r ∷ [])) else next results
      ]

pub related_ids : List ThoughtRecord → List String
related_ids [] = []
related_ids (r ∷ rs) = map (λ rel. rel.target_id) r.frontmatter.relationships ++ related_ids rs

pub after_recall : Outcome → List ThoughtRecord → Result TransactionError (List ThoughtRecord)
unfolding select
after_recall (Pipeline.error _) results = err hook_failed
after_recall (returned r) results = ok (select thought_id_of r.recall_selection results)

module _ (texts : Texts) (has_hooks : Bool) (hooks : List HookSpec)
    (snapshot : RecordSnapshot) where
  -- the results before the hooks
  pub search : Trail → Visibility → Query → String → List ThoughtRecord
  unfolding matches_scope matches_query gather traverse related_ids thoughts_dir
  search t visibility q directory =
      let wanted = λ (e : String × ThoughtRecord).
        is_within directory e.0 && matches_scope q.scope e.1 && matches_query texts q.query e.1 in
      let results = gather visibility snapshot.by_id wanted q.limit snapshot.records in
      if q.include_relationships
      then traverse visibility snapshot.by_id (thoughts_dir t) snapshot.records
          (texts.set_order (related_ids results)) results
      else results

  -- `recall`, from a snapshot
  unfoldable pub recall : Trail → Visibility → Query → Result TransactionError (List ThoughtRecord)
  unfolding search_dir search after_recall
  recall t visibility q = do
    directory ← search_dir t q.namespace
    let results = search t visibility q directory
    chosen ←
        (if has_hooks
          then after_recall
              (run_pipeline hooks (record {
                trail_name = t.name;
                lifecycle_point = "on_recall";
                payload = recalled results q.query q.namespace;
              }))
              results
          else ok results)
    ok (take q.limit chosen)

  -- a record with the name of the trail that it is from, where its id is new
  pub add_new :
      Trail → List ThoughtRecord → List (ThoughtRecord × String) → List (ThoughtRecord × String)
  add_new t [] results = results
  add_new t (r ∷ rs) results =
      if any_of (λ p. thought_id_of p.0 == thought_id_of r) results
      then add_new t rs results
      else add_new t rs (results ++ ((r, t.name) ∷ []))

  -- the loop over the trails of `recall_multi`
  unfoldable pub merge_trails :
      List Trail
      → Visibility
      → Query
      → List (ThoughtRecord × String)
      → Result TransactionError (List (ThoughtRecord × String))
  unfolding recall add_new
  merge_trails [] visibility q results = ok results
  merge_trails (t ∷ ts) visibility q results = do
    rs ← recall t visibility q
    merge_trails ts visibility q (add_new t rs results)

  distinct_names : List Trail → List String → List String
  distinct_names [] names = names
  distinct_names (t ∷ ts) names =
      distinct_names ts (if contains t.name names then names else t.name ∷ names)

  is_mixed : List Trail → Bool
  unfolding distinct_names
  is_mixed ts = elim (distinct_names ts []) [
    | [] ↦ false
    | x ∷ xs ↦ elim xs [ [] ↦ false | _ ∷ _ ↦ true ]
  ]

  mix :
      Outcome
      → List (ThoughtRecord × String)
      → Result TransactionError (List (ThoughtRecord × String))
  unfolding select
  mix (Pipeline.error _) results = err hook_failed
  mix (returned r) results = ok (select (λ p. thought_id_of p.0) r.recall_selection results)

  -- the on_recall_mix hooks of the first trail
  after_merge :
      List Trail
      → Query
      → List (ThoughtRecord × String)
      → Result TransactionError (List (ThoughtRecord × String))
  unfolding is_mixed mix
  after_merge [] q results = ok results
  after_merge (t ∷ ts) q results =
      if is_mixed (t ∷ ts) && has_hooks
      then mix
          (run_pipeline hooks (record {
            trail_name = t.name;
            lifecycle_point = "on_recall_mix";
            payload = recalled (map (λ p. p.0) results) q.query q.namespace;
          }))
          results
      else ok results

  -- `recall_multi`
  unfoldable pub recall_multi :
      List Trail → Visibility → Query → Result TransactionError (List (ThoughtRecord × String))
  unfolding merge_trails after_merge
  recall_multi ts visibility q = do
    merged ← merge_trails ts visibility q []
    results ← after_merge ts q merged
    ok (take q.limit results)
