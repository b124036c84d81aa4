-- ===== src/Trail/Recall/Soundness.antt =====
-- The results of `recall` of src/fava_trails/trail.py.
use fava_trails.Base.{
  ◌≤◌, String, ◌≡◌, inl, inr, Bool, true, not, ◌&&◌, Option, none, some, List, [], ◌∷◌, arith,
  if◌then◌else◌, Bool-cases, take, length, All, All-take, length-take,
}
use fava_trails.Base.Result.{Result, ok, ◌>>=◌, >>=-eq-ok, raise_if-eq-ok}
use fava_trails.Base.Text.{concat, is_empty}
use fava_trails.Models.Thought.{ThoughtRecord, thought_id_of}
use fava_trails.Governance.Visibility.{Visibility}
use fava_trails.Governance.Index.{RecordSnapshot}
use fava_trails.Hooks.Pipeline.{HookSpec, Outcome, returned, run_pipeline}
use fava_trails.Hooks.Actions.{recalled}
use fava_trails.Hooks.Pipeline
use fava_trails.Transactions.Disk.{TransactionError, invalid_namespace}
use fava_trails.Trail.Paths.{Trail, is_valid_namespace}
use fava_trails.Trail.Filter.{Texts, Query, is_within, matches_scope, matches_query}
use fava_trails.Trail.Order.{select}
use fava_trails.Trail.Recall.{
  thoughts_dir, search_dir, search, gather, after_recall, recall, related_ids,
}
use fava_trails.Trail.Recall.Shown.{
  is_within-below, All-select, IsShown, gather-IsShown, traverse-IsShown,
}

ok-eq {ℓ} : {A : Type ℓ} (a b : A) → Path (Result TransactionError A) (ok a) (ok b) → a ≡ b
ok-eq a b h = ground arith

search_dir-is_within :
    (t : Trail) (ns : Option String) (directory path : String)
    → search_dir t ns ≡ ok directory
    → is_within directory path ≡ true
    → is_within (thoughts_dir t) path ≡ true
unfolding search_dir
search_dir-is_within t none directory path h w = rw (ok-eq (thoughts_dir t) directory h) w
search_dir-is_within t (some ns) directory path h w = elim (Bool-cases (is_empty ns)) [
  | inl e ↦ rw (ok-eq (thoughts_dir t) directory (rw e at h)) w
  | inr e ↦
      let named = concat (thoughts_dir t ∷ "/" ∷ ns ∷ []) in
      let k =
        raise_if-eq-ok (not (is_valid_namespace ns)) invalid_namespace (ok named) (rw e at h) in
      is_within-below (thoughts_dir t) ns path (rw (ok-eq named directory k.1) w)
]

module _ (texts : Texts) (has_hooks : Bool) (hooks : List HookSpec)
    (snapshot : RecordSnapshot) where
  search-IsShown :
      (t : Trail) (v : Visibility) (q : Query) (directory : String)
      → ((path : String) → is_within directory path ≡ true → is_within (thoughts_dir t) path ≡ true)
      → All
          (IsShown v snapshot (thoughts_dir t))
          (search texts has_hooks hooks snapshot t v q directory)
  unfolding search
  search-IsShown t v q directory below =
      let wanted = λ (e : String × ThoughtRecord).
        is_within directory e.0 && matches_scope q.scope e.1 && matches_query texts q.query e.1 in
      let direct =
        gather-IsShown v snapshot (thoughts_dir t) wanted q.limit snapshot.records
          (λ e h. below e.0 (ground (arith, h))) (λ e o. o) in
      elim (Bool-cases q.include_relationships) [
        | inl e ↦ rw e (
            traverse-IsShown v snapshot (thoughts_dir t)
              (texts.set_order
                (related_ids (gather v snapshot.by_id wanted q.limit snapshot.records)))
              (gather v snapshot.by_id wanted q.limit snapshot.records) direct)
        | inr e ↦ rw e direct
      ]

  after_recall-All :
      (P : ThoughtRecord → Type 0) (o : Outcome) (results chosen : List ThoughtRecord)
      → All P results
      → after_recall o results ≡ ok chosen
      → All P chosen
  unfolding after_recall
  after_recall-All P (Pipeline.error x) results chosen h e = cc
  after_recall-All P (returned r) results chosen h e =
      rw (← ok-eq (select thought_id_of r.recall_selection results) chosen e)
        (All-select P thought_id_of r.recall_selection results h)

  hooked-All :
      (P : ThoughtRecord → Type 0) (o : Outcome) (results chosen : List ThoughtRecord)
      → All P results
      → (if has_hooks then after_recall o results else ok results) ≡ ok chosen
      → All P chosen
  hooked-All P o results chosen h e = elim (Bool-cases has_hooks) [
    | inl x ↦ after_recall-All P o results chosen h (rw x at e)
    | inr x ↦ rw (← ok-eq results chosen (rw x at e)) h
  ]

  -- Whatever the hooks select, a recall that returns shows at most `limit` thoughts, and each is a
  -- record of the snapshot that lies below the trail's thoughts and that the view allows. This
  -- covers the thoughts that are reached by a relationship. The limit is not negative.
  pub recall-IsShown :
      (t : Trail) (v : Visibility) (q : Query) (results : List ThoughtRecord)
      → recall texts has_hooks hooks snapshot t v q ≡ ok results
      → All (IsShown v snapshot (thoughts_dir t)) results × (length results ≤ q.limit)
  unfolding recall
  recall-IsShown t v q results h =
      let found = search texts has_hooks hooks snapshot t v q in
      let outcome = λ (rs : List ThoughtRecord). run_pipeline hooks (record {
        trail_name = t.name;
        lifecycle_point = "on_recall";
        payload = recalled rs q.query q.namespace;
      }) in
      let hooked =
        λ (rs : List ThoughtRecord). if has_hooks then after_recall (outcome rs) rs else ok rs in
      let a =
        >>=-eq-ok (search_dir t q.namespace)
          (λ d. hooked (found d) >>= λ chosen. ok (take q.limit chosen)) h in
      let b = >>=-eq-ok (hooked (found a.0)) (λ chosen. ok (take q.limit chosen)) a.2 in
      let direct =
        search-IsShown t v q a.0 (λ path. search_dir-is_within t q.namespace a.0 path a.1) in
      let shown =
        hooked-All (IsShown v snapshot (thoughts_dir t)) (outcome (found a.0)) (found a.0) b.0
          direct b.1 in
      rw (← ok-eq (take q.limit b.0) results b.2)
        (All-take (IsShown v snapshot (thoughts_dir t)) q.limit b.0 shown, length-take q.limit b.0)
