-- ===== src/Trail/Order.antt =====
-- The order in which the hooks want the results of `recall` (src/fava_trails/trail.py).
use fava_trails.Base.{
  ℕ, suc, String, Option, none, some, List, [], ◌∷◌, ◌==◌, if◌then◌else◌, ltb, or_else, is_some,
  keep,
}

-- the index of the last occurrence, as in `{uid: i for i, uid in enumerate(selection)}`
unfoldable pub position : String → ℕ → List String → Option ℕ
position id n [] = none
position id n (x ∷ xs) =
    let later = position id (suc n) xs in
    if is_some later then later else if x == id then some n else none

module _ {ℓ} {A : Type ℓ} (key : A → Option ℕ) where
  -- behind the items of the same key, as a stable sort wants it
  unfoldable pub insert_sorted : A → List A → List A
  insert_sorted x [] = x ∷ []
  insert_sorted x (y ∷ ys) =
      let rest = insert_sorted x ys in
      if ltb (or_else (key x) 0) (or_else (key y) 0) then x ∷ y ∷ ys else y ∷ rest

  unfoldable pub sort_from : List A → List A → List A
  unfolding insert_sorted
  sort_from sorted [] = sorted
  sort_from sorted (x ∷ xs) = sort_from (insert_sorted x sorted) xs

  -- `sorted([x for x in xs if key(x) is not None], key=key)`
  unfoldable pub sort_chosen : List A → List A
  unfolding sort_from
  sort_chosen xs = sort_from [] (keep (λ x. is_some (key x)) xs)

-- `if pipeline_result.recall_selection is not None:`
unfoldable pub select {ℓ} : {A : Type ℓ} → (A → String) → Option (List String) → List A → List A
unfolding sort_chosen position
select id_of none results = results
select id_of (some selection) results = sort_chosen (λ r. position (id_of r) 0 selection) results
