-- ===== src/Hooks/Pipeline/Selection.antt =====
-- The ids that a RecallSelect keeps.
use fava_trails.Base.{
  String, ◌≡◌, refl, true, false, not, ◌&&◌, List, [], ◌∷◌, arith, eq_iff, contains, IsDistinct,
  All, Bool-cases, inl, inr,
}
use fava_trails.Hooks.Pipeline.{select_ids}

-- the selected ids were results, and none comes twice
module _ (valid : List String) where
  pub select_ids-valid :
      (seen ulids : List String) → All (λ u. contains u valid ≡ true) (select_ids valid seen ulids)
  unfolding select_ids
  select_ids-valid seen [] = tt
  select_ids-valid seen (u ∷ us) = elim (Bool-cases (contains u valid && not (contains u seen))) [
    | inl fresh ↦ rw fresh (ground (arith, fresh), select_ids-valid (u ∷ seen) us)
    | inr stale ↦ rw stale (select_ids-valid seen us)
  ]

  -- what was seen is not selected again
  select_ids-unseen :
      (k : String) (seen ulids : List String)
      → contains k seen ≡ true
      → contains k (select_ids valid seen ulids) ≡ false
  unfolding select_ids
  select_ids-unseen k seen [] h = refl
  select_ids-unseen k seen (u ∷ us) h =
      elim (Bool-cases (contains u valid && not (contains u seen))) [
        | inl fresh ↦ rw fresh (
            ground
              (arith, fresh, eq_iff k u, h, select_ids-unseen k (u ∷ seen) us (ground (arith, h))))
        | inr stale ↦ rw stale (select_ids-unseen k seen us h)
      ]

  pub select_ids-IsDistinct : (seen ulids : List String) → IsDistinct (select_ids valid seen ulids)
  unfolding select_ids
  select_ids-IsDistinct seen [] = tt
  select_ids-IsDistinct seen (u ∷ us) =
      elim (Bool-cases (contains u valid && not (contains u seen))) [
        | inl fresh ↦ rw fresh (
          select_ids-unseen u (u ∷ seen) us (ground (arith, eq_iff u u)),
          select_ids-IsDistinct (u ∷ seen) us,
        )
        | inr stale ↦ rw stale (select_ids-IsDistinct seen us)
      ]
