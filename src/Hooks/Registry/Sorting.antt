-- ===== src/Hooks/Registry/Sorting.antt =====
-- `list.sort` as src/fava_trails/hook_manifest.py calls it.
use fava_trails.Base.{
  ◌≡◌, refl, ◌∙◌, inl, inr, Bool, true, false, ◌&&◌, List, [], ◌∷◌, arith, keep, All, Bool-cases,
}
use fava_trails.Base.Number.{ℤ, pos, negsuc, int_le}
use fava_trails.Hooks.Pipeline.{HookSpec}
use fava_trails.Hooks.Registry.{insert_spec, sort_specs}

-- The order of a hook is `k`.
abbrev pub has_order : ℤ → HookSpec → Bool
has_order k s = int_le s.order k && int_le k s.order

abbrev pub IsSorted : List HookSpec → Type 0
IsSorted [] = Unit
IsSorted (s ∷ ss) = All (λ t. int_le s.order t.order ≡ true) ss × IsSorted ss

int_le_trans : (a b c : ℤ) → int_le a b ≡ true → int_le b c ≡ true → int_le a c ≡ true
int_le_trans (pos a) (pos b) (pos c) h k = ground (arith, h, k)
int_le_trans (negsuc a) (negsuc b) (negsuc c) h k = ground (arith, h, k)
int_le_trans (negsuc a) b (pos c) h k = refl
int_le_trans (pos a) (negsuc b) c h k = cc
int_le_trans (pos a) (pos b) (negsuc c) h k = cc
int_le_trans (negsuc a) (pos b) (negsuc c) h k = cc

int_le_total : (a b : ℤ) → int_le a b ≡ false → int_le b a ≡ true
int_le_total (pos a) (pos b) h = ground (arith, h)
int_le_total (negsuc a) (negsuc b) h = ground (arith, h)
int_le_total (pos a) (negsuc b) h = refl
int_le_total (negsuc a) (pos b) h = cc

insert_spec-keep :
    (k : ℤ) (s : HookSpec) (ts : List HookSpec)
    → keep (has_order k) (insert_spec s ts) ≡ keep (has_order k) (s ∷ ts)
unfolding insert_spec
insert_spec-keep k s [] = refl
insert_spec-keep k s (t ∷ ts) = elim (Bool-cases (int_le s.order t.order)) [
  | inl e ↦ rw e refl
  | inr e ↦ rw e (swapped e (insert_spec-keep k s ts))
]
  where
    swapped :
        int_le s.order t.order ≡ false
        → keep (has_order k) (insert_spec s ts) ≡ keep (has_order k) (s ∷ ts)
        → keep (has_order k) (t ∷ insert_spec s ts) ≡ keep (has_order k) (s ∷ t ∷ ts)
    swapped e h = ground (arith, e, h, int_le_trans s.order k t.order)

pub sort_specs-keep :
    (k : ℤ) (ss : List HookSpec) → keep (has_order k) (sort_specs ss) ≡ keep (has_order k) ss
unfolding sort_specs
sort_specs-keep k [] = refl
sort_specs-keep k (s ∷ ss) =
    insert_spec-keep k s (sort_specs ss) ∙ ground (arith, sort_specs-keep k ss)

All-insert_spec :
    (b : ℤ) (s : HookSpec) (ts : List HookSpec)
    → int_le b s.order ≡ true
    → All (λ t. int_le b t.order ≡ true) ts
    → All (λ t. int_le b t.order ≡ true) (insert_spec s ts)
unfolding insert_spec
All-insert_spec b s [] h all = (h, tt)
All-insert_spec b s (t ∷ ts) h all = elim (Bool-cases (int_le s.order t.order)) [
  | inl e ↦ rw e (h, all)
  | inr e ↦ rw e (all.0, All-insert_spec b s ts h all.1)
]

All-weaken :
    (a b : ℤ) (ts : List HookSpec)
    → int_le a b ≡ true
    → All (λ t. int_le b t.order ≡ true) ts
    → All (λ t. int_le a t.order ≡ true) ts
All-weaken a b [] h all = tt
All-weaken a b (t ∷ ts) h all = (int_le_trans a b t.order h all.0, All-weaken a b ts h all.1)

insert_spec-IsSorted :
    (s : HookSpec) (ts : List HookSpec) → IsSorted ts → IsSorted (insert_spec s ts)
unfolding insert_spec
insert_spec-IsSorted s [] i = (tt, tt)
insert_spec-IsSorted s (t ∷ ts) i = elim (Bool-cases (int_le s.order t.order)) [
  | inl e ↦ rw e ((e, All-weaken s.order t.order ts e i.0), i)
  | inr e ↦ rw e (
    All-insert_spec t.order s ts (int_le_total s.order t.order e) i.0,
    insert_spec-IsSorted s ts i.1,
  )
]

pub sort_specs-IsSorted : (ss : List HookSpec) → IsSorted (sort_specs ss)
unfolding sort_specs
sort_specs-IsSorted [] = tt
sort_specs-IsSorted (s ∷ ss) = insert_spec-IsSorted s (sort_specs ss) (sort_specs-IsSorted ss)
