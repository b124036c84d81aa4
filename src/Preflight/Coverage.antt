-- ===== src/Preflight/Coverage.antt =====
-- The texts that the preflight of src/fava_trails/secret_preflight.py reads.
use Prim.Native.Nat.{max}
use fava_trails.Base.{
  ℕ, suc, ◌+◌, ◌≤◌, String, ◌≡◌, refl, Bool, Option, none, some, List, [], ◌∷◌, ◌++◌, arith,
  if◌then◌else◌, ltb, first_some, All, All-append, ◌↔◌,
}
use fava_trails.Base.Value.{
  Value, null, bool, int, float, str, list, dict, Items, nil, cons, Fields, end, field,
}
use fava_trails.Preflight.{
  max_walk_depth, traversal_limit_pattern_id, find_obvious_secret, walk, walk_items, walk_fields,
  find_obvious_secret_in_value,
}

-- Every text in a value, its keys included.
unfoldable mutual
  pub texts : Value → List String
  texts (str s) = s ∷ []
  texts (list xs) = texts_items xs
  texts (dict fs) = texts_fields fs
  texts null = []
  texts (bool _) = []
  texts (int _) = []
  texts (float _) = []

  pub texts_items : Items → List String
  texts_items nil = []
  texts_items (cons x xs) = texts x ++ texts_items xs

  pub texts_fields : Fields → List String
  texts_fields end = []
  texts_fields (field k v fs) = k ∷ (texts v ++ texts_fields fs)

-- How deep the items of a value lie.
unfoldable mutual
  pub depth : Value → ℕ
  depth (list xs) = depth_items xs
  depth (dict fs) = depth_fields fs
  depth (str s) = 0
  depth null = 0
  depth (bool _) = 0
  depth (int _) = 0
  depth (float _) = 0

  pub depth_items : Items → ℕ
  depth_items nil = 0
  depth_items (cons x xs) = max (suc (depth x)) (depth_items xs)

  pub depth_fields : Fields → ℕ
  depth_fields end = 0
  depth_fields (field k v fs) = max (suc (depth v)) (depth_fields fs)

not_too_deep :
    (d : ℕ) (found : Option String)
    → (if ltb max_walk_depth d then some traversal_limit_pattern_id else found) ≡ none
    → (d ≤ max_walk_depth) × (found ≡ none)
not_too_deep d found h = ground (arith, h)

first_some-none : (a b : Option String) → first_some a b ≡ none → (a ≡ none) × (b ≡ none)
first_some-none none b h = (refl, h)
first_some-none (some x) b h = cc

module _ (search : String → String → Bool) where
  abbrev pub IsClean : List String → Type 0
  IsClean ss = All (λ s. find_obvious_secret search s ≡ none) ss

  IsClean-join : (xs ys : List String) → IsClean xs → IsClean ys → IsClean (xs ++ ys)
  IsClean-join xs ys h k = All-append (λ s. find_obvious_secret search s ≡ none) xs ys h k

  IsClean-append : (xs ys : List String) → IsClean (xs ++ ys) → IsClean xs × IsClean ys
  IsClean-append [] ys h = (tt, h)
  IsClean-append (x ∷ xs) ys h = let k = IsClean-append xs ys h.1 in ((h.0, k.0), k.1)

  mutual
    unfolding walk texts depth

    walk-IsClean :
        (v : Value) (d : ℕ)
        → walk search v d ≡ none
        → IsClean (texts v) × (d + depth v ≤ max_walk_depth)
    walk-IsClean null d h = (tt, ground (arith, h))
    walk-IsClean (bool _) d h = (tt, ground (arith, h))
    walk-IsClean (int _) d h = (tt, ground (arith, h))
    walk-IsClean (float _) d h = (tt, ground (arith, h))
    walk-IsClean (str s) d h =
        let k = not_too_deep d (find_obvious_secret search s) h in ((k.1, tt), omega (arith, k.0))
    walk-IsClean (list xs) d h =
        let k = not_too_deep d (walk_items search xs (suc d)) h in walk_items-IsClean xs d k.0 k.1
    walk-IsClean (dict fs) d h =
        let k = not_too_deep d (walk_fields search fs (suc d)) h in walk_fields-IsClean fs d k.0 k.1

    walk_items-IsClean :
        (xs : Items) (d : ℕ)
        → d ≤ max_walk_depth
        → walk_items search xs (suc d) ≡ none
        → IsClean (texts_items xs) × (d + depth_items xs ≤ max_walk_depth)
    walk_items-IsClean nil d b h = (tt, omega (arith, b))
    walk_items-IsClean (cons x xs) d b h =
        let k = first_some-none (walk search x (suc d)) (walk_items search xs (suc d)) h in
        let a = walk-IsClean x (suc d) k.0 in
        let c = walk_items-IsClean xs d b k.1 in
        (IsClean-join (texts x) (texts_items xs) a.0 c.0, omega (arith, a.1, c.1))

    walk_fields-IsClean :
        (fs : Fields) (d : ℕ)
        → d ≤ max_walk_depth
        → walk_fields search fs (suc d) ≡ none
        → IsClean (texts_fields fs) × (d + depth_fields fs ≤ max_walk_depth)
    walk_fields-IsClean end d b h = (tt, omega (arith, b))
    walk_fields-IsClean (field k v fs) d b h =
        let key =
          if ltb max_walk_depth (suc d)
          then some traversal_limit_pattern_id
          else find_obvious_secret search k in
        let p =
          first_some-none key (first_some (walk search v (suc d)) (walk_fields search fs (suc d)))
            h in
        let q = first_some-none (walk search v (suc d)) (walk_fields search fs (suc d)) p.1 in
        let a = walk-IsClean v (suc d) q.0 in
        let c = walk_fields-IsClean fs d b q.1 in
        let n = not_too_deep (suc d) (find_obvious_secret search k) p.0 in
        ((n.1, IsClean-join (texts v) (texts_fields fs) a.0 c.0), omega (arith, a.1, c.1))

  mutual
    unfolding walk texts depth

    clean-walk :
        (v : Value) (d : ℕ)
        → IsClean (texts v)
        → d + depth v ≤ max_walk_depth
        → walk search v d ≡ none
    clean-walk null d c b = ground (arith, b)
    clean-walk (bool _) d c b = ground (arith, b)
    clean-walk (int _) d c b = ground (arith, b)
    clean-walk (float _) d c b = ground (arith, b)
    clean-walk (str s) d c b = ground (arith, b, c.0)
    clean-walk (list xs) d c b = ground (arith, b, clean-walk_items xs d c b)
    clean-walk (dict fs) d c b = ground (arith, b, clean-walk_fields fs d c b)

    clean-walk_items :
        (xs : Items) (d : ℕ)
        → IsClean (texts_items xs)
        → d + depth_items xs ≤ max_walk_depth
        → walk_items search xs (suc d) ≡ none
    clean-walk_items nil d c b = refl
    clean-walk_items (cons x xs) d c b =
        let k = IsClean-append (texts x) (texts_items xs) c in
        rw (clean-walk x (suc d) k.0 (omega (arith, b)))
          (clean-walk_items xs d k.1 (omega (arith, b)))

    clean-walk_fields :
        (fs : Fields) (d : ℕ)
        → IsClean (texts_fields fs)
        → d + depth_fields fs ≤ max_walk_depth
        → walk_fields search fs (suc d) ≡ none
    clean-walk_fields end d c b = refl
    clean-walk_fields (field k v fs) d c b =
        let r = IsClean-append (texts v) (texts_fields fs) c.1 in
        rw (clean-walk v (suc d) r.0 (omega (arith, b)))
          (rw (clean-walk_fields fs d r.1 (omega (arith, b))) (ground (arith, c.0, b)))

  -- The preflight lets a value pass just where no pattern is found in any text of it, keys included,
  -- and its items lie at most 32 deep. What lies deeper is refused unread.
  pub find_obvious_secret_in_value-IsClean :
      (v : Value)
      → (find_obvious_secret_in_value search v ≡ none)
        ↔ (IsClean (texts v) × (depth v ≤ max_walk_depth))
  unfolding find_obvious_secret_in_value
  find_obvious_secret_in_value-IsClean v = (
    λ h. let k = walk-IsClean v 0 h in (k.0, omega (arith, k.1)),
    λ h. clean-walk v 0 h.0 (omega (arith, h.1)),
  )
