-- ===== src/Trail/Recall/Shown.antt =====
-- What `recall` and `recall_multi` of src/fava_trails/trail.py may return.
use Prim.Native.String
use text.Mathlib.TextLemmas.{cons-append, append_assoc}
use fava_trails.Base.{
  ℕ, zero, suc, String, ◌≡◌, refl, sym, ap, ◌∙◌, ◌⊎◌, inl, inr, Bool, true, ◌&&◌, Option, none,
  some, List, [], ◌∷◌, ◌++◌, arith, ◌==◌, Bool-cases, Option-cases, ltb, or_else, is_some, keep,
  any_of, All, All-append,
}
use fava_trails.Base.Dict.{Dict}
use fava_trails.Base.Text.{concat, strip_prefix}
use fava_trails.Models.Thought.{ThoughtRecord, thought_id_of}
use fava_trails.Governance.Visibility.{Visibility, allows}
use fava_trails.Governance.Index.{RecordSnapshot}
use fava_trails.Trail.Filter.{is_within}
use fava_trails.Trail.Order.{position, select, sort_chosen, sort_from, insert_sorted}
use fava_trails.Trail.Recall.{gather, first_of, traverse}

strip_prefix-append :
    (a b s : String)
    → is_some (strip_prefix (Prim.Native.String.◌++◌ a b) s) ≡ true
    → is_some (strip_prefix a s) ≡ true
unfolding strip_prefix
strip_prefix-append String.[] b s h = refl
strip_prefix-append (String.◌∷◌ c a) b String.[] h = ground (arith, rw (cons-append c a b) at h)
strip_prefix-append (String.◌∷◌ c a) b (String.◌∷◌ d s) h =
    ground (arith, rw (cons-append c a b) at h, strip_prefix-append a b s)

-- A namespace lies within the trail's thoughts.
pub is_within-below :
    (directory ns path : String)
    → is_within (concat (directory ∷ "/" ∷ ns ∷ [])) path ≡ true
    → is_within directory path ≡ true
unfolding is_within
is_within-below directory ns path h =
    let name = Prim.Native.String.◌++◌ (concat (ns ∷ [])) "/" in
    strip_prefix-append (concat (directory ∷ "/" ∷ [])) name path (
      ap (λ p. is_some (strip_prefix p path))
        (append_assoc directory "/" name
          ∙ ap (Prim.Native.String.◌++◌ directory) (sym (append_assoc "/" (concat (ns ∷ [])) "/"))
          ∙ sym (append_assoc directory (concat ("/" ∷ ns ∷ [])) "/"))
      ∙ h)

module _ {ℓ} {A : Type ℓ} (P : A → Type ℓ) where
  All-keep : (p : A → Bool) (xs : List A) → All P xs → All P (keep p xs)
  All-keep p [] h = tt
  All-keep p (x ∷ xs) h = elim (Bool-cases (p x)) [
    | inl e ↦ rw e (h.0, All-keep p xs h.1)
    | inr e ↦ rw e (All-keep p xs h.1)
  ]

  All-insert_sorted :
      (key : A → Option ℕ) (x : A) (ys : List A) → P x → All P ys → All P (insert_sorted key x ys)
  unfolding insert_sorted
  All-insert_sorted key x [] h k = (h, tt)
  All-insert_sorted key x (y ∷ ys) h k =
      elim (Bool-cases (ltb (or_else (key x) 0) (or_else (key y) 0))) [
        | inl e ↦ rw e (h, k)
        | inr e ↦ rw e (k.0, All-insert_sorted key x ys h k.1)
      ]

  All-sort_from :
      (key : A → Option ℕ) (ys xs : List A) → All P ys → All P xs → All P (sort_from key ys xs)
  unfolding sort_from
  All-sort_from key ys [] k h = k
  All-sort_from key ys (x ∷ xs) k h =
      All-sort_from key (insert_sorted key x ys) xs (All-insert_sorted key x ys h.0 k) h.1

  -- A selection by the hooks only leaves out and reorders.
  pub All-select :
      (id_of : A → String) (selection : Option (List String)) (xs : List A)
      → All P xs
      → All P (select id_of selection xs)
  unfolding select sort_chosen
  All-select id_of none xs h = h
  All-select id_of (some selection) xs h =
      All-sort_from (λ r. position (id_of r) 0 selection) []
        (keep (λ r. is_some (position (id_of r) 0 selection)) xs) tt
        (All-keep (λ r. is_some (position (id_of r) 0 selection)) xs h)

abbrev pub Occurs : {A : Type 0} → A → List A → Type 0
Occurs x [] = ⊥
Occurs x (y ∷ ys) = (x ≡ y) ⊎ Occurs x ys

-- A record of the snapshot that lies below the directory and that the view allows.
abbrev pub IsShown : Visibility → RecordSnapshot → String → ThoughtRecord → Type 0
IsShown v snapshot directory r =
    (path : String) × Occurs (path, r) snapshot.records
    × (is_within directory path ≡ true)
    × (allows v r snapshot.by_id ≡ true)

module _ (v : Visibility) (snapshot : RecordSnapshot) (directory : String) where
  abbrev pub IsIn : Dict ThoughtRecord → Type 0
  IsIn records = (e : String × ThoughtRecord) → Occurs e records → Occurs e snapshot.records

  pub gather-IsShown :
      (wanted : String × ThoughtRecord → Bool) (limit : ℕ) (records : Dict ThoughtRecord)
      → ((e : String × ThoughtRecord) → wanted e ≡ true → is_within directory e.0 ≡ true)
      → IsIn records
      → All (IsShown v snapshot directory) (gather v snapshot.by_id wanted limit records)
  unfolding gather
  gather-IsShown wanted limit [] w i = tt
  gather-IsShown wanted zero ((path, r) ∷ records) w i =
      let skipped = gather-IsShown wanted zero records w (λ e o. i e (inr o)) in
      elim (Bool-cases (wanted (path, r) && allows v r snapshot.by_id)) [
        | inl e ↦
            rw e (
              (path, i (path, r) (inl refl), w (path, r) (ground (arith, e)), ground (arith, e)),
              tt,
            )
        | inr e ↦ rw e skipped
      ]
  gather-IsShown wanted (suc zero) ((path, r) ∷ records) w i =
      let skipped = gather-IsShown wanted (suc zero) records w (λ e o. i e (inr o)) in
      elim (Bool-cases (wanted (path, r) && allows v r snapshot.by_id)) [
        | inl e ↦
            rw e (
              (path, i (path, r) (inl refl), w (path, r) (ground (arith, e)), ground (arith, e)),
              tt,
            )
        | inr e ↦ rw e skipped
      ]
  gather-IsShown wanted (suc (suc n)) ((path, r) ∷ records) w i =
      let skipped = gather-IsShown wanted (suc (suc n)) records w (λ e o. i e (inr o)) in
      let later = gather-IsShown wanted (suc n) records w (λ e o. i e (inr o)) in
      elim (Bool-cases (wanted (path, r) && allows v r snapshot.by_id)) [
        | inl e ↦ rw e (
          (path, i (path, r) (inl refl), w (path, r) (ground (arith, e)), ground (arith, e)),
          later,
        )
        | inr e ↦ rw e skipped
      ]

  first_of-IsIn :
      (id : String) (records : Dict ThoughtRecord) (r : ThoughtRecord)
      → IsIn records
      → first_of v snapshot.by_id directory id records ≡ some r
      → (path : String) × Occurs (path, r) snapshot.records × (is_within directory path ≡ true)
  unfolding first_of
  first_of-IsIn id [] r i h = cc
  first_of-IsIn id ((path, s) ∷ records) r i h =
      elim (Bool-cases (thought_id_of s == id && is_within directory path)) [
        | inl e ↦ (path, i (path, r) (inl (ground (arith, rw e at h))), ground (arith, e))
        | inr e ↦ first_of-IsIn id records r (λ x o. i x (inr o)) (ground (arith, rw e at h))
      ]

  pub traverse-IsShown :
      (ids : List String) (results : List ThoughtRecord)
      → All (IsShown v snapshot directory) results
      → All
          (IsShown v snapshot directory)
          (traverse v snapshot.by_id directory snapshot.records ids results)
  unfolding traverse
  traverse-IsShown [] results h = h
  traverse-IsShown (id ∷ ids) results h =
      elim (Bool-cases (any_of (λ r. thought_id_of r == id) results)) [
        | inl e ↦ rw e (traverse-IsShown ids results h)
        | inr e ↦
            rw e (elim (Option-cases (first_of v snapshot.by_id directory id snapshot.records)) [
              | inl n ↦ rw n (traverse-IsShown ids results h)
              | inr f ↦
                  let q = first_of-IsIn id snapshot.records f.0 (λ x o. o) f.1 in
                  rw f.1 (elim (Bool-cases (allows v f.0 snapshot.by_id)) [
                    | inl a ↦ rw a (
                        traverse-IsShown ids (results ++ (f.0 ∷ [])) (
                          All-append (IsShown v snapshot directory) results (f.0 ∷ []) h
                            ((q.0, q.1, q.2, a), tt)))
                    | inr a ↦ rw a (traverse-IsShown ids results h)
                  ])
            ])
      ]
