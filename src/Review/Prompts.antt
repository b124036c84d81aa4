-- ===== src/Review/Prompts.antt =====
-- `TrustGatePromptCache` of src/fava_trails/trust_gate.py.
use fava_trails.Base.{
  ℕ, zero, suc, ◌≤◌, ◌<◌, String, ◌≡◌, Option, none, some, List, [], ◌∷◌, arith, length, take,
  if◌then◌else◌, Option-cases, inl, inr, ◌∙◌, Bool-cases, leb, leb→le,
}
use fava_trails.Base.Dict.{Dict, lookup, insert}
use fava_trails.Base.Result.{Result, ok, err}
use fava_trails.Base.Text.{concat, is_empty}
use fava_trails.Config.Scope.{split_slash}

pub data TrustGateConfigError : Type 0 where
  no_prompt wrong_policy unknown_policy invalid_question invalid_threshold : TrustGateConfigError

-- The cache from the text of the root's prompt file and from those below, by their scopes. Reading
-- the directory is left out.
unfoldable pub load_prompts : Option String → Dict String → Dict String
unfolding insert
load_prompts root [] = elim root [ none ↦ [] | some text ↦ ("", text) ∷ [] ]
load_prompts root ((scope, text) ∷ nested) = insert scope text (load_prompts root nested)

-- `"/".join(parts)`
unfoldable pub join_slash : List String → String
join_slash [] = ""
join_slash (s ∷ []) = s
join_slash (s ∷ t ∷ rest) = concat (s ∷ "/" ∷ join_slash (t ∷ rest) ∷ [])

abbrev pub parts_of : String → List String
parts_of scope = if is_empty scope then [] else split_slash scope

module _ (prompts : Dict String) where
  -- from the prefix of `n` parts down to the root
  unfoldable pub resolve_from : List String → ℕ → Option String
  unfolding join_slash lookup
  resolve_from parts zero = lookup "" prompts
  resolve_from parts (suc n) =
      let shorter = resolve_from parts n in
      elim (lookup (join_slash (take (suc n) parts)) prompts) [
        | some prompt ↦ some prompt
        | none ↦ shorter
      ]

  unfoldable pub resolve_prompt : String → Result TrustGateConfigError String
  unfolding resolve_from
  resolve_prompt scope = elim (resolve_from (parts_of scope) (length (parts_of scope))) [
    | some prompt ↦ ok prompt
    | none ↦ err no_prompt
  ]

  -- The prompt of the scope's first `n` parts.
  abbrev pub prompt_at : List String → ℕ → Option String
  prompt_at parts n = lookup (join_slash (take n parts)) prompts

  abbrev pub IsNearest : List String → ℕ → String → Type 0
  IsNearest parts limit prompt =
      (n : ℕ) × (n ≤ limit)
      × (prompt_at parts n ≡ some prompt)
      × ((m : ℕ) → n < m → m ≤ limit → prompt_at parts m ≡ none)

  resolve_from-IsNearest :
      (parts : List String) (n : ℕ) (prompt : String)
      → resolve_from parts n ≡ some prompt
      → IsNearest parts n prompt
  unfolding resolve_from join_slash
  resolve_from-IsNearest parts zero prompt h =
      (0, omega arith, h, λ m a b. absurd (omega (arith, a, b)))
  resolve_from-IsNearest parts (suc n) prompt h = elim (Option-cases (prompt_at parts (suc n))) [
    | inr p ↦ (
      suc n,
      omega arith,
      p.1 ∙ (rw (p.1, resolve_from) at h),
      λ m a b. absurd (omega (arith, a, b)),
    )
    | inl e ↦
        let k = resolve_from-IsNearest parts n prompt (rw (e, resolve_from) at h) in
        (k.0, omega (arith, k.1), k.2, λ m a b. beyond m n a b k.3 e)
  ]
    where
      beyond :
          {l : ℕ} (m n : ℕ)
          → l < m
          → m ≤ suc n
          → ((m : ℕ) → l < m → m ≤ n → prompt_at parts m ≡ none)
          → prompt_at parts (suc n) ≡ none
          → prompt_at parts m ≡ none
      beyond m n a b k e = elim (Bool-cases (leb m n)) [
        | inl c ↦ k m a (leb→le m n c)
        | inr c ↦ let same : m ≡ suc n = ground (arith, b, c) in rw same e
      ]

  resolve_from-missing :
      (parts : List String) (limit n : ℕ)
      → resolve_from parts limit ≡ none
      → n ≤ limit
      → prompt_at parts n ≡ none
  unfolding resolve_from join_slash
  resolve_from-missing parts zero n h b = let zero_ : n ≡ 0 = omega (arith, b) in rw zero_ h
  resolve_from-missing parts (suc limit) n h b = elim (Bool-cases (leb n limit)) [
    | inl c ↦ resolve_from-missing parts limit n (ground (arith, h)) (leb→le n limit c)
    | inr c ↦ let same : n ≡ suc limit = ground (arith, b, c) in rw same (ground (arith, h))
  ]

  -- A prompt that is resolved is that of the longest prefix of the scope, by parts, that has one;
  -- the root's is the last.
  pub resolve_prompt-IsNearest :
      (scope prompt : String)
      → resolve_prompt scope ≡ ok prompt
      → IsNearest (parts_of scope) (length (parts_of scope)) prompt
  unfolding resolve_prompt
  resolve_prompt-IsNearest scope prompt h =
      resolve_from-IsNearest (parts_of scope) (length (parts_of scope)) prompt (ground (arith, h))

  -- Where there is no prompt, no prefix of the scope has one, and the root has none.
  pub resolve_prompt-missing :
      (scope : String) (n : ℕ)
      → resolve_prompt scope ≡ err no_prompt
      → n ≤ length (parts_of scope)
      → prompt_at (parts_of scope) n ≡ none
  unfolding resolve_prompt
  resolve_prompt-missing scope n h b =
      resolve_from-missing (parts_of scope) (length (parts_of scope)) n (ground (arith, h)) b
