-- ===== src/Llm/Registry.antt =====
-- src/fava_trails/llm/registry.py. `str.lower` is an argument.
use mathlib.Core.Path.{Path}
use fava_trails.Base.{
  ℕ, String, ◌≡◌, refl, ◌∙◌, ◌⊎◌, inl, inr, Bool, true, false, Option, none, some, List, [], ◌∷◌,
  ◌==◌, arith, if◌then◌else◌, Bool-cases, Option-cases, eq_iff, eq_refl, is_some, ◌≢◌, ◌||◌,
}
use fava_trails.Base.Dict.{Dict, lookup, insert, lookup-insert}
use fava_trails.Base.Text.{is_empty}

pub record ModelInfo : Type 0 where
  pub model_name : String
  pub aliases : List String
  pub supports_json_mode : Bool
  pub supports_temperature : Bool
  pub max_output_tokens : Option ℕ

-- The models by name, and the names by lowercase alias.
pub record ModelRegistry : Type 0 where
  pub models : Dict ModelInfo
  pub aliases : Dict String

abbrev pub empty_registry : ModelRegistry
empty_registry = record { models = []; aliases = [] }

-- what `resolve` gives; `key_error` is where the alias's model is missing
pub data Resolved : Type 0 where
  unknown key_error : Resolved
  known : ModelInfo → Resolved

known_or_error : Option ModelInfo → Resolved
known_or_error none = key_error
known_or_error (some info) = known info

module _ (lower : String → String) where
  add_aliases : String → List String → Dict String → Dict String
  add_aliases name [] d = d
  add_aliases name (a ∷ rest) d = add_aliases name rest (insert (lower a) name d)

  unfoldable pub register : ModelInfo → ModelRegistry → ModelRegistry
  unfolding add_aliases
  register info r = record {
    models = insert info.model_name info r.models;
    aliases =
        add_aliases info.model_name info.aliases
          (insert (lower info.model_name) info.model_name r.aliases);
  }

  unfoldable pub resolve : String → ModelRegistry → Resolved
  unfolding known_or_error
  resolve name_or_alias r = elim (lookup (lower name_or_alias) r.aliases) [
    | none ↦ unknown
    | some name ↦ if is_empty name then unknown else known_or_error (lookup name r.models)
  ]

  -- the registry of the bundled file's entries
  unfoldable pub from_entries : List ModelInfo → ModelRegistry → ModelRegistry
  unfolding register
  from_entries [] r = r
  from_entries (info ∷ rest) r = from_entries rest (register info r)

  -- Each alias names a model, under its own name.
  pub record IsRegistry (r : ModelRegistry) : Type 0 where
    pub named :
        (alias name : String)
        → lookup alias r.aliases ≡ some name
        → is_some (lookup name r.models) ≡ true
    pub own_name :
        (name : String) (info : ModelInfo)
        → lookup name r.models ≡ some info
        → info.model_name ≡ name

  lookup-add_aliases :
      (name : String) (added : List String) (d : Dict String) (alias found : String)
      → lookup alias (add_aliases name added d) ≡ some found
      → (found ≡ name) ⊎ (lookup alias d ≡ some found)
  unfolding add_aliases
  lookup-add_aliases name [] d alias found h = inr h
  lookup-add_aliases name (a ∷ rest) d alias found h =
      elim (lookup-add_aliases name rest (insert (lower a) name d) alias found h) [
        | inl e ↦ inl e
        | inr e ↦ ground (arith, e, lookup-insert (lower a) alias name d)
      ]

  register-IsRegistry :
      (info : ModelInfo) (r : ModelRegistry) → IsRegistry r → IsRegistry (register info r)
  unfolding register
  register-IsRegistry info r i = record {
    named = λ alias name h.
        elim (lookup-add_aliases info.model_name info.aliases
          (insert (lower info.model_name) info.model_name r.aliases) alias name h) [
            | inl e ↦ added name e
            | inr e ↦ before alias name e
          ];
    own_name = λ name found h. ground (
      arith,
      h,
      lookup-insert info.model_name name info r.models,
      i.own_name name found,
      eq_iff info.model_name name,
    );
  }
    where
      added :
          (name : String)
          → name ≡ info.model_name
          → is_some (lookup name (insert info.model_name info r.models)) ≡ true
      added name e =
          ground (
            arith,
            e,
            lookup-insert info.model_name name info r.models,
            eq_iff info.model_name name,
          )

      before :
          (alias name : String)
          → lookup alias (insert (lower info.model_name) info.model_name r.aliases) ≡ some name
          → is_some (lookup name (insert info.model_name info r.models)) ≡ true
      before alias name h = ground (
        arith,
        h,
        lookup-insert (lower info.model_name) alias info.model_name r.aliases,
        lookup-insert info.model_name name info r.models,
        i.named alias name,
        eq_iff info.model_name name,
      )

  from_entries-IsRegistry :
      (infos : List ModelInfo) (r : ModelRegistry)
      → IsRegistry r
      → IsRegistry (from_entries infos r)
  unfolding from_entries
  from_entries-IsRegistry [] r i = i
  from_entries-IsRegistry (info ∷ rest) r i =
      from_entries-IsRegistry rest (register info r) (register-IsRegistry info r i)

  -- `x` is the name of the model or an alias of it, in any case.
  unfoldable pub is_alias : String → List String → Bool
  is_alias x [] = false
  is_alias x (a ∷ rest) = (lower a == lower x) || is_alias x rest

  add_aliases-finds :
      (name x : String) (added : List String) (d : Dict String)
      → (is_alias x added ≡ true) ⊎ (lookup (lower x) d ≡ some name)
      → lookup (lower x) (add_aliases name added d) ≡ some name
  unfolding add_aliases is_alias
  add_aliases-finds name x [] d (inl h) = cc
  add_aliases-finds name x [] d (inr h) = h
  add_aliases-finds name x (a ∷ rest) d h =
      let inserted = lookup-insert (lower a) (lower x) name d in
      add_aliases-finds name x rest (insert (lower a) name d)
        (elim (Bool-cases (lower a == lower x)) [
          | inl e ↦ inr (inserted ∙ rw e refl)
          | inr e ↦ elim h [ inl k ↦ inl (ground (arith, e, k)) | inr k ↦ inr (inserted ∙ rw e k) ]
        ])

  known-finds :
      (info : ModelInfo) (models : Dict ModelInfo)
      → lookup info.model_name (insert info.model_name info models) ≡ some info
  known-finds info models =
      lookup-insert info.model_name info.model_name info models ∙ rw (eq_refl info.model_name) refl

  -- A model that was registered under a name that is not empty is found by the name and by each
  -- alias, in any case, whatever was registered before it.
  pub resolve-register :
      (info : ModelInfo) (r : ModelRegistry) (x : String)
      → is_empty info.model_name ≡ false
      → is_alias x (info.model_name ∷ info.aliases) ≡ true
      → resolve x (register info r) ≡ known info
  unfolding resolve register known_or_error is_alias
  resolve-register info r x named h =
      let name = info.model_name in
      let d = insert (lower name) name r.aliases in
      let inserted = lookup-insert (lower name) (lower x) name r.aliases in
      let found =
        add_aliases-finds name x info.aliases d (elim (Bool-cases (lower name == lower x)) [
          | inl e ↦ inr (inserted ∙ rw e refl)
          | inr e ↦ inl (ground (arith, e, h))
        ]) in
      rw (found, resolve) (rw (named, known-finds info r.models) refl)

  empty-IsRegistry : IsRegistry empty_registry
  unfolding lookup
  empty-IsRegistry = record {
    named = λ alias name e. ground (arith, e);
    own_name = λ name info e. ground (arith, e);
  }

  -- In a registry that was loaded from any entries, no name or alias leads to a missing model.
  pub resolve-from_entries :
      (infos : List ModelInfo) (x : String)
      → resolve x (from_entries infos empty_registry) ≢ key_error
  unfolding resolve known_or_error
  resolve-from_entries infos x h =
      let r = from_entries infos empty_registry in
      let i = from_entries-IsRegistry infos empty_registry empty-IsRegistry in
      elim (Option-cases (lookup (lower x) r.aliases)) [
        | inl e ↦ absurd (no_error (rw (e, resolve) at h))
        | inr p ↦ elim (Option-cases (lookup p.0 r.models)) [
          | inl e ↦ ground (arith, i.named (lower x) p.0 p.1, e)
          | inr q ↦ elim (Bool-cases (is_empty p.0)) [
            | inl e ↦ absurd (no_error (rw (p.1, e, resolve) at h))
            | inr e ↦ absurd (no_known q.0 (rw (p.1, e, q.1, resolve) at h))
          ]
        ]
      ]
    where
      no_error : Path Resolved unknown key_error → ⊥
      no_error e = cc

      no_known : (info : ModelInfo) → Path Resolved (known info) key_error → ⊥
      no_known info e = cc
