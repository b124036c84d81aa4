-- ===== src/Hooks/Registry/Reference.antt =====
-- The hooks of a lifecycle point, as `load_from_entries` and `get_hooks` of
-- src/fava_trails/hook_manifest.py give them.
use mathlib.Core.Path.{subst}
use text.Mathlib.TextEquality.{eq_iff}
use mathlib.Core.List.{append_assoc, append-nil}
use fava_trails.Base.{
  String, ◌≡◌, refl, sym, ap, ◌∙◌, inl, inr, Bool, not, ◌&&◌, Option, some, List, [], ◌∷◌, ◌++◌,
  ◌==◌, arith, or_else, keep, any_of, Bool-cases, Option-cases, is_some,
}
use fava_trails.Base.Number.{ℤ}
use fava_trails.Base.Dict.{Dict, lookup, lookup-insert}
use fava_trails.Models.Hooks.{HookEntry}
use fava_trails.Hooks.Pipeline.{HookSpec}
use fava_trails.Hooks.Registry.Sorting.{has_order, IsSorted, sort_specs-keep, sort_specs-IsSorted}
use fava_trails.Hooks.Registry.{
  HookModule, append_spec, sort_specs, sort_all, get_hooks, load_entry, append_specs, load_entries,
  load_from_entries,
}

-- the hooks of a point, of those in a list
abbrev pub at_point : String → List HookSpec → List HookSpec
at_point point = keep (λ s. s.name == point)

get_hooks-append_spec :
    (point : String) (s : HookSpec) (hooks : Dict (List HookSpec))
    → get_hooks point (append_spec s hooks) ≡ get_hooks point hooks ++ at_point point (s ∷ [])
unfolding get_hooks append_spec
get_hooks-append_spec point s hooks =
    let at = lookup-insert s.name point (or_else (lookup s.name hooks) [] ++ (s ∷ [])) hooks in
    elim (Bool-cases (s.name == point)) [
      | inl e ↦
          let same : s.name ≡ point = ground (arith, e, eq_iff s.name point) in
          ap (λ o. or_else o []) at ∙ rw e (ap (λ p. or_else (lookup p hooks) [] ++ (s ∷ [])) same)
      | inr e ↦
          ap (λ o. or_else o []) at ∙ rw e (sym (append-nil (or_else (lookup point hooks) [])))
    ]

keep-append :
    (point : String) (xs ys : List HookSpec)
    → at_point point (xs ++ ys) ≡ at_point point xs ++ at_point point ys
keep-append point [] ys = refl
keep-append point (x ∷ xs) ys = elim (Bool-cases (x.name == point)) [
  | inl e ↦ rw e (ap (λ r. x ∷ r) (keep-append point xs ys))
  | inr e ↦ rw e (keep-append point xs ys)
]

get_hooks-append_specs :
    (point : String) (ss : List HookSpec) (hooks : Dict (List HookSpec))
    → get_hooks point (append_specs ss hooks) ≡ get_hooks point hooks ++ at_point point ss
unfolding append_specs
get_hooks-append_specs point [] hooks = sym (append-nil (get_hooks point hooks))
get_hooks-append_specs point (s ∷ ss) hooks =
    get_hooks-append_specs point ss (append_spec s hooks)
    ∙ ap (λ x. x ++ at_point point ss) (get_hooks-append_spec point s hooks)
    ∙ append_assoc (get_hooks point hooks) (at_point point (s ∷ [])) (at_point point ss)
    ∙ ap (λ x. get_hooks point hooks ++ x) (sym (keep-append point (s ∷ []) ss))

get_hooks-sort_all :
    (point : String) (hooks : Dict (List HookSpec))
    → get_hooks point (sort_all hooks) ≡ sort_specs (get_hooks point hooks)
unfolding get_hooks sort_all sort_specs lookup
get_hooks-sort_all point [] = refl
get_hooks-sort_all point ((j, specs) ∷ rest) = elim (Bool-cases (j == point)) [
  | inl e ↦ rw e refl
  | inr e ↦ rw e (get_hooks-sort_all point rest)
]

get_hooks-nil : (point : String) → get_hooks point [] ≡ []
unfolding get_hooks lookup
get_hooks-nil point = refl

module _ (environ : Dict String) (resolve_module : HookEntry → Option HookModule) where
  -- what the entries declare and their modules have, in their order
  pub declared : List HookEntry → List HookSpec
  declared [] = []
  declared (e ∷ rest) = or_else (load_entry environ resolve_module e) [] ++ declared rest

  -- An entry that must load, and does not.
  abbrev pub fails_closed : HookEntry → Bool
  fails_closed e = not (is_some (load_entry environ resolve_module e)) && e.fail_mode == "closed"

  load_entries-declared :
      (point : String) (es : List HookEntry) (hooks result : Dict (List HookSpec))
      → load_entries environ resolve_module es hooks ≡ some result
      → get_hooks point result ≡ get_hooks point hooks ++ at_point point (declared es)
  unfolding load_entries declared
  load_entries-declared point [] hooks result h =
      let same : hooks ≡ result = ground (arith, h) in
      ap (get_hooks point) (sym same) ∙ sym (append-nil (get_hooks point hooks))
  load_entries-declared point (e ∷ es) hooks result h =
      elim (Option-cases (load_entry environ resolve_module e)) [
        | inr p ↦
            load_entries-declared point es (append_specs p.0 hooks) result
              (rw (p.1, load_entries) at h)
            ∙ ap (λ x. x ++ at_point point (declared es)) (get_hooks-append_specs point p.0 hooks)
            ∙ append_assoc (get_hooks point hooks) (at_point point p.0)
                (at_point point (declared es))
            ∙ ap (λ x. get_hooks point hooks ++ x)
                (sym (keep-append point p.0 (declared es))
                  ∙ ap (λ o. at_point point (or_else o [] ++ declared es)) (sym p.1))
        | inl n ↦ elim (Bool-cases (e.fail_mode == "closed")) [
          | inl c ↦ ground (arith, rw (n, c, load_entries) at h)
          | inr c ↦
              load_entries-declared point es hooks result (rw (n, c, load_entries) at h)
              ∙ ap (λ x. get_hooks point hooks ++ x)
                  (ap (λ o. at_point point (or_else o [] ++ declared es)) (sym n))
        ]
      ]

  load_entries-fails_closed :
      (es : List HookEntry) (hooks : Dict (List HookSpec))
      → is_some (load_entries environ resolve_module es hooks) ≡ not (any_of fails_closed es)
  unfolding load_entries
  load_entries-fails_closed [] hooks = refl
  load_entries-fails_closed (e ∷ es) hooks =
      elim (Option-cases (load_entry environ resolve_module e)) [
        | inr p ↦ rw (p.1, load_entries) (load_entries-fails_closed es (append_specs p.0 hooks))
        | inl n ↦ elim (Bool-cases (e.fail_mode == "closed")) [
          | inl c ↦ rw (n, c, load_entries) refl
          | inr c ↦ rw (n, c, load_entries) (load_entries-fails_closed es hooks)
        ]
      ]

  -- The loaded hooks of each point are those that the entries declare for it and their modules have,
  -- sorted by their order, and those of the same order as they were declared.
  pub load_from_entries-IsSorted :
      (point : String) (es : List HookEntry) (hooks : Dict (List HookSpec))
      → load_from_entries environ resolve_module es ≡ some hooks
      → (get_hooks point hooks ≡ sort_specs (at_point point (declared es)))
        × IsSorted (get_hooks point hooks)
        × ((k : ℤ)
            → keep (has_order k) (get_hooks point hooks)
              ≡ keep (has_order k) (at_point point (declared es)))
  unfolding load_from_entries
  load_from_entries-IsSorted point es hooks h =
      elim (Option-cases (load_entries environ resolve_module es [])) [
        | inl n ↦ ground (arith, rw (n, load_from_entries) at h)
        | inr p ↦
            let same : sort_all p.0 ≡ hooks = ground (arith, rw (p.1, load_from_entries) at h) in
            let all = at_point point (declared es) in
            let whole : get_hooks point hooks ≡ sort_specs all =
              ap (get_hooks point) (sym same)
              ∙ get_hooks-sort_all point p.0
              ∙ ap sort_specs (load_entries-declared point es [] p.0 p.1 ∙ none_before all) in
            (
              whole,
              subst IsSorted (sym whole) (sort_specs-IsSorted all),
              λ k. ap (keep (has_order k)) whole ∙ sort_specs-keep k all,
            )
      ]
    where
      none_before : (all : List HookSpec) → get_hooks point [] ++ all ≡ all
      none_before all = rw (get_hooks-nil point) refl

  -- Loading raises exactly where an entry whose failures are closed does not load: a config that
  -- cannot be interpolated, a module that cannot be imported, or a `configure` that raises.
  pub load_from_entries-fails_closed :
      (es : List HookEntry)
      → is_some (load_from_entries environ resolve_module es) ≡ not (any_of fails_closed es)
  unfolding load_from_entries
  load_from_entries-fails_closed es =
      elim (Option-cases (load_entries environ resolve_module es [])) [
        | inl n ↦ rw (n, load_from_entries) (ap is_some (sym n) ∙ load_entries-fails_closed es [])
        | inr p ↦
            rw (p.1, load_from_entries) (ap is_some (sym p.1) ∙ load_entries-fails_closed es [])
      ]
