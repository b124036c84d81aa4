-- ===== src/Hooks/Registry.antt =====
-- `HookRegistry` of src/fava_trails/hook_manifest.py.
pub mod Sorting
pub mod Reference
use fava_trails.Base.{
  ℕ, String, ◌≡◌, refl, Bool, true, false, not, ◌&&◌, ◌||◌, Option, none, some, List, [], ◌∷◌, ◌++◌,
  ◌==◌, if◌then◌else◌, or_else,
}
use fava_trails.Base.Number.{Float, finite, int_le}
use fava_trails.Base.Dict.{Dict, lookup, insert}
use fava_trails.Base.Text.{is_empty}
use fava_trails.Base.Value.{Value, dict, fields_of, entries}
use fava_trails.Models.Hooks.{HookEntry}
use fava_trails.Hooks.Actions.{HookEvent}
use fava_trails.Hooks.Pipeline.{HookSpec, HookReturn}
use fava_trails.Hooks.Interpolation.{interpolate_env}

-- DEFAULT_TIMEOUTS
abbrev pub default_timeouts : Dict Float
default_timeouts =
    ("on_recall", finite 2 0)
    ∷ ("on_recall_mix", finite 2 0)
    ∷ ("before_save", finite 5 0)
    ∷ ("after_save", finite 5 0)
    ∷ ("before_propose", finite 5 0)
    ∷ ("after_propose", finite 5 0)
    ∷ ("after_supersede", finite 5 0)
    ∷ ("on_startup", finite 10 0)
    ∷ []

-- what `getattr(mod, point, None)` is
pub data Attribute : Type 0 where
  absent synchronous : Attribute
  coroutine : (HookEvent → HookReturn) → Attribute

-- An imported module: whether `configure(config)` raises, and its attributes, which may depend on
-- the config that it was given.
pub record HookModule : Type 0 where
  pub configure_raises : Dict Value → Bool
  pub attribute : Dict Value → String → Attribute

unfoldable pub source_of : HookEntry → String
source_of e =
    if not (is_empty (or_else e.module_name ""))
    then or_else e.module_name ""
    else if not (is_empty (or_else e.path ""))
    then or_else e.path ""
    else "unknown"

-- `dict.setdefault(point, []).append(spec)`
unfoldable pub append_spec : HookSpec → Dict (List HookSpec) → Dict (List HookSpec)
unfolding lookup insert
append_spec spec hooks = insert spec.name (or_else (lookup spec.name hooks) [] ++ (spec ∷ [])) hooks

unfoldable pub append_specs : List HookSpec → Dict (List HookSpec) → Dict (List HookSpec)
unfolding append_spec
append_specs [] hooks = hooks
append_specs (s ∷ ss) hooks = append_specs ss (append_spec s hooks)

-- `list.sort(key=lambda s: s.order)`, which is stable
unfoldable pub insert_spec : HookSpec → List HookSpec → List HookSpec
insert_spec s [] = s ∷ []
insert_spec s (t ∷ ts) =
    let rest = insert_spec s ts in if int_le s.order t.order then s ∷ t ∷ ts else t ∷ rest

unfoldable pub sort_specs : List HookSpec → List HookSpec
unfolding insert_spec
sort_specs [] = []
sort_specs (s ∷ ss) = insert_spec s (sort_specs ss)

unfoldable pub sort_all : Dict (List HookSpec) → Dict (List HookSpec)
unfolding sort_specs
sort_all [] = []
sort_all ((point, specs) ∷ rest) = (point, sort_specs specs) ∷ sort_all rest

unfoldable pub get_hooks : String → Dict (List HookSpec) → List HookSpec
unfolding lookup
get_hooks point hooks = or_else (lookup point hooks) []

-- The process's environment and the import of an entry's module, which may raise, are arguments.
module _ (environ : Dict String) (resolve_module : HookEntry → Option HookModule) where
  unfoldable pub spec_of : HookEntry → Dict Value → String → (HookEvent → HookReturn) → HookSpec
  unfolding source_of lookup
  spec_of e config point fn = record {
    name = point;
    fn = fn;
    fail_mode = e.fail_mode;
    timeout = or_else (lookup point default_timeouts) (finite 5 0);
    order = e.order;
    config = config;
    source = source_of e;
  }

  -- the loop over the points: what is appended, in order
  unfoldable pub specs_of : HookEntry → HookModule → Dict Value → List String → List HookSpec
  unfolding spec_of
  specs_of e m config [] = []
  specs_of e m config (point ∷ points) =
      let rest = specs_of e m config points in
      elim (m.attribute config point) [
        | absent ↦ rest
        | synchronous ↦ rest
        | coroutine fn ↦ spec_of e config point fn ∷ rest
      ]

  config_of : Option Value → Option (Dict Value)
  unfolding entries
  config_of (some (dict fields)) = some (entries fields)
  config_of _ = none

  configured : HookEntry → HookModule → Dict Value → Option (List HookSpec)
  unfolding specs_of
  configured e m config =
      if m.configure_raises config then none else some (specs_of e m config e.points)

  imported : HookEntry → Option HookModule → Dict Value → Option (List HookSpec)
  unfolding configured
  imported e none config = none
  imported e (some m) config = configured e m config

  with_config : HookEntry → Option (Dict Value) → Option (List HookSpec)
  unfolding imported
  with_config e none = none
  with_config e (some config) = imported e (resolve_module e) config

  -- the hooks of an entry, or `none` where one of its steps raises
  unfoldable pub load_entry : HookEntry → Option (List HookSpec)
  unfolding config_of with_config interpolate_env fields_of
  load_entry e = with_config e (config_of (interpolate_env environ (dict (fields_of e.config))))

  -- the loop over the entries; `none` is `raise SystemExit(1)`
  unfoldable pub load_entries :
      List HookEntry → Dict (List HookSpec) → Option (Dict (List HookSpec))
  unfolding load_entry append_specs
  load_entries [] hooks = some hooks
  load_entries (e ∷ rest) hooks =
      let skipped = load_entries rest hooks in
      elim (load_entry e) [
        | none ↦ if e.fail_mode == "closed" then none else skipped
        | some specs ↦ load_entries rest (append_specs specs hooks)
      ]

  unfoldable pub load_from_entries : List HookEntry → Option (Dict (List HookSpec))
  unfolding load_entries sort_all
  load_from_entries declared = elim (load_entries declared []) [
    | none ↦ none
    | some hooks ↦ some (sort_all hooks)
  ]
