-- ===== src/Tests/Registries.antt =====
-- Hooks that are loaded from three entries, the last of which has no module.
use fava_trails.Base.{
  String, ◌≡◌, Option, false, not, refl, List, [], ◌∷◌, none, some, ◌==◌, if◌then◌else◌, is_some,
  any_of, keep, or_else,
}
use fava_trails.Base.Number.{ℤ, pos}
use fava_trails.Base.Dict.{Dict, lookup, insert}
use fava_trails.Models.Hooks.{HookEntry}
use fava_trails.Hooks.Pipeline.{HookSpec, nothing}
use fava_trails.Hooks.Registry.{
  HookModule, absent, coroutine, get_hooks, sort_specs, load_from_entries,
}
use fava_trails.Hooks.Registry.Sorting.{has_order, IsSorted}
use fava_trails.Hooks.Registry.Reference.{
  at_point, declared, fails_closed, load_from_entries-IsSorted, load_from_entries-fails_closed,
}

abbrev entry : String → ℤ → HookEntry
entry name order = record {
  module_name = some name;
  path = none;
  points = "on_recall" ∷ "before_save" ∷ [];
  order = order;
  fail_mode = "open";
  config = [];
}

abbrev entries : List HookEntry
entries = entry "late" (pos 60) ∷ entry "early" (pos 10) ∷ entry "missing" (pos 0) ∷ []

abbrev found : HookModule
found = record {
  configure_raises = λ c. false;
  attribute = λ c point. if point == "on_recall" then coroutine (λ e. nothing) else absent;
}

abbrev resolve_module : HookEntry → Option HookModule
resolve_module e = if or_else e.module_name "" == "missing" then none else some found

abbrev hooks : Dict (List HookSpec)
hooks = or_else (load_from_entries [] resolve_module entries) []

loaded : load_from_entries [] resolve_module entries ≡ some hooks
unfolding load_from_entries lookup insert
loaded = refl

load_from_entries-IsSorted_example :
    (get_hooks "on_recall" hooks
      ≡ sort_specs (at_point "on_recall" (declared [] resolve_module entries)))
    × IsSorted (get_hooks "on_recall" hooks)
    × ((k : ℤ)
        → keep (has_order k) (get_hooks "on_recall" hooks)
          ≡ keep (has_order k) (at_point "on_recall" (declared [] resolve_module entries)))
load_from_entries-IsSorted_example =
    load_from_entries-IsSorted [] resolve_module "on_recall" entries hooks loaded

abbrev strict : List HookEntry
strict = record (entry "missing" (pos 0)) { fail_mode = "closed" } ∷ []

load_from_entries-fails_closed_example :
    is_some (load_from_entries [] resolve_module strict)
    ≡ not (any_of (fails_closed [] resolve_module) strict)
load_from_entries-fails_closed_example = load_from_entries-fails_closed [] resolve_module strict
