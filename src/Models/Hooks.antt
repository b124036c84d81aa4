-- ===== src/Models/Hooks.antt =====
-- `HookEntry` of src/fava_trails/models.py.
use fava_trails.Base.{
  String, Bool, not, ◌&&◌, Option, List, [], ◌∷◌, ◌==◌, all_of, contains, or_else,
}
use fava_trails.Base.Number.{ℤ}
use fava_trails.Base.Dict.{Dict}
use fava_trails.Base.Result.{Result, ok, ◌>>◌, raise_if}
use fava_trails.Base.Text.{is_empty}
use fava_trails.Base.Value.{Value}

abbrev pub known_hooks : List String
known_hooks =
    "before_save" ∷ "after_save" ∷ "before_propose" ∷ "after_propose" ∷ "after_supersede"
    ∷ "on_recall" ∷ "on_recall_mix" ∷ "on_startup" ∷ []

pub record HookEntry : Type 0 where
  pub module_name : Option String
  pub path : Option String
  pub points : List String
  pub order : ℤ
  pub fail_mode : String
  pub config : Dict Value

-- the ValueErrors of the validators
pub data HookEntryError : Type 0 where
  unknown_point bad_fail_mode two_sources no_source : HookEntryError

unfoldable pub is_set : Option String → Bool
is_set s = not (is_empty (or_else s ""))

unfoldable pub exactly_one_source : HookEntry → Result HookEntryError HookEntry
unfolding is_set
exactly_one_source e = do
  raise_if (is_set e.module_name && is_set e.path) two_sources
  raise_if (not (is_set e.module_name) && not (is_set e.path)) no_source
  ok e

-- the validators, those of the fields first
unfoldable pub validate_entry : HookEntry → Result HookEntryError HookEntry
unfolding exactly_one_source
validate_entry e = do
  raise_if (not (all_of (λ p. contains p known_hooks) e.points)) unknown_point
  raise_if (not (e.fail_mode == "open") && not (e.fail_mode == "closed")) bad_fail_mode
  exactly_one_source e
