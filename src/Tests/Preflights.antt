-- ===== src/Tests/Preflights.antt =====
-- The preflight on a nested value.
use fava_trails.Base.{String, Bool, ◌≡◌, ◌↔◌, ◌≤◌, none, some, refl, ◌==◌}
use fava_trails.Base.Value.{Value, str, list, dict, nil, cons, field, end}
use fava_trails.Preflight.{find_obvious_secret_in_value, max_walk_depth}
use fava_trails.Preflight.Coverage.{texts, depth, IsClean, find_obvious_secret_in_value-IsClean}

-- a search that finds one text
abbrev search : String → String → Bool
search regex text = text == "AKIA"

abbrev nested : Value
nested = dict (field "keys" (list (cons (str "AKIA") nil)) end)

nested_found : find_obvious_secret_in_value search nested ≡ some "pem_private_key"
unfolding find_obvious_secret_in_value
nested_found = refl

find_obvious_secret_in_value-IsClean_example :
    (find_obvious_secret_in_value search nested ≡ none)
    ↔ (IsClean search (texts nested) × (depth nested ≤ max_walk_depth))
find_obvious_secret_in_value-IsClean_example = find_obvious_secret_in_value-IsClean search nested
