-- ===== src/Hooks/Interpolation.antt =====
-- `_interpolate_env` of src/fava_trails/hook_manifest.py.
use Prim.Native.Char.{Char, code}
use fava_trails.Base.{
  ℕ, String, ◌≡◌, refl, Bool, not, ◌&&◌, ◌||◌, Option, none, some, [], ◌∷◌, leb, nat_eq,
  if◌then◌else◌,
}
use fava_trails.Base.Dict.{Dict, lookup}
use fava_trails.Base.Text.{concat, is_empty}
use fava_trails.Base.Value.{Value, str, list, dict, Items, nil, cons, Fields, end, field}

-- `[A-Za-z_]`
is_name_start : ℕ → Bool
is_name_start n = (leb b'a' n && leb n b'z') || (leb b'A' n && leb n b'Z') || nat_eq n b'_'

-- `[A-Za-z0-9_]`
is_name_char : ℕ → Bool
unfolding is_name_start
is_name_char n = is_name_start n || (leb b'0' n && leb n b'9')

-- How far a match of `${NAME}` has come: nothing of it, a dollar sign, or the brace and a part of
-- the name.
pub data Matching : Type 0 where
  outside dollar : Matching
  inside : String → Matching

-- the text of a match that fails
text_of : Matching → String
text_of outside = ""
text_of dollar = "$"
text_of (inside name) = concat ("${" ∷ name ∷ [])

-- `c` goes on a name
is_going_on : String → Char → Bool
unfolding is_name_start is_name_char
is_going_on name c = if is_empty name then is_name_start (code c) else is_name_char (code c)

-- what a character leads to: the state of the match, and what it replaces or copies
record Step : Type 0 where
  pub next : Matching
  pub copied : String
  pub replaced : Option String

restart : Matching → Char → Step
unfolding text_of
restart m c =
    if nat_eq (code c) b'$'
    then record { next = dollar; copied = text_of m; replaced = none }
    else record {
      next = outside;
      copied = concat (text_of m ∷ String.◌∷◌ c "" ∷ []);
      replaced = none;
    }

go_on : String → Step
go_on name = record { next = inside name; copied = ""; replaced = none }

-- the codes of the braces are 123 and 125
step : Matching → Char → Step
unfolding restart go_on is_going_on
step outside c = restart outside c
step dollar c = if nat_eq (code c) 123 then go_on "" else restart dollar c
step (inside name) c =
    if is_going_on name c
    then go_on (concat (name ∷ String.◌∷◌ c "" ∷ []))
    else if nat_eq (code c) 125 && not (is_empty name)
    then record { next = outside; copied = ""; replaced = some name }
    else restart (inside name) c

module _ (environ : Dict String) where
  value_of : Option String → Option String
  unfolding lookup
  value_of none = some ""
  value_of (some name) = lookup name environ

  joined : String → Option String → Option String → Option String
  joined copied (some value) (some rest) = some (concat (copied ∷ value ∷ rest ∷ []))
  joined copied _ _ = none

  -- `_ENV_VAR_RE.sub(_replace, s)` in one pass, from a match that has begun; `none` is where it raises
  unfoldable pub substitute : Matching → String → Option String
  unfolding text_of step value_of joined
  substitute m String.[] = some (text_of m)
  substitute m (String.◌∷◌ c s) =
      let at = step m c in joined at.copied (value_of at.replaced) (substitute at.next s)

  unfoldable mutual
    unfolding substitute

    pub interpolate_env : Value → Option Value
    interpolate_env (str s) = elim (substitute outside s) [ none ↦ none | some t ↦ some (str t) ]
    interpolate_env (dict fields) = elim (interpolate_fields fields) [
      | none ↦ none
      | some fs ↦ some (dict fs)
    ]
    interpolate_env (list items) = elim (interpolate_items items) [
      | none ↦ none
      | some is ↦ some (list is)
    ]
    interpolate_env v = some v

    pub interpolate_items : Items → Option Items
    interpolate_items nil = some nil
    interpolate_items (cons v rest) = elim (interpolate_env v) [
      | none ↦ none
      | some w ↦ elim (interpolate_items rest) [ none ↦ none | some ws ↦ some (cons w ws) ]
    ]

    pub interpolate_fields : Fields → Option Fields
    interpolate_fields end = some end
    interpolate_fields (field k v rest) = elim (interpolate_env v) [
      | none ↦ none
      | some w ↦ elim (interpolate_fields rest) [ none ↦ none | some fs ↦ some (field k w fs) ]
    ]

runs :
    substitute (("HOME", "/root") ∷ []) outside "a $${HOME}/${HOME ${1}"
    ≡ some "a $/root/${HOME ${1}"
unfolding substitute lookup
runs = refl
