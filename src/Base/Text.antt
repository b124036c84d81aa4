-- ===== src/Base/Text.antt =====
-- The text operations of Python's `str` that the program uses.
use Prim.Native.Char.{Char, code}
use Prim.Native.String.{String}
use Prim.Native.Nat.{ℕ, zero, suc, ◌%◌, ◌/◌}
use mathlib.Core.Path.{◌≡◌, refl}
use mathlib.Core.Bool.{Bool, true, false, ◌||◌, ◌&&◌}
use mathlib.Core.Option.{Option, none, some}
use mathlib.Core.List.{List, [], ◌∷◌}
use fava_trails.Base.Tests.{leb, nat_eq, if◌then◌else◌}

-- `"".join(parts)`, which is how an f-string is written here
abbrev pub concat : List String → String
concat [] = ""
concat (s ∷ r) = Prim.Native.String.◌++◌ s (concat r)

digit_in : List String → ℕ → String
digit_in [] n = ""
digit_in (d ∷ _) zero = d
digit_in (_ ∷ ds) (suc n) = digit_in ds n

digit : ℕ → String
unfolding digit_in
digit = digit_in ("0" ∷ "1" ∷ "2" ∷ "3" ∷ "4" ∷ "5" ∷ "6" ∷ "7" ∷ "8" ∷ "9" ∷ [])

-- `str(n)` for an `n` of at most `size + 1` digits
unfoldable pub decimal : ℕ → ℕ → String
unfolding digit
decimal zero n = digit n
decimal (suc size) n =
    let before = decimal size (n / 10) in
    if leb n 9 then digit n else concat (before ∷ digit (n % 10) ∷ [])

-- `not s`
abbrev pub is_empty : String → Bool
is_empty String.[] = true
is_empty (String.◌∷◌ _ _) = false

-- `ch.isspace()` on one character
unfoldable pub is_space : Char → Bool
is_space c =
    let n = code c in
    (leb 9 n && leb n 13)
    || (leb 28 n && leb n 32)
    || nat_eq n 133
    || nat_eq n 160
    || nat_eq n 5760
    || (leb 8192 n && leb n 8202)
    || nat_eq n 8232
    || nat_eq n 8233
    || nat_eq n 8239
    || nat_eq n 8287
    || nat_eq n 12288

unfoldable pub lstrip : String → String
unfolding is_space
lstrip String.[] = ""
lstrip (String.◌∷◌ c s) = let rest = lstrip s in if is_space c then rest else String.◌∷◌ c s

-- a character is dropped when it is a space and all behind it was dropped
unfoldable pub rstrip : String → String
unfolding is_space
rstrip String.[] = ""
rstrip (String.◌∷◌ c s) =
    let rest = rstrip s in if is_space c && is_empty rest then "" else String.◌∷◌ c rest

-- `s.strip()`
unfoldable pub strip : String → String
unfolding lstrip rstrip
strip s = lstrip (rstrip s)

-- `s[len(p):]` if `s.startswith(p)`
unfoldable pub strip_prefix : String → String → Option String
strip_prefix String.[] s = some s
strip_prefix (String.◌∷◌ c p) String.[] = none
strip_prefix (String.◌∷◌ c p) (String.◌∷◌ d s) =
    if nat_eq (code c) (code d) then strip_prefix p s else none

-- `s.split(sep, 1)`: what stands before and behind the first `sep`, if there is one
unfoldable pub split_once : String → String → Option (String × String)
unfolding strip_prefix
split_once sep String.[] = elim (strip_prefix sep "") [ none ↦ none | some r ↦ some ("", r) ]
split_once sep (String.◌∷◌ c s) =
    let later = split_once sep s in
    elim (strip_prefix sep (String.◌∷◌ c s)) [
      | some r ↦ some ("", r)
      | none ↦ elim later [ none ↦ none | some (a, b) ↦ some (String.◌∷◌ c a, b) ]
    ]

-- `s.split(sep, 1)[0]`
unfoldable pub before_first : String → String → String
unfolding split_once
before_first sep s = elim (split_once sep s) [ none ↦ s | some (a, _) ↦ a ]

-- `sep in s`
unfoldable pub has_infix : String → String → Bool
unfolding split_once
has_infix sep s = elim (split_once sep s) [ none ↦ false | some _ ↦ true ]

strip_runs : strip "  a b " ≡ "a b"
unfolding strip
strip_runs = refl

before_first_runs : before_first "/thoughts/" "mw/eng/thoughts/drafts/1.md" ≡ "mw/eng"
unfolding before_first
before_first_runs = refl

decimal_runs : decimal 4 8080 ≡ "8080"
unfolding decimal
decimal_runs = refl
