-- ===== src/Config/Scope.antt =====
-- `sanitize_scope_path` of src/fava_trails/config.py.
use Prim.Native.Char.{Char, code}
use fava_trails.Base.{
  ℕ, String, ◌≡◌, refl, Bool, true, false, not, ◌&&◌, ◌||◌, List, [], ◌∷◌, nat_eq, leb,
  if◌then◌else◌, all_of,
}
use fava_trails.Base.Result.{Result, ok, err, ◌>>◌, raise_if}
use fava_trails.Base.Text.{is_empty, has_infix}

pub data ScopeError : Type 0 where
  empty_scope traversal invalid_segment : ScopeError

is_alphanumeric : ℕ → Bool
is_alphanumeric n =
    (leb b'a' n && leb n b'z') || (leb b'A' n && leb n b'Z') || (leb b'0' n && leb n b'9')

is_segment_char : ℕ → Bool
unfolding is_alphanumeric
is_segment_char n = is_alphanumeric n || nat_eq n b'.' || nat_eq n b'_' || nat_eq n b'-'

-- `[a-zA-Z0-9._-]*$`, where `$` also matches before a newline that ends the text
segment_rest : String → Bool
unfolding is_segment_char
segment_rest String.[] = true
segment_rest (String.◌∷◌ c s) =
    let others = segment_rest s in
    (is_segment_char (code c) && others) || (nat_eq (code c) 10 && is_empty s)

-- `_SCOPE_SEGMENT_RE.match`, of a segment that is not empty
unfoldable pub is_segment : String → Bool
unfolding segment_rest is_alphanumeric
is_segment String.[] = false
is_segment (String.◌∷◌ c s) = is_alphanumeric (code c) && segment_rest s

-- a character in front of the first of the segments
push : Char → List String → List String
push c [] = String.◌∷◌ c "" ∷ []
push c (s ∷ ss) = String.◌∷◌ c s ∷ ss

-- `name.split("/")`
unfoldable pub split_slash : String → List String
unfolding push
split_slash String.[] = "" ∷ []
split_slash (String.◌∷◌ c s) =
    let rest = split_slash s in if nat_eq (code c) b'/' then "" ∷ rest else push c rest

-- `name.strip("/")`
lstrip_slash : String → String
lstrip_slash String.[] = ""
lstrip_slash (String.◌∷◌ c s) =
    let rest = lstrip_slash s in if nat_eq (code c) b'/' then rest else String.◌∷◌ c s

rstrip_slash : String → String
rstrip_slash String.[] = ""
rstrip_slash (String.◌∷◌ c s) =
    let rest = rstrip_slash s in
    if nat_eq (code c) b'/' && is_empty rest then "" else String.◌∷◌ c rest

unfoldable pub strip_slash : String → String
unfolding lstrip_slash rstrip_slash
strip_slash s = lstrip_slash (rstrip_slash s)

unfoldable pub sanitize_scope_path : String → Result ScopeError String
unfolding strip_slash split_slash is_segment
sanitize_scope_path name = do
  raise_if (is_empty name) empty_scope
  raise_if (has_infix "\\" name || has_infix ".." name) traversal
  raise_if (is_empty (strip_slash name)) empty_scope
  raise_if (not (all_of is_segment (split_slash (strip_slash name)))) invalid_segment
  ok (strip_slash name)

-- the newline that `$` lets through
trailing_newline : sanitize_scope_path "mw\n" ≡ ok "mw\n"
unfolding sanitize_scope_path has_infix
trailing_newline = refl

nested_scope : sanitize_scope_path "/mw/eng/fava-trails/" ≡ ok "mw/eng/fava-trails"
unfolding sanitize_scope_path has_infix
nested_scope = refl

hidden_segment : sanitize_scope_path "mw/.jj" ≡ err invalid_segment
unfolding sanitize_scope_path has_infix
hidden_segment = refl
