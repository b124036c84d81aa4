-- ===== src/Trail/Paths.antt =====
-- Where thoughts lie, and how an id is resolved to a file (src/fava_trails/trail.py), and the
-- allowed namespaces (src/fava_trails/config.py).
use Prim.Native.Char.{code}
use fava_trails.Base.{
  ℕ, suc, String, ◌≡◌, Bool, true, ◌&&◌, Option, none, some, List, [], ◌∷◌, arith, ◌==◌, nat_eq,
  ltb, if◌then◌else◌, contains, is_some, Bool-cases, inl, inr,
}
use fava_trails.Base.Dict.{Dict}
use fava_trails.Base.Text.{concat, strip_prefix}

-- VALID_NAMESPACES of config.py
abbrev pub valid_namespaces : List String
valid_namespaces =
    "drafts" ∷ "decisions" ∷ "observations" ∷ "intents" ∷ "preferences" ∷ "preferences/client"
    ∷ "preferences/firm" ∷ []

-- `sanitize_namespace` raises where this is false
unfoldable pub is_valid_namespace : String → Bool
is_valid_namespace ns = contains ns valid_namespaces

-- what stands behind the last slash
after_slash : String → String → String
after_slash String.[] last = last
after_slash (String.◌∷◌ c s) last = after_slash s (if nat_eq (code c) b'/' then s else last)

-- without a final `.md`
drop_md : String → String
drop_md String.[] = ""
drop_md (String.◌∷◌ c s) =
    let rest = drop_md s in if String.◌∷◌ c s == ".md" then "" else String.◌∷◌ c rest

-- `p.stem`, of a path that the glob `*.md` met
unfoldable pub stem : String → String
unfolding after_slash drop_md
stem path = drop_md (after_slash path path)

text_length : String → ℕ
text_length String.[] = 0
text_length (String.◌∷◌ _ s) = suc (text_length s)

-- A trail: its scope, and its directory below the repository's root.
pub record Trail : Type 0 where
  pub name : String
  pub directory : String

-- `_thought_path`
unfoldable pub thought_path : Trail → String → String → String
thought_path t id namespace =
    concat (t.directory ∷ "/thoughts/" ∷ namespace ∷ "/" ∷ id ∷ ".md" ∷ [])

-- the paths that `glob("thoughts/**/*.md")` meets below the trail's directory
unfoldable pub is_below : Trail → (String → Bool) → String → Bool
unfolding strip_prefix
is_below t is_thought path =
    is_thought path && is_some (strip_prefix (concat (t.directory ∷ "/thoughts/" ∷ [])) path)

pub data Found : Type 0 where
  missing : Found
  found : String → Found
  ambiguous : List String → Found

module _ (below : String → Bool) (id : String) where
  -- the first exact match, which ends the traversal
  exact_match : Dict String → Option String
  unfolding stem
  exact_match [] = none
  exact_match ((path, _) ∷ files) =
      let later = exact_match files in if below path && stem path == id then some path else later

  prefix_matches : Dict String → List String
  unfolding stem
  prefix_matches [] = []
  prefix_matches ((path, _) ∷ files) =
      let later = prefix_matches files in
      if below path && is_some (strip_prefix id (stem path)) then path ∷ later else later

  only : List String → Found
  only [] = missing
  only (p ∷ []) = found p
  only (p ∷ q ∷ ps) = ambiguous (p ∷ q ∷ ps)

  -- `_find_thought_path`; ULIDs have 26 characters
  unfoldable pub find_thought_path : Dict String → Found
  unfolding exact_match prefix_matches only text_length
  find_thought_path files = elim (exact_match files) [
    | some path ↦ found path
    | none ↦ if ltb (text_length id) 26 then only (prefix_matches files) else missing
  ]

-- A full id is found at a file of that stem, whatever ids it is a prefix of.
stem-exact_match :
    (below : String → Bool) (id : String) (files : Dict String) (path : String)
    → exact_match below id files ≡ some path
    → (below path ≡ true) × ((stem path == id) ≡ true)
stem-exact_match below id [] path h = unfold exact_match in cc
stem-exact_match below id ((p, t) ∷ files) path h = elim (Bool-cases (below p && stem p == id)) [
  | inl e ↦ unfold exact_match in ground (arith, h, e)
  | inr e ↦ stem-exact_match below id files path (unfold exact_match in ground (arith, h, e))
]
