-- ===== src/Review/Address.antt =====
-- The address that src/fava_trails/trust_gate.py discloses of a URL.
use fava_trails.Base.{
  ℕ, String, not, Option, none, some, List, [], ◌∷◌, ◌==◌, if◌then◌else◌, or_else, contains,
}
use fava_trails.Base.Text.{concat, is_empty, has_infix, decimal}

-- What `urlparse` makes of a URL. `port` is `none` where reading it raises.
pub record Url : Type 0 where
  pub scheme : String
  pub userinfo : Option String
  pub hostname : Option String
  pub port : Option (Option ℕ)
  pub path : String
  pub params : String
  pub query : String
  pub fragment : String

-- _DISCLOSABLE_API_BASE_PATHS
abbrev pub disclosable_api_base_paths : List String
disclosable_api_base_paths = "" ∷ "/" ∷ "/v1" ∷ "/v1/" ∷ []

unfoldable pub disclosed_path : String → String
disclosed_path path =
    if not (contains path disclosable_api_base_paths)
    then "/[redacted]"
    else if path == "/v1/"
    then "/v1"
    else if path == "/"
    then ""
    else path

invalid_base : String → String
invalid_base scheme =
    concat ((if is_empty scheme then "http" else scheme) ∷ "://[invalid-api-base]" ∷ [])

host_for_netloc : String → String
unfolding has_infix
host_for_netloc hostname =
    if has_infix ":" hostname then concat ("[" ∷ hostname ∷ "]" ∷ []) else hostname

netloc : String → Option ℕ → String
unfolding host_for_netloc decimal
netloc hostname none = host_for_netloc hostname
netloc hostname (some port) = concat (host_for_netloc hostname ∷ ":" ∷ decimal 4 port ∷ [])

-- `urlunparse` with a `netloc` and nothing behind the path
unparsed : String → String → String → String
unparsed scheme netloc_ path =
    if is_empty scheme
    then concat ("//" ∷ netloc_ ∷ path ∷ [])
    else concat (scheme ∷ "://" ∷ netloc_ ∷ path ∷ [])

unfoldable pub redacted_from : String → Option String → Option (Option ℕ) → String → String
unfolding invalid_base netloc unparsed
redacted_from scheme hostname port path =
    if is_empty (or_else hostname "") then invalid_base scheme else elim port [
      | none ↦ invalid_base scheme
      | some number ↦ unparsed scheme (netloc (or_else hostname "") number) path
    ]

-- what is made of a URL that was parsed
unfoldable pub redacted_url : Url → String
unfolding redacted_from disclosed_path
redacted_url u = redacted_from u.scheme u.hostname u.port (disclosed_path u.path)
