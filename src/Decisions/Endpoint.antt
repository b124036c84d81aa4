-- ===== src/Decisions/Endpoint.antt =====
-- The endpoints of src/fava_trails/decisions.py.
use Prim.Native.Char.{code}
use fava_trails.Base.{
  String, ◌≡◌, refl, Bool, true, ◌&&◌, ◌||◌, Option, none, some, [], ◌∷◌, ◌==◌, if◌then◌else◌,
  or_else, nat_eq, is_some,
}
use fava_trails.Base.Text.{concat, is_empty, strip, strip_prefix}

abbrev pub default_decisions_api_base : String
default_decisions_api_base = "https://openrouter.ai/api"

abbrev pub decisions_api_path : String
decisions_api_path = "/alpha/decisions"

abbrev pub local_decisions_provider : String
local_decisions_provider = "openai"

abbrev pub local_decisions_api_path : String
local_decisions_api_path = "/v1/systemone"

-- `s.rstrip("/")`
unfoldable pub rstrip_slashes : String → String
rstrip_slashes String.[] = ""
rstrip_slashes (String.◌∷◌ c s) =
    let rest = rstrip_slashes s in
    if nat_eq (code c) b'/' && is_empty rest then "" else String.◌∷◌ c rest

-- `s.endswith(suffix)`
unfoldable pub ends_with : String → String → Bool
ends_with suffix String.[] = suffix == ""
ends_with suffix (String.◌∷◌ c s) =
    let later = ends_with suffix s in (String.◌∷◌ c s == suffix) || later

unfoldable pub uses_local_decisions_backend : Option String → Bool
uses_local_decisions_backend provider = or_else provider "" == local_decisions_provider

unfoldable pub join_local_decisions_endpoint : String → String
unfolding rstrip_slashes ends_with
join_local_decisions_endpoint api_base =
    let base = rstrip_slashes api_base in
    if ends_with "/v1" base
    then concat (base ∷ "/systemone" ∷ [])
    else concat (base ∷ local_decisions_api_path ∷ [])

-- `not s` for a text that may be missing
abbrev pub is_blank : Option String → Bool
is_blank none = true
is_blank (some s) = is_empty s

-- `api_base or DEFAULT_DECISIONS_API_BASE`
abbrev pub base_or_default : Option String → String
base_or_default api_base =
    if is_blank api_base then default_decisions_api_base else or_else api_base ""

unfoldable pub decisions_endpoint : Option String → String → String
unfolding uses_local_decisions_backend join_local_decisions_endpoint rstrip_slashes strip
decisions_endpoint api_base provider =
    if uses_local_decisions_backend (some provider)
    then (if is_blank api_base || is_empty (strip (or_else api_base ""))
        then "configured local Unsloth Decision API (/v1/systemone)"
        else join_local_decisions_endpoint (or_else api_base ""))
    else concat (rstrip_slashes (base_or_default api_base) ∷ decisions_api_path ∷ [])

data_categories : String
data_categories =
    "the full scope-resolved Trust Gate prompt, the full candidate thought body, the selected metadata fields (thought_id, source_type, confidence, validation_status, and optional trail_name, parent_id, project, branch, tags), and the configured Noul question"

unfoldable pub describe_egress : Option String → String → String
unfolding decisions_endpoint data_categories
describe_egress api_base provider =
    let endpoint = decisions_endpoint api_base provider in
    if uses_local_decisions_backend (some provider)
    then concat (
        data_categories ∷ " are transmitted to the configured local Unsloth Decision API ("
        ∷ endpoint ∷ ")" ∷ [])
    else if is_some (strip_prefix default_decisions_api_base endpoint)
    then concat (
        data_categories ∷ " are transmitted to remote OpenRouter for Decisions review (" ∷ endpoint
        ∷ ")" ∷ [])
    else concat (
        data_categories ∷ " are transmitted to the configured Decisions endpoint (" ∷ endpoint ∷ ")"
        ∷ [])

-- a base with or without its `/v1`
joined_once :
    join_local_decisions_endpoint "http://h:1/v1/" ≡ join_local_decisions_endpoint "http://h:1"
unfolding join_local_decisions_endpoint
joined_once = refl
