-- ===== src/Models/Config.antt =====
-- `GlobalConfig` and `TrustGateDecisionsConfig` of src/fava_trails/models.py.
pub mod Runtime
use fava_trails.Base.{
  ℕ, String, ◌≡◌, ◌⊎◌, inl, inr, refl, ap, ◌∙◌, Bool, true, false, not, ◌&&◌, ◌||◌, Option, none,
  some, List, [], ◌∷◌, ◌==◌, if◌then◌else◌, ltb, leb, or_else, arith, contains, is_some,
}
use fava_trails.Base.Number.{Float, is_finite, float_le, zero_float, one_float}
use fava_trails.Base.Dict.{Dict}
use fava_trails.Base.Result.{Result, ok, err, ◌>>=◌, ◌>>◌, raise_if}
use fava_trails.Base.Text.{is_empty, strip, strip_prefix, concat}
use fava_trails.Base.Value.{Value}
use fava_trails.Models.Hooks.{HookEntry}

pub record TrustGateDecisionsConfig : Type 0 where
  pub trust_gate_noul_question : String
  pub trust_gate_noul_threshold : Float

-- `stated` is pydantic's `model_fields_set`. The trails' own configurations are left out.
pub record GlobalConfig : Type 0 where
  pub trails_dir : String
  pub remote_url : Option String
  pub push_strategy : String
  pub trust_gate : String
  pub trust_gate_provider : String
  pub trust_gate_model : String
  pub trust_gate_api_base : Option String
  pub trust_gate_api_key_env : Option String
  pub openrouter_api_key_env : String
  pub trust_gate_api_key_file : Option String
  pub trust_gate_extra_body : Dict Value
  pub trust_gate_timeout_secs : ℕ
  pub trust_gate_decisions_config : TrustGateDecisionsConfig
  pub tool_timeout_secs : ℕ
  pub hooks : List HookEntry
  pub stated : List String

-- the ValueErrors of the validators and of the checks at startup
pub data ConfigError : Type 0 where
  blank_text bad_scheme no_hostname bad_port late_timeout : ConfigError
  infinite_threshold threshold_range empty_question : ConfigError
  empty_provider empty_model empty_key_env decisions_only_model : ConfigError

-- What `urlparse` makes of a URL: its hostname, and whether reading its port raises.
pub record Url : Type 0 where
  pub hostname : Option String
  pub port_raises : Bool

abbrev pub default_trust_gate_model : String
default_trust_gate_model = "~typesafe/jev-latest"

abbrev pub decisions_only_models : List String
decisions_only_models = default_trust_gate_model ∷ "typesafe/jev-1.13" ∷ []

unfoldable pub stripped : String → Result ConfigError String
unfolding strip
stripped v = if is_empty (strip v) then err blank_text else ok (strip v)

unfoldable pub optional_stripped : Option String → Result ConfigError (Option String)
unfolding stripped
optional_stripped none = ok none
optional_stripped (some v) = do s ← stripped v; ok (some s)

unfoldable pub check_threshold : Float → Result ConfigError Float
check_threshold v = do
  raise_if (not (is_finite v)) infinite_threshold
  raise_if (not (float_le zero_float v && float_le v one_float)) threshold_range
  ok v

unfoldable pub validate_decisions_config :
    TrustGateDecisionsConfig → Result ConfigError TrustGateDecisionsConfig
unfolding check_threshold strip
validate_decisions_config c = do
  threshold ← check_threshold c.trust_gate_noul_threshold
  ok (record {
    trust_gate_noul_question = strip c.trust_gate_noul_question;
    trust_gate_noul_threshold = threshold;
  })

unfoldable pub has_http_scheme : String → Bool
unfolding strip_prefix
has_http_scheme s = is_some (strip_prefix "http://" s) || is_some (strip_prefix "https://" s)

unfoldable pub is_late : ℕ → ℕ → Bool
is_late gate tool = ltb 0 gate && ltb 0 tool && leb tool gate

unfoldable pub validate_for_decisions_policy :
    TrustGateDecisionsConfig → Result ConfigError (Unit {0})
validate_for_decisions_policy c = raise_if (is_empty c.trust_gate_noul_question) empty_question

unfoldable pub decisions_policy_requires_noul_question :
    GlobalConfig → Result ConfigError (Unit {0})
unfolding validate_for_decisions_policy
decisions_policy_requires_noul_question c =
    if c.trust_gate == "decisions"
    then validate_for_decisions_policy c.trust_gate_decisions_config
    else ok tt

-- the validators of the model, in the order of its fields
unfoldable pub check_model : GlobalConfig → Result ConfigError GlobalConfig
unfolding is_late decisions_policy_requires_noul_question
check_model c = do
  raise_if (is_late c.trust_gate_timeout_secs c.tool_timeout_secs) late_timeout
  _ ← decisions_policy_requires_noul_question c
  ok c

-- `c` with the values that the validators of its fields return
abbrev pub normalized :
    GlobalConfig
    → String
    → String
    → Option String
    → Option String
    → String
    → Option String
    → TrustGateDecisionsConfig
    → GlobalConfig
normalized c provider model api_base api_key_env openrouter api_key_file decisions = record c {
  trust_gate_provider = provider;
  trust_gate_model = model;
  trust_gate_api_base = api_base;
  trust_gate_api_key_env = api_key_env;
  openrouter_api_key_env = openrouter;
  trust_gate_api_key_file = api_key_file;
  trust_gate_decisions_config = decisions;
}

module _ (urlparse : String → Url) where
  check_url : String → Result ConfigError String
  unfolding has_http_scheme
  check_url base = do
    raise_if (not (has_http_scheme base)) bad_scheme
    raise_if (is_empty (or_else (urlparse base).hostname "")) no_hostname
    raise_if (urlparse base).port_raises bad_port
    ok base

  unfoldable pub normalize_trust_gate_api_base : Option String → Result ConfigError (Option String)
  unfolding stripped check_url
  normalize_trust_gate_api_base none = ok none
  normalize_trust_gate_api_base (some v) = do base ← stripped v; url ← check_url base; ok (some url)

  -- Of the errors that pydantic collects, the first is given.
  unfoldable pub validate_config : GlobalConfig → Result ConfigError GlobalConfig
  unfolding stripped normalize_trust_gate_api_base optional_stripped validate_decisions_config
      check_model
  validate_config c = do
    provider ← stripped c.trust_gate_provider
    model ← stripped c.trust_gate_model
    api_base ← normalize_trust_gate_api_base c.trust_gate_api_base
    api_key_env ← optional_stripped c.trust_gate_api_key_env
    openrouter ← stripped c.openrouter_api_key_env
    api_key_file ← optional_stripped c.trust_gate_api_key_file
    decisions ← validate_decisions_config c.trust_gate_decisions_config
    check_model (normalized c provider model api_base api_key_env openrouter api_key_file decisions)

unfoldable pub resolve_trust_gate_api_key_env : GlobalConfig → String
resolve_trust_gate_api_key_env c =
    let own = or_else c.trust_gate_api_key_env "" in
    if is_empty own then c.openrouter_api_key_env else own

-- `policy or self.trust_gate`
unfoldable pub effective_policy : GlobalConfig → Option String → String
effective_policy c policy =
    let own = or_else policy "" in if is_empty own then c.trust_gate else own

unfoldable pub check_review_model_for_policy :
    GlobalConfig → Option String → Result ConfigError (Unit {0})
unfolding effective_policy
check_review_model_for_policy c policy =
    raise_if
      (effective_policy c policy == "llm-oneshot"
        && contains c.trust_gate_model decisions_only_models)
      decisions_only_model

-- whether `trust_gate_policy_note` gives its line
unfoldable pub has_policy_note : GlobalConfig → Option String → Bool
unfolding effective_policy
has_policy_note c policy =
    not (contains "trust_gate" c.stated)
    && (contains "trust_gate_provider" c.stated || contains "trust_gate_model" c.stated)
    && effective_policy c policy == c.trust_gate

unfoldable pub check_runtime : GlobalConfig → Result ConfigError String
unfolding decisions_policy_requires_noul_question check_review_model_for_policy
    resolve_trust_gate_api_key_env
check_runtime c = do
  raise_if (is_empty c.trust_gate_provider) empty_provider
  raise_if (is_empty c.trust_gate_model) empty_model
  _ ← decisions_policy_requires_noul_question c
  _ ← check_review_model_for_policy c none
  raise_if (is_empty (resolve_trust_gate_api_key_env c)) empty_key_env
  ok (resolve_trust_gate_api_key_env c)

unfoldable pub validate_trust_gate_runtime : GlobalConfig → Result ConfigError String
unfolding check_runtime resolve_trust_gate_api_key_env
validate_trust_gate_runtime c =
    if c.trust_gate == "llm-oneshot" || c.trust_gate == "decisions"
    then check_runtime c
    else ok (resolve_trust_gate_api_key_env c)
