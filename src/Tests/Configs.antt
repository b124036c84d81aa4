-- ===== src/Tests/Configs.antt =====
-- The configuration of a new installation.
use fava_trails.Base.{String, ◌≡◌, false, refl, [], none, some}
use fava_trails.Base.Number.{finite, is_finite, float_le}
use fava_trails.Base.Result.{ok}
use fava_trails.Base.Text.{is_empty}
use fava_trails.Models.Config.{
  GlobalConfig, Url, default_trust_gate_model, validate_config, resolve_trust_gate_api_key_env,
  validate_trust_gate_runtime,
}
use fava_trails.Models.Config.Runtime.{IsValid, IsChecked, runtime-validate_config}

abbrev pub config : GlobalConfig
config = record {
  trails_dir = "trails";
  remote_url = none;
  push_strategy = "manual";
  trust_gate = "decisions";
  trust_gate_provider = "openrouter";
  trust_gate_model = default_trust_gate_model;
  trust_gate_api_base = some "http://localhost:80/v1";
  trust_gate_api_key_env = none;
  openrouter_api_key_env = "OPENROUTER_API_KEY";
  trust_gate_api_key_file = none;
  trust_gate_extra_body = [];
  trust_gate_timeout_secs = 120;
  trust_gate_decisions_config = record {
    trust_gate_noul_question = "Promote?";
    trust_gate_noul_threshold = finite 9 4;
  };
  tool_timeout_secs = 300;
  hooks = [];
  stated = [];
}

abbrev urlparse : String → Url
urlparse s = record { hostname = some "localhost"; port_raises = false }

valid : validate_config urlparse config ≡ ok config
unfolding validate_config is_finite float_le
valid = refl

runtime-validate_config_example :
    IsValid config
    × (is_empty (resolve_trust_gate_api_key_env config) ≡ false)
    × IsChecked config (validate_trust_gate_runtime config)
runtime-validate_config_example = runtime-validate_config urlparse config config valid
