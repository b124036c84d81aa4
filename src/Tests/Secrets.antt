-- ===== src/Tests/Secrets.antt =====
-- A key file, and bases with a token.
use fava_trails.Base.{
  String, ◌≡◌, ◌⊎◌, refl, true, false, none, some, [], or_else, ◌==◌, if◌then◌else◌,
}
use fava_trails.Base.Dict.{lookup}
use fava_trails.Base.Result.{ok}
use fava_trails.Base.Text.{is_empty, strip}
use fava_trails.Models.Config.{GlobalConfig, resolve_trust_gate_api_key_env}
use fava_trails.Credentials.{KeyFile, load_trust_gate_api_key}
use fava_trails.Credentials.Ownership.{IsPrivate, IsKey, load_trust_gate_api_key-IsPrivate}
use fava_trails.Review.Address.{Url, redacted_url, disclosed_path}
use fava_trails.Review.Egress.{describe_trust_gate_egress}
use fava_trails.Review.Egress.Disclosure.{
  IsSameDestination, IsStripped, with_base, describe_trust_gate_egress-same,
}
use fava_trails.Tests.Configs.{config}

abbrev with_file : GlobalConfig
with_file = record config { trust_gate_api_key_file = some "~/key" }

abbrev files : String → KeyFile
files path = record {
  is_link = some false;
  opened = some (record { is_regular = true; owner = 1000; mode = 33152; text = some "secret\n" });
}

loaded : load_trust_gate_api_key files (some 1000) [] with_file ≡ ok "secret"
unfolding load_trust_gate_api_key
loaded = refl

load_trust_gate_api_key-IsPrivate_example :
    ((is_empty (or_else with_file.trust_gate_api_key_file "") ≡ false)
      × IsPrivate (some 1000) (files (or_else with_file.trust_gate_api_key_file "")) "secret")
    ⊎ ((is_empty (or_else with_file.trust_gate_api_key_file "") ≡ true)
        × IsKey (or_else (lookup (resolve_trust_gate_api_key_env with_file) []) "") "secret")
load_trust_gate_api_key-IsPrivate_example =
    load_trust_gate_api_key-IsPrivate files (some 1000) [] with_file "secret" loaded

abbrev url : String → Url
url path = record {
  scheme = "https";
  userinfo = none;
  hostname = some "gateway";
  port = some (some 8443);
  path = path;
  params = "";
  query = "";
  fragment = "";
}

abbrev urlparse : String → Url
urlparse raw = if raw == "https://gateway:8443/a1" then url "/a1" else url "/b2"

hidden : redacted_url (url "/a1") ≡ "https://gateway:8443/[redacted]"
unfolding redacted_url
hidden = refl

same : IsSameDestination (url "/a1") (url "/b2")
unfolding disclosed_path
same = record { scheme = refl; hostname = refl; port = refl; path = refl }

a1-IsStripped : IsStripped urlparse (λ s. s) (λ s. none) "https://gateway:8443/a1"
unfolding strip
a1-IsStripped = (refl, refl)

b2-IsStripped : IsStripped urlparse (λ s. s) (λ s. none) "https://gateway:8443/b2"
unfolding strip
b2-IsStripped = (refl, refl)

describe_trust_gate_egress-same_example :
    describe_trust_gate_egress urlparse
      (λ s. s)
      (λ s. none)
      (with_base config "https://gateway:8443/a1")
      none
      none
      none
    ≡ describe_trust_gate_egress urlparse
        (λ s. s)
        (λ s. none)
        (with_base config "https://gateway:8443/b2")
        none
        none
        none
describe_trust_gate_egress-same_example =
    describe_trust_gate_egress-same urlparse (λ s. s) (λ s. none) config "https://gateway:8443/a1"
      "https://gateway:8443/b2" none none none a1-IsStripped b2-IsStripped same
