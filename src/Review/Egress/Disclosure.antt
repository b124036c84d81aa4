-- ===== src/Review/Egress/Disclosure.antt =====
-- The parts of a URL that the notice of src/fava_trails/trust_gate.py depends on.
use fava_trails.Base.{
  String, ◌≡◌, refl, sym, ap, ◌∙◌, Bool, false, Option, some, ◌==◌, if◌then◌else◌, or_else,
}
use fava_trails.Base.Text.{is_empty, strip}
use fava_trails.Models.Config.{GlobalConfig}
use fava_trails.Credentials.{trust_gate_credential_description}
use fava_trails.Review.Address.{Url, disclosed_path, redacted_from, redacted_url}
use fava_trails.Review.Egress.{
  DestinationKind, custom_decisions, default_decisions, custom_oneshot, default_oneshot,
  human_notice, decisions_data_sent, oneshot_data_sent, policy_in_force, local_endpoint,
  custom_endpoint, redacted_text, is_loopback_host, custom_decisions_destination, redact_api_base,
  is_loopback_api_base, custom_kind, decisions_destination, oneshot_destination, notice_of,
  describe_trust_gate_egress,
}

-- Two URLs of one destination, whatever their userinfo, parameters, query and fragment are, and
-- whatever path they have that is not disclosed.
pub record IsSameDestination (u v : Url) : Type 0 where
  pub scheme : u.scheme ≡ v.scheme
  pub hostname : u.hostname ≡ v.hostname
  pub port : u.port ≡ v.port
  pub path : disclosed_path u.path ≡ disclosed_path v.path

redacted_url-same : (u v : Url) → IsSameDestination u v → redacted_url u ≡ redacted_url v
unfolding redacted_url
redacted_url-same u v s =
    ap (λ x. redacted_from x u.hostname u.port (disclosed_path u.path)) s.scheme
    ∙ ap (λ x. redacted_from v.scheme x u.port (disclosed_path u.path)) s.hostname
    ∙ ap (λ x. redacted_from v.scheme v.hostname x (disclosed_path u.path)) s.port
    ∙ ap (λ x. redacted_from v.scheme v.hostname v.port x) s.path

abbrev pub with_base : GlobalConfig → String → GlobalConfig
with_base config raw = record config { trust_gate_api_base = some raw }

module _ (urlparse : String → Url) (lower : String → String)
    (is_loopback_address : String → Option Bool) where
  -- A base as the validators of the configuration leave it.
  abbrev pub IsStripped : String → Type 0
  IsStripped raw = (is_empty raw ≡ false) × (strip raw ≡ raw)

  redacted_text-given :
      (raw : String)
      → is_empty raw ≡ false
      → redacted_text urlparse lower is_loopback_address raw ≡ some (redacted_url (urlparse raw))
  unfolding redacted_text
  redacted_text-given raw h = rw (h, redacted_text) refl

  redact_api_base-given :
      (raw : String)
      → IsStripped raw
      → redact_api_base urlparse lower is_loopback_address (some raw)
        ≡ some (redacted_url (urlparse raw))
  unfolding redact_api_base
  redact_api_base-given raw h =
      ap (redacted_text urlparse lower is_loopback_address) h.1 ∙ redacted_text-given raw h.0

  redact_api_base-same :
      (raw other : String)
      → IsStripped raw
      → IsStripped other
      → IsSameDestination (urlparse raw) (urlparse other)
      → redact_api_base urlparse lower is_loopback_address (some raw)
        ≡ redact_api_base urlparse lower is_loopback_address (some other)
  redact_api_base-same raw other a b s =
      redact_api_base-given raw a
      ∙ ap (λ x. some x) (redacted_url-same (urlparse raw) (urlparse other) s)
      ∙ sym (redact_api_base-given other b)

  custom_kind-same :
      (raw other : String)
      → IsStripped raw
      → IsStripped other
      → IsSameDestination (urlparse raw) (urlparse other)
      → custom_kind urlparse lower is_loopback_address (some raw)
        ≡ custom_kind urlparse lower is_loopback_address (some other)
  unfolding custom_kind is_loopback_api_base
  custom_kind-same raw other a b s =
      rw (a.0, b.0)
        (ap
          (λ h.
            if is_loopback_host urlparse lower is_loopback_address (lower (or_else h ""))
            then local_endpoint
            else custom_endpoint)
          s.hostname)

  custom_decisions-same :
      (raw other provider : String)
      → IsStripped raw
      → IsStripped other
      → IsSameDestination (urlparse raw) (urlparse other)
      → custom_decisions urlparse lower is_loopback_address (some raw) provider
        ≡ custom_decisions urlparse lower is_loopback_address (some other) provider
  unfolding custom_decisions
  custom_decisions-same raw other provider a b s =
      ap
        (λ x. (
          custom_decisions_destination (or_else x "[invalid-api-base]") provider,
          custom_kind urlparse lower is_loopback_address (some raw),
        ))
        (redact_api_base-same raw other a b s)
      ∙ ap
          (λ k. (
            custom_decisions_destination
                (or_else (redact_api_base urlparse lower is_loopback_address (some other))
                  "[invalid-api-base]")
                provider,
            k,
          ))
          (custom_kind-same raw other a b s)

  decisions_destination-same :
      (raw other provider : String)
      → IsStripped raw
      → IsStripped other
      → IsSameDestination (urlparse raw) (urlparse other)
      → decisions_destination urlparse lower is_loopback_address (some raw) provider
        ≡ decisions_destination urlparse lower is_loopback_address (some other) provider
  unfolding decisions_destination
  decisions_destination-same raw other provider a b s =
      let choose = λ (api_base : String) (blank : Bool).
        if blank
        then default_decisions provider
        else custom_decisions urlparse lower is_loopback_address (some api_base) provider in
      ap (choose raw) a.0
      ∙ custom_decisions-same raw other provider a b s
      ∙ sym (ap (choose other) b.0)

  custom_oneshot-same :
      (raw other : String)
      → IsStripped raw
      → IsStripped other
      → IsSameDestination (urlparse raw) (urlparse other)
      → custom_oneshot urlparse lower is_loopback_address (some raw)
        ≡ custom_oneshot urlparse lower is_loopback_address (some other)
  unfolding custom_oneshot
  custom_oneshot-same raw other a b s =
      ap (λ x. (or_else x "", custom_kind urlparse lower is_loopback_address (some raw)))
        (redact_api_base-same raw other a b s)
      ∙ ap (λ k. (or_else (redact_api_base urlparse lower is_loopback_address (some other)) "", k))
          (custom_kind-same raw other a b s)

  oneshot_destination-same :
      (raw other provider : String)
      → IsStripped raw
      → IsStripped other
      → IsSameDestination (urlparse raw) (urlparse other)
      → oneshot_destination urlparse lower is_loopback_address (some raw) provider
        ≡ oneshot_destination urlparse lower is_loopback_address (some other) provider
  unfolding oneshot_destination
  oneshot_destination-same raw other provider a b s =
      let choose = λ (api_base : String) (blank : Bool).
        if blank
        then default_oneshot provider
        else custom_oneshot urlparse lower is_loopback_address (some api_base) in
      ap (choose raw) a.0 ∙ custom_oneshot-same raw other a b s ∙ sym (ap (choose other) b.0)

  -- The notice of a review says nothing of the configured base but its scheme, host and port, and a
  -- path that is empty or `/v1`: two bases that agree in these have one notice, whatever userinfo,
  -- query, fragment and other paths they have.
  pub describe_trust_gate_egress-same :
      (config : GlobalConfig) (raw other : String) (approval policy : Option String)
      (first : Option Bool)
      → IsStripped raw
      → IsStripped other
      → IsSameDestination (urlparse raw) (urlparse other)
      → describe_trust_gate_egress urlparse lower is_loopback_address
          (with_base config raw)
          approval
          policy
          first
        ≡ describe_trust_gate_egress urlparse lower is_loopback_address
            (with_base config other)
            approval
            policy
            first
  unfolding describe_trust_gate_egress notice_of trust_gate_credential_description
  describe_trust_gate_egress-same config raw other approval policy first a b s =
      let given = with_base config raw in
      let pick = λ (decided asked : String × DestinationKind).
        if or_else approval "" == "human"
        then human_notice first
        else if policy_in_force config policy == "decisions"
        then notice_of given "decisions" decided decisions_data_sent first
        else notice_of given config.trust_gate asked oneshot_data_sent first in
      let provider = config.trust_gate_provider in
      ap (λ d. pick d (oneshot_destination urlparse lower is_loopback_address (some raw) provider))
        (decisions_destination-same raw other provider a b s)
      ∙ ap
          (λ d.
            pick (decisions_destination urlparse lower is_loopback_address (some other) provider) d)
          (oneshot_destination-same raw other provider a b s)
