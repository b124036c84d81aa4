-- ===== src/Review/Egress.antt =====
-- What src/fava_trails/trust_gate.py discloses of a review's destination.
pub mod Disclosure
use fava_trails.Base.{
  ℕ, String, ◌≡◌, Bool, true, false, not, ◌&&◌, ◌||◌, Option, none, some, List, [], ◌∷◌, ◌==◌,
  if◌then◌else◌, or_else, contains,
}
use fava_trails.Base.Text.{concat, is_empty, strip, has_infix, decimal}
use fava_trails.Review.Address.{Url, redacted_url}
use fava_trails.Models.Config.{GlobalConfig}
use fava_trails.Credentials.{trust_gate_credential_description}
use fava_trails.Decisions.Endpoint.{
  decisions_endpoint, uses_local_decisions_backend, default_decisions_api_base, decisions_api_path,
  is_blank,
}

pub data DestinationKind : Type 0 where
  operator_human local_endpoint custom_endpoint remote_provider : DestinationKind

-- The texts that are the same in every notice of its kind are left out.
pub record Notice : Type 0 where
  pub policy : String
  pub provider : Option String
  pub model : Option String
  pub destination : String
  pub destination_kind : DestinationKind
  pub credential_source : Option String
  pub data_sent : List String
  pub cloud_fallback : Bool
  pub rejection_happens_after_transmission : Bool
  pub first_in_process : Option Bool

unfoldable pub human_notice : Option Bool → Notice
human_notice first = record {
  policy = "operator_human";
  provider = none;
  model = none;
  destination = "operator endpoint (no LLM request)";
  destination_kind = operator_human;
  credential_source = none;
  data_sent = [];
  cloud_fallback = false;
  rejection_happens_after_transmission = false;
  first_in_process = first;
}

unfoldable pub decisions_data_sent : List String
decisions_data_sent =
    "full scope-resolved Trust Gate prompt (state.review_instructions)"
    ∷ "full candidate thought content (markdown body, state.thought_under_review)"
    ∷ "selected metadata fields sent: thought_id, source_type, confidence, validation_status"
    ∷ "optional selected metadata fields sent: trail_name, parent_id, project, branch, tags"
    ∷ "the configured Noul question text (state.questions.trust.instructions)" ∷ []

unfoldable pub oneshot_data_sent : List String
oneshot_data_sent =
    "full candidate thought content (markdown body)"
    ∷ "selected metadata fields sent: thought_id, source_type, confidence, validation_status"
    ∷ "optional selected metadata fields sent: trail_name, parent_id, project, branch, tags" ∷ []

unfoldable pub custom_decisions_destination : String → String → String
unfolding decisions_endpoint
custom_decisions_destination disclosed provider =
    if disclosed == "[invalid-api-base]"
    then disclosed
    else decisions_endpoint (some disclosed) provider

unfoldable pub default_decisions : String → String × DestinationKind
unfolding uses_local_decisions_backend decisions_endpoint
default_decisions provider =
    if uses_local_decisions_backend (some provider)
    then (decisions_endpoint none provider, local_endpoint)
    else (
      concat (
          provider ∷ " Decisions API (" ∷ default_decisions_api_base ∷ decisions_api_path ∷ ")"
          ∷ []),
      remote_provider,
    )

unfoldable pub default_oneshot : String → String × DestinationKind
default_oneshot provider =
    if provider == "openrouter"
    then ("OpenRouter (provider default API)", remote_provider)
    else (concat (provider ∷ " (provider default API)" ∷ []), remote_provider)

unfoldable pub notice_of :
    GlobalConfig → String → String × DestinationKind → List String → Option Bool → Notice
unfolding trust_gate_credential_description
notice_of config policy (destination, kind) data_sent first = record {
  policy = policy;
  provider = some config.trust_gate_provider;
  model = some config.trust_gate_model;
  destination = destination;
  destination_kind = kind;
  credential_source = some (trust_gate_credential_description config);
  data_sent = data_sent;
  cloud_fallback = false;
  rejection_happens_after_transmission = true;
  first_in_process = first;
}

-- the policy that is in force
unfoldable pub policy_in_force : GlobalConfig → Option String → String
policy_in_force config policy = if is_blank policy then config.trust_gate else or_else policy ""

-- `urlparse`, `str.lower` and the test for a loopback address, which raises on what is no
-- address (`none`), are arguments.
module _ (urlparse : String → Url) (lower : String → String)
    (is_loopback_address : String → Option Bool) where
  unfoldable pub redacted_text : String → Option String
  unfolding redacted_url
  redacted_text raw = if is_empty raw then none else some (redacted_url (urlparse raw))

  -- `redact_trust_gate_api_base_for_disclosure`
  unfoldable pub redact_api_base : Option String → Option String
  unfolding redacted_text strip
  redact_api_base api_base = redacted_text (strip (or_else api_base ""))

  unfoldable pub is_loopback_host : String → Bool
  is_loopback_host host =
      if host == "localhost" then true else or_else (is_loopback_address host) false

  -- `_is_loopback_api_base`
  unfoldable pub is_loopback_api_base : Option String → Bool
  unfolding is_loopback_host
  is_loopback_api_base api_base =
      if is_blank api_base
      then false
      else is_loopback_host (lower (or_else (urlparse (or_else api_base "")).hostname ""))

  unfoldable pub custom_kind : Option String → DestinationKind
  unfolding is_loopback_api_base
  custom_kind api_base = if is_loopback_api_base api_base then local_endpoint else custom_endpoint

  unfoldable pub custom_decisions : Option String → String → String × DestinationKind
  unfolding redact_api_base custom_kind custom_decisions_destination
  custom_decisions api_base provider = (
    custom_decisions_destination (or_else (redact_api_base api_base) "[invalid-api-base]") provider,
    custom_kind api_base,
  )

  -- the destination of the Decisions policy, and its kind
  unfoldable pub decisions_destination : Option String → String → String × DestinationKind
  unfolding custom_decisions default_decisions
  decisions_destination api_base provider =
      if is_blank api_base then default_decisions provider else custom_decisions api_base provider

  unfoldable pub custom_oneshot : Option String → String × DestinationKind
  unfolding redact_api_base custom_kind
  custom_oneshot api_base = (or_else (redact_api_base api_base) "", custom_kind api_base)

  unfoldable pub oneshot_destination : Option String → String → String × DestinationKind
  unfolding custom_oneshot default_oneshot
  oneshot_destination api_base provider =
      if is_blank api_base then default_oneshot provider else custom_oneshot api_base

  unfoldable pub describe_trust_gate_egress :
      GlobalConfig → Option String → Option String → Option Bool → Notice
  unfolding human_notice notice_of decisions_destination oneshot_destination decisions_data_sent
      oneshot_data_sent policy_in_force
  describe_trust_gate_egress config approval policy first =
      if or_else approval "" == "human"
      then human_notice first
      else if policy_in_force config policy == "decisions"
      then notice_of config "decisions"
          (decisions_destination config.trust_gate_api_base config.trust_gate_provider)
          decisions_data_sent first
      else notice_of config config.trust_gate
          (oneshot_destination config.trust_gate_api_base config.trust_gate_provider)
          oneshot_data_sent first

-- The flag of the process: whether this was the first call, and the flag after it.
unfoldable pub mark_trust_gate_egress_disclosed : Bool → Bool × Bool
mark_trust_gate_egress_disclosed disclosed = (not disclosed, true)
