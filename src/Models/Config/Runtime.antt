-- ===== src/Models/Config/Runtime.antt =====
-- From `GlobalConfig`'s validators to `validate_trust_gate_runtime` of src/fava_trails/models.py.
use mathlib.Core.Path.{subst, Path}
use fava_trails.Base.{
  String, ◌≡◌, ◌⊎◌, inl, inr, refl, Bool, true, false, not, ◌&&◌, ◌||◌, Option, none, some, ◌==◌,
  or_else, arith, contains, Bool-cases, eq_iff,
}
use fava_trails.Base.Number.{Float, is_finite, float_le, zero_float, one_float}
use fava_trails.Base.Result.{Result, ok, err, ◌>>◌, raise_if, >>=-eq-ok, raise_if-eq-ok}
use fava_trails.Base.Text.{is_empty, strip}
use fava_trails.Models.Config.{
  TrustGateDecisionsConfig, GlobalConfig, ConfigError, late_timeout, empty_question,
  infinite_threshold, threshold_range, decisions_only_model, Url, decisions_only_models, stripped,
  optional_stripped, check_threshold, validate_decisions_config, is_late,
  validate_for_decisions_policy, decisions_policy_requires_noul_question,
  normalize_trust_gate_api_base, check_model, normalized, validate_config,
  resolve_trust_gate_api_key_env, effective_policy, check_review_model_for_policy, check_runtime,
  validate_trust_gate_runtime,
}

-- A text that is missing or not empty.
abbrev pub IsGiven : Option String → Type 0
IsGiven none = Unit
IsGiven (some s) = is_empty s ≡ false

pub record IsValid (c : GlobalConfig) : Type 0 where
  pub provider : is_empty c.trust_gate_provider ≡ false
  pub model : is_empty c.trust_gate_model ≡ false
  pub key_env : IsGiven c.trust_gate_api_key_env
  pub openrouter : is_empty c.openrouter_api_key_env ≡ false
  pub key_file : IsGiven c.trust_gate_api_key_file
  pub timeouts : is_late c.trust_gate_timeout_secs c.tool_timeout_secs ≡ false
  pub asks :
      c.trust_gate ≡ "decisions"
      → is_empty c.trust_gate_decisions_config.trust_gate_noul_question ≡ false
  pub finite_threshold : is_finite c.trust_gate_decisions_config.trust_gate_noul_threshold ≡ true
  pub least : float_le zero_float c.trust_gate_decisions_config.trust_gate_noul_threshold ≡ true
  pub most : float_le c.trust_gate_decisions_config.trust_gate_noul_threshold one_float ≡ true

stripped-nonempty : (v s : String) → stripped v ≡ ok s → is_empty s ≡ false
unfolding stripped
stripped-nonempty v s h = ground (arith, h)

optional_stripped-IsGiven : (v o : Option String) → optional_stripped v ≡ ok o → IsGiven o
unfolding optional_stripped
optional_stripped-IsGiven none o h = subst IsGiven (ok-eq none o h) tt
  where
    ok-eq : (x y : Option String) → Path (Result ConfigError (Option String)) (ok x) (ok y) → x ≡ y
    ok-eq x y e = ground arith
optional_stripped-IsGiven (some v) o h =
    let a = >>=-eq-ok (stripped v) (λ s. ok (some s)) h in
    subst IsGiven (ok-eq (some a.0) o a.2) (stripped-nonempty v a.0 a.1)
  where
    ok-eq : (x y : Option String) → Path (Result ConfigError (Option String)) (ok x) (ok y) → x ≡ y
    ok-eq x y e = ground arith

abbrev IsThreshold : Float → Type 0
IsThreshold x =
    (is_finite x ≡ true) × (float_le zero_float x ≡ true) × (float_le x one_float ≡ true)

check_threshold-IsThreshold : (v x : Float) → check_threshold v ≡ ok x → IsThreshold x
unfolding check_threshold
check_threshold-IsThreshold v x h =
    let last : Result ConfigError Float = ok v in
    let outside = not (float_le zero_float v && float_le v one_float) in
    let a =
      raise_if-eq-ok (not (is_finite v)) infinite_threshold
        (raise_if outside threshold_range >> last) h in
    let b = raise_if-eq-ok outside threshold_range last a.1 in
    let same : v ≡ x = ground (arith, b.1) in
    subst IsThreshold same (ground (arith, a.0), ground (arith, b.0), ground (arith, b.0))

validate_decisions_config-IsThreshold :
    (c d : TrustGateDecisionsConfig)
    → validate_decisions_config c ≡ ok d
    → IsThreshold d.trust_gate_noul_threshold
unfolding validate_decisions_config
validate_decisions_config-IsThreshold c d h =
    let made : Float → TrustGateDecisionsConfig = λ t. record {
      trust_gate_noul_question = strip c.trust_gate_noul_question;
      trust_gate_noul_threshold = t;
    } in
    let a = >>=-eq-ok (check_threshold c.trust_gate_noul_threshold) (λ t. ok (made t)) h in
    subst (λ x. IsThreshold x.trust_gate_noul_threshold) (ok-eq (made a.0) d a.2)
      (check_threshold-IsThreshold c.trust_gate_noul_threshold a.0 a.1)
  where
    ok-eq :
        (x y : TrustGateDecisionsConfig)
        → Path (Result ConfigError TrustGateDecisionsConfig) (ok x) (ok y)
        → x ≡ y
    ok-eq x y e = ground arith

check_model-eq-ok :
    (c d : GlobalConfig)
    → check_model c ≡ ok d
    → (c ≡ d)
      × (is_late c.trust_gate_timeout_secs c.tool_timeout_secs ≡ false)
      × (c.trust_gate ≡ "decisions"
          → is_empty c.trust_gate_decisions_config.trust_gate_noul_question ≡ false)
unfolding check_model
check_model-eq-ok c d h =
    let last : Result ConfigError GlobalConfig = ok c in
    let late = is_late c.trust_gate_timeout_secs c.tool_timeout_secs in
    let asks = decisions_policy_requires_noul_question c in
    let a = raise_if-eq-ok late late_timeout (asks >> last) h in
    let b = >>=-eq-ok asks (λ _. last) a.1 in (ok-eq c d b.2, a.0, question c b.1)
  where
    ok-eq : (x y : GlobalConfig) → Path (Result ConfigError GlobalConfig) (ok x) (ok y) → x ≡ y
    ok-eq x y e = ground arith

    question :
        (c : GlobalConfig)
        → decisions_policy_requires_noul_question c ≡ ok tt
        → c.trust_gate ≡ "decisions"
        → is_empty c.trust_gate_decisions_config.trust_gate_noul_question ≡ false
    question c h e =
        let on : (c.trust_gate == "decisions") ≡ true =
          ground (arith, e, eq_iff c.trust_gate "decisions") in
        raised (is_empty c.trust_gate_decisions_config.trust_gate_noul_question)
          (rw (on, decisions_policy_requires_noul_question, validate_for_decisions_policy) at h)
      where
        raised : (b : Bool) → raise_if b empty_question ≡ ok tt → b ≡ false
        raised true e = cc
        raised false e = refl

key_env-nonempty :
    (c : GlobalConfig) → IsValid c → is_empty (resolve_trust_gate_api_key_env c) ≡ false
unfolding resolve_trust_gate_api_key_env
key_env-nonempty c i = elim (Bool-cases (is_empty (or_else c.trust_gate_api_key_env ""))) [
  | inl e ↦ rw (e, resolve_trust_gate_api_key_env) i.openrouter
  | inr e ↦ rw (e, resolve_trust_gate_api_key_env) e
]

asks-ok : (c : GlobalConfig) → IsValid c → decisions_policy_requires_noul_question c ≡ ok tt
unfolding decisions_policy_requires_noul_question validate_for_decisions_policy
asks-ok c i = elim (Bool-cases (c.trust_gate == "decisions")) [
  | inr e ↦ rw (e, decisions_policy_requires_noul_question) refl
  | inl e ↦
      rw
        (
          e,
          i.asks (ground (arith, e, eq_iff c.trust_gate "decisions")),
          decisions_policy_requires_noul_question,
          validate_for_decisions_policy,
        )
        refl
]

-- A Decisions model under the chat policy.
abbrev pub IsMismatch : GlobalConfig → Type 0
IsMismatch c =
    (c.trust_gate ≡ "llm-oneshot") × (contains c.trust_gate_model decisions_only_models ≡ true)

-- Either the name of the key's variable is given, or the model does not fit the policy.
abbrev pub IsChecked : GlobalConfig → Result ConfigError String → Type 0
IsChecked c result =
    (result ≡ ok (resolve_trust_gate_api_key_env c))
    ⊎ ((result ≡ err decisions_only_model) × IsMismatch c)

check_runtime-IsChecked : (c : GlobalConfig) → IsValid c → IsChecked c (check_runtime c)
unfolding check_runtime
check_runtime-IsChecked c i =
    elim (Bool-cases
      (c.trust_gate == "llm-oneshot" && contains c.trust_gate_model decisions_only_models)) [
        | inl e ↦ inr (
          rw (i.provider, i.model, asks-ok c i, refused e, check_runtime) refl,
          (ground (arith, e, eq_iff c.trust_gate "llm-oneshot"), ground (arith, e)),
        )
        | inr e ↦ inl (
            rw (i.provider, i.model, asks-ok c i, passed e, key_env-nonempty c i, check_runtime)
              refl)
      ]
  where
    refused :
        (c.trust_gate == "llm-oneshot" && contains c.trust_gate_model decisions_only_models) ≡ true
        → check_review_model_for_policy c none ≡ err decisions_only_model
    refused e = rw (e, check_review_model_for_policy, effective_policy) refl

    passed :
        (c.trust_gate == "llm-oneshot" && contains c.trust_gate_model decisions_only_models) ≡ false
        → check_review_model_for_policy c none ≡ ok tt
    passed e = rw (e, check_review_model_for_policy, effective_policy) refl

runtime-IsChecked : (c : GlobalConfig) → IsValid c → IsChecked c (validate_trust_gate_runtime c)
unfolding validate_trust_gate_runtime
runtime-IsChecked c i =
    elim (Bool-cases (c.trust_gate == "llm-oneshot" || c.trust_gate == "decisions")) [
      | inl e ↦ rw (e, validate_trust_gate_runtime) (check_runtime-IsChecked c i)
      | inr e ↦ rw (e, validate_trust_gate_runtime) (inl refl)
    ]

module _ (urlparse : String → Url) where
  validate_config-IsValid : (c d : GlobalConfig) → validate_config urlparse c ≡ ok d → IsValid d
  unfolding validate_config
  validate_config-IsValid c d h =
      let a = >>=-eq-ok (stripped c.trust_gate_provider) _ h in
      let b = >>=-eq-ok (stripped c.trust_gate_model) _ a.2 in
      let e = >>=-eq-ok (normalize_trust_gate_api_base urlparse c.trust_gate_api_base) _ b.2 in
      let f = >>=-eq-ok (optional_stripped c.trust_gate_api_key_env) _ e.2 in
      let g = >>=-eq-ok (stripped c.openrouter_api_key_env) _ f.2 in
      let i = >>=-eq-ok (optional_stripped c.trust_gate_api_key_file) _ g.2 in
      let j = >>=-eq-ok (validate_decisions_config c.trust_gate_decisions_config) _ i.2 in
      let k = check_model-eq-ok (normalized c a.0 b.0 e.0 f.0 g.0 i.0 j.0) d j.2 in
      let threshold = validate_decisions_config-IsThreshold c.trust_gate_decisions_config j.0 j.1 in
      subst IsValid k.0 (record {
        provider = stripped-nonempty c.trust_gate_provider a.0 a.1;
        model = stripped-nonempty c.trust_gate_model b.0 b.1;
        key_env = optional_stripped-IsGiven c.trust_gate_api_key_env f.0 f.1;
        openrouter = stripped-nonempty c.openrouter_api_key_env g.0 g.1;
        key_file = optional_stripped-IsGiven c.trust_gate_api_key_file i.0 i.1;
        timeouts = k.1;
        asks = k.2;
        finite_threshold = threshold.0;
        least = threshold.1;
        most = threshold.2;
      })

  -- A configuration that is loaded passes the check at startup, which gives the name of a key's
  -- variable that is not empty, unless it names a Decisions model under the chat policy. Its timeouts
  -- are ordered, and its threshold is a number from 0 to 1.
  pub runtime-validate_config :
      (c d : GlobalConfig)
      → validate_config urlparse c ≡ ok d
      → IsValid d
        × (is_empty (resolve_trust_gate_api_key_env d) ≡ false)
        × IsChecked d (validate_trust_gate_runtime d)
  runtime-validate_config c d h =
      let i = validate_config-IsValid c d h in (i, key_env-nonempty d i, runtime-IsChecked d i)
