-- ===== src/Decisions/Client.antt =====
-- `DecisionsClient` of src/fava_trails/decisions.py. The HTTP client is an argument.
use mathlib.Core.Path.{subst}
use fava_trails.Base.{
  ℕ, String, ◌≡◌, refl, inl, inr, Bool, false, ◌&&◌, ◌||◌, Option, none, some, List, [], ◌∷◌,
  if◌then◌else◌, arith, nat_eq, or_else, Bool-cases,
}
use fava_trails.Base.Number.{ℤ, Float}
use fava_trails.Base.Result.{Result, ok, err, ◌>>=◌, ◌>>◌, raise_if, >>=-eq-ok, raise_if-eq-ok}
use fava_trails.Base.Text.{is_empty, strip}
use fava_trails.Base.Value.{Value, str, dict, field, end}
use fava_trails.Decisions.Endpoint.{uses_local_decisions_backend, decisions_endpoint, is_blank}
use fava_trails.Decisions.Answer.{
  DecisionsError, no_credential, no_model, no_question, no_local_base, timed_out, connection_error,
  http_error, not_json, NoulAnswer, parse_noul_answer, IsProbability,
  parse_noul_answer-IsProbability,
}

-- The key is given, or a loader that raises (`none`) or gives a text.
pub data Credential : Type 0 where
  given : Option String → Credential
  loaded : Option String → Credential

pub record DecisionsClient : Type 0 where
  pub credential : Credential
  pub api_base : Option String
  pub provider : String

-- What is posted: the URL, the bearer token and the JSON payload.
pub record Request : Type 0 where
  pub url : String
  pub api_key : String
  pub payload : Value

-- how a request ends: `body` is `none` where the response is no JSON
pub data Response : Type 0 where
  timeout http_failure : Response
  response : ℕ → Option Value → Response

-- `not s or not s.strip()`
unfoldable pub is_blank_text : String → Bool
unfolding strip
is_blank_text s = is_empty s || is_empty (strip s)

some_key : String → Result DecisionsError String
some_key key = if is_empty key then err no_credential else ok key

unfoldable pub load_api_key : Credential → Result DecisionsError String
unfolding some_key
load_api_key (given key) = some_key (or_else key "")
load_api_key (loaded none) = err no_credential
load_api_key (loaded (some key)) = some_key key

unfoldable pub payload_of : String → Value → String → Value
payload_of model state question = dict (
    field "model" (str model) (
      field "state" state (
        field "questions"
          (dict (
            field "trust"
              (dict (field "type" (str "noul") (field "instructions" (str question) end))) end))
          end)))

-- the checks of the arguments, and the request
unfoldable pub request_of :
    DecisionsClient → String → Value → String → Result DecisionsError Request
unfolding is_blank_text load_api_key payload_of decisions_endpoint uses_local_decisions_backend
request_of client model state question = do
  raise_if (is_blank_text model) no_model
  raise_if (is_blank_text question) no_question
  raise_if (uses_local_decisions_backend (some client.provider) && is_blank client.api_base)
      no_local_base
  key ← load_api_key client.credential
  ok (record {
    url = decisions_endpoint client.api_base client.provider;
    api_key = key;
    payload = payload_of model state question;
  })

-- A request that a client makes for a question.
pub record IsAsked (client : DecisionsClient) (model : String) (state : Value) (question : String)
    (r : Request) : Type 0 where
  pub url : r.url ≡ decisions_endpoint client.api_base client.provider
  pub payload : r.payload ≡ payload_of model state question
  pub api_key : is_empty r.api_key ≡ false
  pub asks_model : is_blank_text model ≡ false
  pub asks_question : is_blank_text question ≡ false

load_api_key-nonempty :
    (c : Credential) (key : String) → load_api_key c ≡ ok key → is_empty key ≡ false
unfolding load_api_key some_key
load_api_key-nonempty (given key') key h = ground (arith, h)
load_api_key-nonempty (loaded none) key h = cc
load_api_key-nonempty (loaded (some key')) key h = ground (arith, h)

request_of-IsAsked :
    (client : DecisionsClient) (model : String) (state : Value) (question : String) (r : Request)
    → request_of client model state question ≡ ok r
    → IsAsked client model state question r
unfolding request_of
request_of-IsAsked client model state question r h =
    let made : String → Request = λ key. record {
      url = decisions_endpoint client.api_base client.provider;
      api_key = key;
      payload = payload_of model state question;
    } in
    let request = load_api_key client.credential >>= λ key. ok (made key) in
    let local = uses_local_decisions_backend (some client.provider) && is_blank client.api_base in
    let a =
      raise_if-eq-ok (is_blank_text model) no_model
        (raise_if (is_blank_text question) no_question >> (raise_if local no_local_base >> request))
        h in
    let b =
      raise_if-eq-ok (is_blank_text question) no_question (raise_if local no_local_base >> request)
        a.1 in
    let c = raise_if-eq-ok local no_local_base request b.1 in
    let d = >>=-eq-ok (load_api_key client.credential) (λ key. ok (made key)) c.1 in
    subst (IsAsked client model state question) (ok-eq (made d.0) r d.2) (record {
      url = refl;
      payload = refl;
      api_key = load_api_key-nonempty client.credential d.0 d.1;
      asks_model = a.0;
      asks_question = b.0;
    })
  where
    ok-eq : (x y : Request) → Path (Result DecisionsError Request) (ok x) (ok y) → x ≡ y
    ok-eq x y e = ground arith

module _ (float_of_int : ℤ → Option Float) (post : Request → Response) where
  body_of : Option Value → Result DecisionsError NoulAnswer
  body_of none = err not_json
  body_of (some v) = parse_noul_answer float_of_int v

  unfoldable pub read_response : Response → Result DecisionsError NoulAnswer
  unfolding body_of
  read_response timeout = err timed_out
  read_response http_failure = err connection_error
  read_response (response status body) =
      if nat_eq status 200 then body_of body else err (http_error status)

  -- what was transmitted, and the outcome
  unfoldable pub transmit :
      Result DecisionsError Request → List Request × Result DecisionsError NoulAnswer
  unfolding read_response
  transmit (err e) = ([], err e)
  transmit (ok r) = (r ∷ [], read_response (post r))

  unfoldable pub ask_noul :
      DecisionsClient → String → Value → String → List Request × Result DecisionsError NoulAnswer
  unfolding request_of transmit
  ask_noul client model state question = transmit (request_of client model state question)

  read_response-IsProbability :
      (r : Response) (a : NoulAnswer)
      → read_response r ≡ ok a
      → (v : Value) × (r ≡ response 200 (some v)) × IsProbability float_of_int a.probability
  unfolding read_response
  read_response-IsProbability timeout a h = cc
  read_response-IsProbability http_failure a h = cc
  read_response-IsProbability (response status none) a h = ground (arith, h)
  read_response-IsProbability (response status (some v)) a h =
      elim (Bool-cases (nat_eq status 200)) [
        | inl e ↦
            (v, ground (arith, e), (parse_noul_answer-IsProbability float_of_int v a (rw e at h)).1)
        | inr e ↦ ground (arith, rw e at h)
      ]

  -- One request was posted, and its response gives a number from 0 to 1.
  abbrev pub IsAnsweredOnce :
      DecisionsClient → String → Value → String → NoulAnswer → List Request → Type 0
  IsAnsweredOnce client model state question a sent =
      (r : Request) × (v : Value) × (sent ≡ r ∷ [])
      × IsAsked client model state question r
      × (post r ≡ response 200 (some v))
      × IsProbability float_of_int a.probability

  transmit-answered :
      (client : DecisionsClient) (model : String) (state : Value) (question : String)
      (a : NoulAnswer) (m : Result DecisionsError Request)
      → ((r : Request) → m ≡ ok r → IsAsked client model state question r)
      → (transmit m).1 ≡ ok a
      → IsAnsweredOnce client model state question a (transmit m).0
  unfolding transmit
  transmit-answered client model state question a (err e) k h = cc
  transmit-answered client model state question a (ok r) k h =
      let p = read_response-IsProbability (post r) a h in (r, p.0, refl, k r refl, p.1, p.2)

  -- Where the client answers, it has posted one request, to its endpoint and with a key, a model and
  -- a question that are not empty; the response had status 200, and the answer is a finite number
  -- from 0 to 1.
  pub ask_noul-answered :
      (client : DecisionsClient) (model : String) (state : Value) (question : String)
      (a : NoulAnswer)
      → (ask_noul client model state question).1 ≡ ok a
      → IsAnsweredOnce client model state question a (ask_noul client model state question).0
  unfolding ask_noul
  ask_noul-answered client model state question a h =
      transmit-answered client model state question a (request_of client model state question)
        (request_of-IsAsked client model state question) h
