-- ===== src/Llm/Client/Chat.antt =====
-- `LLMClient.chat` of src/fava_trails/llm/client.py: from its arguments to the attempts.
use fava_trails.Base.{
  ℕ, ◌<◌, String, ◌≡◌, refl, sym, ◌∙◌, inl, inr, Bool, not, ◌&&◌, Option, none, some, List, [],
  arith, if◌then◌else◌, Bool-cases, is_some, or_else,
}
use fava_trails.Base.Number.{Float}
use fava_trails.Base.Result.{Result, ok, err}
use fava_trails.Base.Text.{is_empty}
use fava_trails.Base.Value.{Value}
use fava_trails.Llm.Sanitize.{Raised, ExceptionKind}
use fava_trails.Llm.Retry.{async_retry, default_max_attempts, IsTransient, async_retry-IsOutcome}
use fava_trails.Llm.Registry.{ModelRegistry}
use fava_trails.Llm.Completion.{
  LlmResponse, Completion, LlmClient, CompletionRequest, llm_error, resolve_model,
}
use fava_trails.Llm.Client.{do_call, IsServed, do_call-IsServed}

-- the arguments of `chat`
pub record ChatCall : Type 0 where
  pub messages : List (String × String)
  pub model : String
  pub temperature : Float
  pub response_format : Option Value
  pub max_output_tokens : Option ℕ
  pub timeout : Float

unfoldable pub request_of : LlmClient → ChatCall → String × Bool → CompletionRequest
request_of client call (resolved_model, supports_temperature) = record {
  messages = call.messages;
  model = resolved_model;
  temperature = if supports_temperature then some call.temperature else none;
  response_format = call.response_format;
  max_tokens = call.max_output_tokens;
  api_base = client.api_base;
  extra_body = client.extra_body;
  timeout = call.timeout;
}

-- `not self._api_key and self._api_key_loader is None`
lacks_key : LlmClient → Bool
lacks_key client = is_empty (or_else client.api_key "") && not (is_some client.loader)

key_error_raised : Raised
key_error_raised = record {
  kind = ExceptionKind.other_error;
  type_name = "KeyError";
  text = "";
  status_code = none;
  original = none;
}

module _ (complete : ℕ → Bool → Option String → CompletionRequest → Result Raised Completion)
    (lower : String → String) (registry : ModelRegistry) (client : LlmClient) where
  attempts_of : ChatCall → Option (String × Bool) → List Float × Result Raised LlmResponse
  unfolding request_of key_error_raised
  attempts_of call none = ([], err key_error_raised)
  attempts_of call (some resolved) =
      async_retry default_max_attempts
        (λ n. (do_call complete client (request_of client call resolved) n).1)

  -- the delays slept, and the outcome
  unfoldable pub chat : ChatCall → List Float × Result Raised LlmResponse
  unfolding lacks_key llm_error resolve_model attempts_of
  chat call =
      if lacks_key client
      then ([], err (llm_error "LLM API key required but not provided"))
      else attempts_of call (resolve_model lower registry client call.model)

  -- A response is that of one request, of at most three attempts of which the others failed
  -- transiently; the model is what the client's registry makes of the one that is asked for.
  pub record IsAnswered (call : ChatCall) (response : LlmResponse) : Type 0 where
    pub resolved : String × Bool
    pub resolves : resolve_model lower registry client call.model ≡ some resolved
    pub attempt : ℕ
    pub attempts : attempt < 3
    pub earlier :
        (i : ℕ)
        → i < attempt
        → IsTransient 3 (λ n. (do_call complete client (request_of client call resolved) n).1) i
    pub served : IsServed complete client (request_of client call resolved) attempt response

  attempts_of-IsAnswered :
      (call : ChatCall) (o : Option (String × Bool)) (response : LlmResponse)
      → resolve_model lower registry client call.model ≡ o
      → (attempts_of call o).1 ≡ ok response
      → IsAnswered call response
  unfolding attempts_of
  attempts_of-IsAnswered call none response e h = cc
  attempts_of-IsAnswered call (some resolved) response e h =
      let request = request_of client call resolved in
      let k = async_retry-IsOutcome 2 (λ n. (do_call complete client request n).1) in
      record {
        resolved = resolved;
        resolves = e;
        attempt = k.0;
        attempts = k.2;
        earlier = λ i b. k.3 i (omega arith) b;
        served = do_call-IsServed complete client request k.0 response (sym k.5 ∙ h);
      }

  -- Where a chat returns, its response was served by one of at most three attempts, each before it
  -- failed transiently, and the request's model is the one that the registry gives.
  pub chat-IsAnswered :
      (call : ChatCall) (response : LlmResponse)
      → (chat call).1 ≡ ok response
      → IsAnswered call response
  unfolding chat
  chat-IsAnswered call response h = elim (Bool-cases (lacks_key client)) [
    | inl e ↦ ground (arith, rw (e, chat) at h)
    | inr e ↦
        attempts_of-IsAnswered call (resolve_model lower registry client call.model) response refl
          (rw (e, chat) at h)
  ]
