-- ===== src/Tests/Chats.antt =====
-- A client whose key is rotated, and whose provider fails once.
use fava_trails.Base.{
  ℕ, zero, suc, String, ◌≡◌, Option, Bool, true, false, refl, [], ◌∷◌, none, some, ◌==◌,
  if◌then◌else◌,
}
use fava_trails.Base.Number.{finite}
use fava_trails.Base.Dict.{lookup, insert}
use fava_trails.Base.Result.{Result, ok, err}
use fava_trails.Llm.Sanitize.{
  Raised, ExceptionKind, rate_limit_error, authentication_error, sanitize_provider_exception,
}
use fava_trails.Llm.Retry.{async_retry, IsOutcome, async_retry-IsOutcome}
use fava_trails.Llm.Registry.{
  ModelInfo, empty_registry, register, resolve, known, is_alias, resolve-register,
}
use fava_trails.Llm.Completion.{LlmResponse, Completion, LlmClient, CompletionRequest}
use fava_trails.Llm.Client.{do_call, IsFresh, do_call-IsFresh}
use fava_trails.Llm.Client.Chat.{ChatCall, chat, request_of, IsAnswered, chat-IsAnswered}

abbrev failed : ExceptionKind → Raised
failed kind = record {
  kind = kind;
  type_name = "AnyLLMError";
  text = "https://key@host";
  status_code = none;
  original = none;
}

limited_text : sanitize_provider_exception (failed rate_limit_error) ≡ "AnyLLMError"
unfolding sanitize_provider_exception
limited_text = refl

abbrev info : ModelInfo
info = record {
  model_name = "vendor/model";
  aliases = "small" ∷ [];
  supports_json_mode = true;
  supports_temperature = false;
  max_output_tokens = none;
}

abbrev lower : String → String
lower s = if s == "Small" then "small" else s

is_known : is_alias lower "Small" (info.model_name ∷ info.aliases) ≡ true
unfolding is_alias
is_known = refl

resolve-register_example : resolve lower "Small" (register lower info empty_registry) ≡ known info
resolve-register_example = resolve-register lower info empty_registry "Small" refl is_known

abbrev loader : ℕ → Bool → Option String
loader n true = some "new"
loader n false = some "old"

abbrev client : LlmClient
client = record {
  api_key = none;
  provider = "openrouter";
  api_base = none;
  loader = some loader;
  extra_body = [];
}

abbrev completion : Completion
completion = record { choices = some (some "{}") ∷ []; model = none; usage = none }

-- the provider is busy at first, and then refuses the old key
abbrev complete : ℕ → Bool → Option String → CompletionRequest → Result Raised Completion
complete zero rotated key request = err (failed rate_limit_error)
complete (suc n) false key request = err (failed authentication_error)
complete (suc n) true key request = ok completion

abbrev call : ChatCall
call = record {
  messages = ("user", "Hello") ∷ [];
  model = "small";
  temperature = finite 0 0;
  response_format = none;
  max_output_tokens = none;
  timeout = finite 60 0;
}

abbrev request : CompletionRequest
request = request_of client call ("vendor/model", false)

do_call-IsFresh_example : IsFresh complete client request (do_call complete client request 1).0
do_call-IsFresh_example = do_call-IsFresh complete client request 1

abbrev response : LlmResponse
response = record {
  content = "{}";
  model = "vendor/model";
  usage = none;
  provider = some "openrouter";
}

answered : (chat complete lower (register lower info empty_registry) client call).1 ≡ ok response
unfolding chat register lookup insert async_retry do_call
answered = refl

chat-IsAnswered_example :
    IsAnswered complete lower (register lower info empty_registry) client call response
chat-IsAnswered_example =
    chat-IsAnswered complete lower (register lower info empty_registry) client call response
      answered

abbrev fn : ℕ → Result Raised String
fn zero = err (failed rate_limit_error)
fn (suc n) = ok "done"

async_retry-IsOutcome_example : IsOutcome 3 fn 0 (async_retry 3 fn)
async_retry-IsOutcome_example = async_retry-IsOutcome 2 fn
