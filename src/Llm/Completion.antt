-- ===== src/Llm/Completion.antt =====
-- The requests and responses of src/fava_trails/llm/client.py, and the model that is asked for.
use fava_trails.Base.{
  ℕ, String, Bool, true, false, not, ◌&&◌, Option, none, some, List, ◌∷◌, ◌==◌, if◌then◌else◌,
  is_some,
}
use fava_trails.Base.Number.{Float}
use fava_trails.Base.Dict.{Dict}
use fava_trails.Base.Text.{is_empty}
use fava_trails.Base.Value.{Value}
use fava_trails.Llm.Sanitize.{Raised, ExceptionKind}
use fava_trails.Llm.Registry.{ModelRegistry, unknown, known, key_error, resolve}

pub record Usage : Type 0 where
  pub prompt_tokens : ℕ
  pub completion_tokens : ℕ
  pub total_tokens : ℕ

pub record LlmResponse : Type 0 where
  pub content : String
  pub model : String
  pub usage : Option Usage
  pub provider : Option String

-- What the provider's library returns: the content of each choice, where it has a message and that
-- has a content.
pub record Completion : Type 0 where
  pub choices : List (Option (Option String))
  pub model : Option String
  pub usage : Option Usage

-- Where there is a loader, it gives the key at each of its calls, or raises (`none`).
pub record LlmClient : Type 0 where
  pub api_key : Option String
  pub provider : String
  pub api_base : Option String
  pub loader : Option (ℕ → Bool → Option String)
  pub extra_body : Dict Value

-- What is asked of the library: the model, and what `kwargs` holds.
pub record CompletionRequest : Type 0 where
  pub messages : List (String × String)
  pub model : String
  pub temperature : Option Float
  pub response_format : Option Value
  pub max_tokens : Option ℕ
  pub api_base : Option String
  pub extra_body : Dict Value
  pub timeout : Float

unfoldable pub llm_error : String → Raised
llm_error text = record {
  kind = ExceptionKind.other_error;
  type_name = "LLMError";
  text = text;
  status_code = none;
  original = none;
}

unfoldable pub is_authentication_error : ExceptionKind → Bool
is_authentication_error ExceptionKind.authentication_error = true
is_authentication_error _ = false

-- the first of the choices
unfoldable pub content_of : List (Option (Option String)) → String
content_of (some (some content) ∷ _) = content
content_of _ = ""

unfoldable pub response_of : LlmClient → String → Completion → LlmResponse
unfolding content_of
response_of client resolved_model c = record {
  content = content_of c.choices;
  model = elim c.model [
    | none ↦ resolved_model
    | some m ↦ if is_empty m then resolved_model else m
  ];
  usage = c.usage;
  provider = some client.provider;
}

-- the name that is sent, and whether the model supports a temperature
unfoldable pub resolve_model :
    (String → String) → ModelRegistry → LlmClient → String → Option (String × Bool)
unfolding resolve
resolve_model lower registry client model =
    if client.provider == "openrouter" && not (is_some client.api_base)
    then elim (resolve lower model registry) [
      | unknown ↦ some (model, true)
      | known info ↦ some (info.model_name, info.supports_temperature)
      | key_error ↦ none
    ]
    else some (model, true)
