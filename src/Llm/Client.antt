-- ===== src/Llm/Client.antt =====
-- `LLMClient.chat` of src/fava_trails/llm/client.py.
pub mod Chat
use mathlib.Core.Path.{Path}
use fava_trails.Base.{
  ℕ, zero, suc, ◌≤◌, ◌<◌, ◌+◌, ◌*◌, String, ◌≡◌, ◌≢◌, refl, ap, sym, ◌∙◌, ◌⊎◌, inl, inr, Bool, true,
  false, not, ◌&&◌, ◌||◌, Option, none, some, List, [], ◌∷◌, ◌++◌, ◌==◌, arith, length,
  if◌then◌else◌, Bool-cases, is_some, length-append, eq_refl,
}
use fava_trails.Base.Number.{Float}
use fava_trails.Base.Dict.{Dict}
use fava_trails.Base.Result.{Result, ok, err}
use fava_trails.Base.Text.{is_empty}
use fava_trails.Base.Value.{Value}
use fava_trails.Llm.Sanitize.{Raised, ExceptionKind, authentication_error}
use fava_trails.Llm.Retry.{async_retry}
use fava_trails.Llm.Registry.{
  ModelRegistry, ModelInfo, Resolved, unknown, known, key_error, resolve,
}
use fava_trails.Llm.Completion.{
  LlmResponse, Completion, LlmClient, CompletionRequest, llm_error, is_authentication_error,
  response_of,
}

load_key : LlmClient → ℕ → Bool → Result Raised (Option String)
unfolding llm_error
load_key client n rotated = elim client.loader [
  | none ↦ ok client.api_key
  | some load ↦ elim (load n rotated) [
    | none ↦ err (llm_error "LLM API credential unavailable")
    | some key ↦ ok (some key)
  ]
]

-- `a == b` on keys that may be None
unfoldable pub same_key : Option String → Option String → Bool
same_key none none = true
same_key (some a) (some b) = a == b
same_key _ _ = false

-- The library's call is an argument: it is numbered by the attempt and by whether it is the second
-- of the attempt, and has the key.
module _ (complete : ℕ → Bool → Option String → CompletionRequest → Result Raised Completion)
    (client : LlmClient) (request : CompletionRequest) where
  answered : Result Raised Completion → Result Raised LlmResponse
  unfolding response_of
  answered (ok c) = ok (response_of client request.model c)
  answered (err e) = err e

  -- the second request of an attempt, unless the key is the one that was refused
  with_rotated :
      ℕ
      → Option String
      → Raised
      → Result Raised (Option String)
      → List (Option String) × Result Raised LlmResponse
  unfolding same_key answered
  with_rotated n key e (err f) = (key ∷ [], err f)
  with_rotated n key e (ok rotated) =
      if same_key rotated key
      then (key ∷ [], err e)
      else (key ∷ rotated ∷ [], answered (complete n true rotated request))

  with_key :
      ℕ
      → Option String
      → Result Raised Completion
      → List (Option String) × Result Raised LlmResponse
  unfolding answered with_rotated load_key is_authentication_error
  with_key n key (ok c) = (key ∷ [], answered (ok c))
  with_key n key (err e) =
      if is_authentication_error e.kind && is_some client.loader
      then with_rotated n key e (load_key client n true)
      else (key ∷ [], err e)

  with_loaded : ℕ → Result Raised (Option String) → List (Option String) × Result Raised LlmResponse
  unfolding with_key
  with_loaded n (err e) = ([], err e)
  with_loaded n (ok key) = with_key n key (complete n false key request)

  -- attempt `n`: the keys of the requests that were sent, and the outcome
  unfoldable pub do_call : ℕ → List (Option String) × Result Raised LlmResponse
  unfolding with_loaded load_key
  do_call n = with_loaded n (load_key client n false)

  -- An attempt sends one request at most, or two with different keys.
  abbrev pub IsFresh : List (Option String) → Type 0
  IsFresh [] = Unit
  IsFresh (k ∷ []) = Unit
  IsFresh (k ∷ l ∷ []) = same_key l k ≡ false
  IsFresh (_ ∷ _ ∷ _ ∷ _) = ⊥

  with_rotated-IsFresh :
      (n : ℕ) (key : Option String) (e : Raised) (loaded : Result Raised (Option String))
      → IsFresh (with_rotated n key e loaded).0
  unfolding with_rotated
  with_rotated-IsFresh n key e (err f) = tt
  with_rotated-IsFresh n key e (ok rotated) = elim (Bool-cases (same_key rotated key)) [
    | inl y ↦ rw (y, with_rotated) tt
    | inr y ↦ rw (y, with_rotated) y
  ]

  with_key-IsFresh :
      (n : ℕ) (key : Option String) (outcome : Result Raised Completion)
      → IsFresh (with_key n key outcome).0
  unfolding with_key
  with_key-IsFresh n key (ok c) = tt
  with_key-IsFresh n key (err e) =
      elim (Bool-cases (is_authentication_error e.kind && is_some client.loader)) [
        | inl y ↦ rw (y, with_key) (with_rotated-IsFresh n key e (load_key client n true))
        | inr y ↦ rw (y, with_key) tt
      ]

  with_loaded-IsFresh :
      (n : ℕ) (loaded : Result Raised (Option String)) → IsFresh (with_loaded n loaded).0
  unfolding with_loaded
  with_loaded-IsFresh n (err e) = tt
  with_loaded-IsFresh n (ok key) = with_key-IsFresh n key (complete n false key request)

  -- A key that the provider refuses is not sent again within the attempt: there are at most two
  -- requests, and two have different keys.
  pub do_call-IsFresh : (n : ℕ) → IsFresh (do_call n).0
  unfolding do_call
  do_call-IsFresh n = with_loaded-IsFresh n (load_key client n false)

  -- A request was sent at attempt `n`, and the response is what is read from its completion.
  abbrev pub IsServed : ℕ → LlmResponse → Type 0
  IsServed n response =
      (rotated : Bool) × (key : Option String) × (c : Completion) × (complete n rotated key request
        ≡ ok c)
      × (response ≡ response_of client request.model c)

  answered-IsServed :
      (n : ℕ) (rotated : Bool) (key : Option String) (outcome : Result Raised Completion)
      (response : LlmResponse)
      → complete n rotated key request ≡ outcome
      → answered outcome ≡ ok response
      → IsServed n response
  unfolding answered
  answered-IsServed n rotated key (err e) response h a = cc
  answered-IsServed n rotated key (ok c) response h a =
      (rotated, key, c, h, sym (ok-eq (response_of client request.model c) response a))
    where
      ok-eq : (x y : LlmResponse) → Path (Result Raised LlmResponse) (ok x) (ok y) → x ≡ y
      ok-eq x y e = ground arith

  with_rotated-IsServed :
      (n : ℕ) (key : Option String) (e : Raised) (loaded : Result Raised (Option String))
      (response : LlmResponse)
      → (with_rotated n key e loaded).1 ≡ ok response
      → IsServed n response
  unfolding with_rotated
  with_rotated-IsServed n key e (err f) response h = cc
  with_rotated-IsServed n key e (ok rotated) response h = elim (Bool-cases (same_key rotated key)) [
    | inl y ↦ ground (arith, rw (y, with_rotated) at h)
    | inr y ↦
        answered-IsServed n true rotated (complete n true rotated request) response refl
          (rw (y, with_rotated) at h)
  ]

  with_key-IsServed :
      (n : ℕ) (key : Option String) (outcome : Result Raised Completion) (response : LlmResponse)
      → complete n false key request ≡ outcome
      → (with_key n key outcome).1 ≡ ok response
      → IsServed n response
  unfolding with_key
  with_key-IsServed n key (ok c) response s h = answered-IsServed n false key (ok c) response s h
  with_key-IsServed n key (err e) response s h =
      elim (Bool-cases (is_authentication_error e.kind && is_some client.loader)) [
        | inl y ↦
            with_rotated-IsServed n key e (load_key client n true) response (rw (y, with_key) at h)
        | inr y ↦ ground (arith, rw (y, with_key) at h)
      ]

  with_loaded-IsServed :
      (n : ℕ) (loaded : Result Raised (Option String)) (response : LlmResponse)
      → (with_loaded n loaded).1 ≡ ok response
      → IsServed n response
  unfolding with_loaded
  with_loaded-IsServed n (err e) response h = cc
  with_loaded-IsServed n (ok key) response h =
      with_key-IsServed n key (complete n false key request) response refl h

  pub do_call-IsServed :
      (n : ℕ) (response : LlmResponse) → (do_call n).1 ≡ ok response → IsServed n response
  unfolding do_call
  do_call-IsServed n response h = with_loaded-IsServed n (load_key client n false) response h
