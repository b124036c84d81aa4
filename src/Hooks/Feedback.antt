-- ===== src/Hooks/Feedback.antt =====
-- `HookFeedback` of src/fava_trails/hook_types.py.
use Prim.Native.Char.{Char, code}
use fava_trails.Base.{
  ℕ, ◌+◌, ◌-◌, ◌≤◌, String, Bool, true, false, not, ◌&&◌, Option, none, some, List, [], ◌∷◌, ◌++◌,
  arith, ltb, leb, if◌then◌else◌, length, is_some, length-append, Bool-cases, inl, inr, leb→le, All,
  All-append,
}
use fava_trails.Base.Dict.{Dict, update}
use fava_trails.Base.Value.{Value}
use fava_trails.Hooks.Actions.{Action, reject, warn, advise, mutate, redirect, annotate}

abbrev pub max_warnings : ℕ
max_warnings = 20

abbrev pub max_advice : ℕ
max_advice = 20

abbrev pub max_message_bytes : ℕ
max_message_bytes = 4096

-- the bytes of a character in UTF-8
unfoldable pub char_bytes : Char → ℕ
char_bytes c =
    let n = code c in
    if ltb n 128 then 1 else if ltb n 2048 then 2 else if ltb n 65536 then 3 else 4

-- `len(s.encode("utf-8"))`
unfoldable pub byte_length : String → ℕ
byte_length String.[] = 0
byte_length (String.◌∷◌ c s) = char_bytes c + byte_length s

-- `s.encode("utf-8")[:n].decode("utf-8", errors="ignore")`: the characters that fit whole
unfoldable pub take_bytes : ℕ → String → String
take_bytes n String.[] = ""
take_bytes n (String.◌∷◌ c s) =
    let rest = take_bytes (n - char_bytes c) s in
    if leb (char_bytes c) n then String.◌∷◌ c rest else ""

unfoldable pub truncate_message : String → String
unfolding byte_length take_bytes char_bytes
truncate_message msg =
    if leb (byte_length msg) max_message_bytes then msg else take_bytes max_message_bytes msg

pub record Warning : Type 0 where
  pub message : String
  pub code : String

pub record Advice : Type 0 where
  pub message : String
  pub code : String
  pub target : String
  pub suggested_patch : Option (Dict Value)

pub record HookFeedback : Type 0 where
  pub accepted : Bool
  pub mutated : Bool
  pub redirected_to : Option String
  pub annotations : Dict Value
  pub warnings : List Warning
  pub advice : List Advice

abbrev pub no_feedback : HookFeedback
no_feedback = record {
  accepted = true;
  mutated = false;
  redirected_to = none;
  annotations = [];
  warnings = [];
  advice = [];
}

-- `if len(xs) < limit: xs.append(x)`
unfoldable pub append_below {ℓ} : {A : Type ℓ} → ℕ → List A → A → List A
append_below limit xs x = if ltb (length xs) limit then xs ++ x ∷ [] else xs

-- `HookFeedback.merge`
unfoldable pub merge : HookFeedback → Action → HookFeedback
unfolding append_below truncate_message
merge f (reject _ _) = record f { accepted = false }
merge f (warn message code) = record f {
  warnings =
      append_below max_warnings f.warnings
        (record { message = truncate_message message; code = code });
}
merge f (advise message code suggested_patch target) = record f {
  advice = append_below max_advice f.advice (record {
    message = truncate_message message;
    code = code;
    target = target;
    suggested_patch = suggested_patch;
  });
}
merge f (annotate values) = record f { annotations = update f.annotations values }
merge f (mutate _) = record f { mutated = true }
merge f (redirect namespace) = record f { redirected_to = some namespace }
merge f _ = f

append_all {ℓ} : {A : Type ℓ} → ℕ → List A → List A → List A
unfolding append_below
append_all limit xs [] = xs
append_all limit xs (y ∷ ys) = append_all limit (append_below limit xs y) ys

-- `HookFeedback.merge_from`
unfoldable pub merge_from : HookFeedback → HookFeedback → HookFeedback
unfolding append_all
merge_from f g = record {
  accepted = f.accepted && g.accepted;
  mutated = if g.mutated then true else f.mutated;
  redirected_to = if is_some g.redirected_to then g.redirected_to else f.redirected_to;
  annotations = update f.annotations g.annotations;
  warnings = append_all max_warnings f.warnings g.warnings;
  advice = append_all max_advice f.advice g.advice;
}

is_nil {ℓ} : {A : Type ℓ} → List A → Bool
is_nil [] = true
is_nil (_ ∷ _) = false

-- `HookFeedback.is_empty`
unfoldable pub is_empty : HookFeedback → Bool
unfolding is_nil
is_empty f =
    f.accepted
    && not f.mutated
    && not (is_some f.redirected_to)
    && is_nil f.annotations
    && is_nil f.warnings
    && is_nil f.advice

pub take_bytes-le : (n : ℕ) (s : String) → byte_length (take_bytes n s) ≤ n
unfolding byte_length take_bytes
take_bytes-le n String.[] = omega arith
take_bytes-le n (String.◌∷◌ c s) = elim (Bool-cases (leb (char_bytes c) n)) [
  | inl fits ↦ rw fits (omega (arith, leb→le _ _ fits, take_bytes-le (n - char_bytes c) s))
  | inr long ↦ rw long (omega arith)
]

-- A truncated message has at most 4096 bytes in UTF-8.
pub truncate_message-le : (s : String) → byte_length (truncate_message s) ≤ max_message_bytes
unfolding truncate_message
truncate_message-le s = elim (Bool-cases (leb (byte_length s) max_message_bytes)) [
  | inl fits ↦ rw fits (leb→le _ _ fits)
  | inr long ↦ rw long (take_bytes-le max_message_bytes s)
]

-- The limits on what one request can attach to a response.
pub record IsBounded (f : HookFeedback) : Type 0 where
  pub warnings : length f.warnings ≤ max_warnings
  pub advice : length f.advice ≤ max_advice
  pub warning_bytes : All (λ (w : Warning). byte_length w.message ≤ max_message_bytes) f.warnings
  pub advice_bytes : All (λ (a : Advice). byte_length a.message ≤ max_message_bytes) f.advice

module _ {ℓ} {A : Type ℓ} where
  length-append_below :
      (limit : ℕ) (xs : List A) (x : A)
      → length xs ≤ limit
      → length (append_below limit xs x) ≤ limit
  unfolding append_below
  length-append_below limit xs x h = ground (arith, length-append xs (x ∷ []))

  All-append_below :
      (P : A → Type 0) (limit : ℕ) (xs : List A) (x : A)
      → All P xs
      → P x
      → All P (append_below limit xs x)
  unfolding append_below
  All-append_below P limit xs x h p = elim (Bool-cases (ltb (length xs) limit)) [
    | inl room ↦ rw room (All-append P xs (x ∷ []) h (p, tt))
    | inr full ↦ rw full h
  ]

  length-append_all :
      (limit : ℕ) (xs ys : List A) → length xs ≤ limit → length (append_all limit xs ys) ≤ limit
  unfolding append_all
  length-append_all limit xs [] h = h
  length-append_all limit xs (y ∷ ys) h =
      length-append_all limit (append_below limit xs y) ys (length-append_below limit xs y h)

  All-append_all :
      (P : A → Type 0) (limit : ℕ) (xs ys : List A)
      → All P xs
      → All P ys
      → All P (append_all limit xs ys)
  unfolding append_all
  All-append_all P limit xs [] h k = h
  All-append_all P limit xs (y ∷ ys) h k =
      All-append_all P limit (append_below limit xs y) ys (All-append_below P limit xs y h k.0) k.1

pub merge-IsBounded : (f : HookFeedback) (a : Action) → IsBounded f → IsBounded (merge f a)
unfolding merge
merge-IsBounded f (warn message code) h = record {
  warnings = length-append_below max_warnings f.warnings _ h.warnings;
  advice = h.advice;
  warning_bytes =
      All-append_below _ max_warnings f.warnings _ h.warning_bytes (truncate_message-le message);
  advice_bytes = h.advice_bytes;
}
merge-IsBounded f (advise message code patch target) h = record {
  warnings = h.warnings;
  advice = length-append_below max_advice f.advice _ h.advice;
  warning_bytes = h.warning_bytes;
  advice_bytes =
      All-append_below _ max_advice f.advice _ h.advice_bytes (truncate_message-le message);
}
merge-IsBounded f _ h = record {
  warnings = h.warnings;
  advice = h.advice;
  warning_bytes = h.warning_bytes;
  advice_bytes = h.advice_bytes;
}

-- The limits hold of two feedbacks merged if they hold of both.
pub merge_from-IsBounded :
    (f g : HookFeedback) → IsBounded f → IsBounded g → IsBounded (merge_from f g)
unfolding merge_from
merge_from-IsBounded f g h k = record {
  warnings = length-append_all max_warnings f.warnings g.warnings h.warnings;
  advice = length-append_all max_advice f.advice g.advice h.advice;
  warning_bytes =
      All-append_all _ max_warnings f.warnings g.warnings h.warning_bytes k.warning_bytes;
  advice_bytes = All-append_all _ max_advice f.advice g.advice h.advice_bytes k.advice_bytes;
}
