-- ===== src/Review/Verdict.antt =====
-- `_extract_json_from_llm_response` and `_parse_verdict` of src/fava_trails/trust_gate.py.
use Prim.Native.Char.{code}
use mathlib.Core.Path.{subst}
use fava_trails.Base.{
  String, ◌≡◌, ap, Option, none, some, [], ◌∷◌, ◌==◌, arith, nat_eq, ◌⊎◌, inl, inr, eq_iff,
  Bool-cases, if◌then◌else◌, or_else,
}
use fava_trails.Base.Dict.{lookup}
use fava_trails.Base.Result.{Result, ok, err, ◌>>=◌, ◌>>◌, raise_if, >>=-eq-ok, raise_if-eq-ok}
use fava_trails.Base.Text.{concat, is_empty, strip, strip_prefix, split_once}
use fava_trails.Base.Value.{Value, null, bool, int, float, list, str, dict, Fields, entries}
use fava_trails.Trail.Review.{Verdict, approve, reject}

-- `s[:-len(suffix)]` if `s.endswith(suffix)`
unfoldable pub strip_suffix : String → String → Option String
strip_suffix suffix String.[] = if is_empty suffix then some "" else none
strip_suffix suffix (String.◌∷◌ c s) =
    let rest = strip_suffix suffix s in
    if String.◌∷◌ c s == suffix
    then some ""
    else elim rest [ none ↦ none | some r ↦ some (String.◌∷◌ c r) ]

-- `s[:s.rfind("}") + 1]`, if there is one
unfoldable pub up_to_brace : String → Option String
up_to_brace String.[] = none
up_to_brace (String.◌∷◌ c s) =
    let rest = up_to_brace s in
    elim rest [
      | some r ↦ some (String.◌∷◌ c r)
      | none ↦ if nat_eq (code c) b'}' then some (String.◌∷◌ c "") else none
    ]

-- what stands behind the first line, or all of a single line
unfoldable pub behind_line : String → String
unfolding split_once
behind_line s = elim (split_once "\n" s) [ none ↦ s | some (_, rest) ↦ rest ]

-- without the line of the opening fence, and without the closing fence
unfoldable pub strip_fences : String → String
unfolding strip_prefix behind_line strip_suffix
strip_fences s = elim (strip_prefix "```" s) [
  | none ↦ s
  | some _ ↦ let body = behind_line s in or_else (strip_suffix "```" body) body
]

-- `s[s.find("{"):]`, if there is one
unfoldable pub from_brace : String → Option String
from_brace String.[] = none
from_brace (String.◌∷◌ c s) =
    let rest = from_brace s in if nat_eq (code c) b'{' then some (String.◌∷◌ c s) else rest

-- from the first opening brace to the last closing one
unfoldable pub object_in : String → String
unfolding strip_prefix from_brace up_to_brace
object_in s = elim (strip_prefix "{" s) [
  | some _ ↦ s
  | none ↦ elim (from_brace s) [ none ↦ s | some object ↦ or_else (up_to_brace object) s ]
]

unfoldable pub extract_json : String → String
unfolding strip strip_fences object_in
extract_json raw = object_in (strip (strip_fences (strip raw)))

-- How reading a reply fails: with a ValueError, of which a JSONDecodeError is one, and its text, or
-- with another exception, and its class.
pub data ReplyError : Type 0 where
  value_error other_error : String → ReplyError

-- the JSON of a reply
pub record Reading : Type 0 where
  pub verdict : Verdict
  pub reasoning : Value
  pub confidence : Option Value

unfoldable pub as_object : Value → Result ReplyError Fields
as_object (dict fs) = ok fs
as_object _ = err (other_error "AttributeError")

-- `json.loads` and `repr` are the arguments
module _ (loads : String → Result ReplyError Value) (repr : Option Value → String) where
  invalid_verdict : Option Value → ReplyError
  invalid_verdict v =
      value_error (concat ("Invalid verdict: " ∷ repr v ∷ ". Expected 'approve' or 'reject'." ∷ []))

  unfoldable pub verdict_in : Option Value → Result ReplyError Verdict
  unfolding invalid_verdict
  verdict_in (some (str s)) =
      if s == "approve"
      then ok approve
      else if s == "reject"
      then ok reject
      else err (invalid_verdict (some (str s)))
  verdict_in v = err (invalid_verdict v)

  -- `d.get(k)` with None where it is null
  not_null : Option Value → Option Value
  not_null (some null) = none
  not_null v = v

  unfoldable pub read_verdict : Fields → Result ReplyError Reading
  unfolding verdict_in not_null
  read_verdict fields = do
    verdict ← verdict_in (lookup "verdict" (entries fields))
    ok (record {
      verdict = verdict;
      reasoning = or_else (lookup "reasoning" (entries fields)) (str "No reasoning provided");
      confidence = not_null (lookup "confidence" (entries fields));
    })

  read_object : Value → Result ReplyError Reading
  unfolding as_object read_verdict
  read_object v = do fields ← as_object v; read_verdict fields

  unfoldable pub parse_verdict : String → Result ReplyError Reading
  unfolding extract_json read_object
  parse_verdict content = do
    raise_if (is_empty content) (value_error "Empty response content from LLM")
    value ← loads (extract_json content)
    read_object value

  -- A reply that is accepted is JSON, an object whose verdict is the text `approve` or `reject`.
  abbrev pub IsVerdict : String → Reading → Type 0
  IsVerdict content r =
      (fields : Fields) × (loads (extract_json content) ≡ ok (dict fields))
      × (((r.verdict ≡ approve) × (lookup "verdict" (entries fields) ≡ some (str "approve")))
          ⊎ ((r.verdict ≡ reject) × (lookup "verdict" (entries fields) ≡ some (str "reject"))))

  verdict_in-cases :
      (o : Option Value) (v : Verdict)
      → verdict_in o ≡ ok v
      → ((v ≡ approve) × (o ≡ some (str "approve"))) ⊎ ((v ≡ reject) × (o ≡ some (str "reject")))
  unfolding verdict_in
  verdict_in-cases (some (str s)) v h = elim (Bool-cases (s == "approve")) [
    | inl e ↦ inl (ground (arith, rw e at h), ground (arith, e, eq_iff s "approve"))
    | inr a ↦ elim (Bool-cases (s == "reject")) [
      | inl e ↦ inr (ground (arith, rw (a, e) at h), ground (arith, e, eq_iff s "reject"))
      | inr e ↦ ground (arith, rw (a, e) at h)
    ]
  ]
  verdict_in-cases none v h = cc
  verdict_in-cases (some null) v h = cc
  verdict_in-cases (some (bool x)) v h = cc
  verdict_in-cases (some (int x)) v h = cc
  verdict_in-cases (some (float x)) v h = cc
  verdict_in-cases (some (list x)) v h = cc
  verdict_in-cases (some (dict x)) v h = cc

  read_object-IsVerdict :
      (content : String) (value : Value) (r : Reading)
      → loads (extract_json content) ≡ ok value
      → read_object value ≡ ok r
      → IsVerdict content r
  unfolding read_object as_object read_verdict
  read_object-IsVerdict content (dict fields) r e h =
      let finish : Verdict → Result ReplyError Reading = λ v. ok (record {
        verdict = v;
        reasoning = or_else (lookup "reasoning" (entries fields)) (str "No reasoning provided");
        confidence = not_null (lookup "confidence" (entries fields));
      }) in
      let v = >>=-eq-ok (verdict_in (lookup "verdict" (entries fields))) finish h in
      let same : v.0 ≡ r.verdict = ap verdict_read v.2 in
      (
        fields,
        e,
        subst
            (λ x.
              ((x ≡ approve) × (lookup "verdict" (entries fields) ≡ some (str "approve")))
              ⊎ ((x ≡ reject) × (lookup "verdict" (entries fields) ≡ some (str "reject"))))
            same (verdict_in-cases (lookup "verdict" (entries fields)) v.0 v.1),
      )
    where
      verdict_read : Result ReplyError Reading → Verdict
      verdict_read (ok r) = r.verdict
      verdict_read (err _) = reject
  read_object-IsVerdict content null r e h = cc
  read_object-IsVerdict content (bool x) r e h = cc
  read_object-IsVerdict content (int x) r e h = cc
  read_object-IsVerdict content (float x) r e h = cc
  read_object-IsVerdict content (list x) r e h = cc
  read_object-IsVerdict content (str x) r e h = cc

  pub parse_verdict-IsVerdict :
      (content : String) (r : Reading) → parse_verdict content ≡ ok r → IsVerdict content r
  unfolding parse_verdict
  parse_verdict-IsVerdict content r h =
      let p =
        raise_if-eq-ok (is_empty content) (value_error "Empty response content from LLM")
          (loads (extract_json content) >>= read_object) h in
      let q = >>=-eq-ok (loads (extract_json content)) read_object p.1 in
      read_object-IsVerdict content q.0 r q.1 q.2
