-- ===== src/Decisions/Answer.antt =====
-- `_parse_noul_answer` of src/fava_trails/decisions.py.
use mathlib.Core.Path.{subst}
use fava_trails.Base.{
  ap, ◌∙◌, ℕ, String, ◌≡◌, Bool, true, false, not, ◌&&◌, Option, none, some, ◌==◌, arith,
}
use fava_trails.Base.Number.{ℤ, Float, is_finite, float_le, zero_float, one_float}
use fava_trails.Base.Dict.{lookup}
use fava_trails.Base.Result.{Result, ok, err, ◌>>=◌, ◌>>◌, raise_if, >>=-eq-ok, raise_if-eq-ok}
use fava_trails.Base.Value.{Value, int, float, str, dict, Fields, entries}

-- The reasons of a DecisionsError; `overflow` is Python's OverflowError, which is none.
pub data DecisionsError : Type 0 where
  no_credential no_model no_question no_local_base timed_out connection_error : DecisionsError
  http_error : ℕ → DecisionsError
  not_json not_an_object no_answers no_answer : DecisionsError
  unexpected_type no_probability not_finite out_of_range : DecisionsError
  overflow : DecisionsError

pub record NoulAnswer : Type 0 where
  pub probability : Float
  pub provider : Option String
  pub model : Option String
  pub response_id : Option String

-- `x` if it is a dict, and the exception otherwise
unfoldable pub as_dict : DecisionsError → Option Value → Result DecisionsError Fields
as_dict e (some (dict fs)) = ok fs
as_dict e _ = err e

unfoldable pub is_noul : Option Value → Bool
is_noul (some (str s)) = s == "noul"
is_noul _ = false

text_of : Option Value → Option String
text_of (some (str s)) = some s
text_of _ = none

-- `float(n)` rounds an int of more than 53 bits, and raises on one that is too large (`none`)
module _ (float_of_int : ℤ → Option Float) where
  unfoldable pub number_of : Option Value → Result DecisionsError Float
  number_of (some (int n)) = elim (float_of_int n) [ some x ↦ ok x | none ↦ err overflow ]
  number_of (some (float x)) = ok x
  number_of _ = err no_probability

  -- a finite number within [0, 1]
  unfoldable pub check_probability : Float → Result DecisionsError Float
  unfolding float_le is_finite
  check_probability x = do
    raise_if (not (is_finite x)) not_finite
    raise_if (not (float_le zero_float x && float_le x one_float)) out_of_range
    ok x

  noul_answer : Fields → Float → NoulAnswer
  unfolding text_of
  noul_answer fields probability = record {
    probability = probability;
    provider = text_of (lookup "provider" (entries fields));
    model = text_of (lookup "model" (entries fields));
    response_id = text_of (lookup "id" (entries fields));
  }

  -- from the answer of the question on
  parse_answer : Fields → Fields → Result DecisionsError NoulAnswer
  unfolding is_noul number_of check_probability noul_answer
  parse_answer fields answer = do
    raise_if (not (is_noul (lookup "type" (entries answer)))) unexpected_type
    number ← number_of (lookup "noul" (entries answer))
    probability ← check_probability number
    ok (noul_answer fields probability)

  parse_answers : Fields → Fields → Result DecisionsError NoulAnswer
  unfolding as_dict parse_answer
  parse_answers fields answers = do
    answer ← as_dict no_answer (lookup "trust" (entries answers))
    parse_answer fields answer

  parse_fields : Fields → Result DecisionsError NoulAnswer
  unfolding as_dict parse_answers
  parse_fields fields = do
    answers ← as_dict no_answers (lookup "answers" (entries fields))
    parse_answers fields answers

  unfoldable pub parse_noul_answer : Value → Result DecisionsError NoulAnswer
  unfolding as_dict parse_fields
  parse_noul_answer body = do fields ← as_dict not_an_object (some body); parse_fields fields

  abbrev probability_in : Result DecisionsError NoulAnswer → Float
  probability_in (ok a) = a.probability
  probability_in (err _) = zero_float

  -- An answer's probability is a number from 0 to 1.
  abbrev pub IsProbability : Float → Type 0
  IsProbability x =
      (is_finite x ≡ true) × (float_le zero_float x ≡ true) × (float_le x one_float ≡ true)

  -- The value in the body that the answer is read from.
  abbrev pub IsAnswered : Value → NoulAnswer → Type 0
  IsAnswered body a =
      (fields : Fields) × (answers : Fields) × (answer : Fields) × (body ≡ dict fields)
      × (lookup "answers" (entries fields) ≡ some (dict answers))
      × (lookup "trust" (entries answers) ≡ some (dict answer))
      × (number_of (lookup "noul" (entries answer)) ≡ ok a.probability)

  as_dict-eq-ok :
      (e : DecisionsError) (v : Option Value) (fs : Fields)
      → as_dict e v ≡ ok fs
      → v ≡ some (dict fs)
  unfolding as_dict
  as_dict-eq-ok e v fs h = ground arith

  some-eq : (v w : Value) → some v ≡ some w → v ≡ w
  some-eq v w h = ground arith

  check_probability-eq-ok : (x y : Float) → check_probability x ≡ ok y → (x ≡ y) × IsProbability y
  unfolding check_probability
  check_probability-eq-ok x y h =
      let a =
        raise_if-eq-ok (not (is_finite x)) not_finite
          (raise_if (not (float_le zero_float x && float_le x one_float)) out_of_range >> ok x) h in
      let b =
        raise_if-eq-ok (not (float_le zero_float x && float_le x one_float)) out_of_range (ok x)
          a.1 in
      let e : x ≡ y = ground (arith, b.1) in
      (e, subst IsProbability e (ground (arith, a.0), ground (arith, b.0), ground (arith, b.0)))

  parse_answer-IsProbability :
      (fields answer : Fields) (a : NoulAnswer)
      → parse_answer fields answer ≡ ok a
      → (number_of (lookup "noul" (entries answer)) ≡ ok a.probability)
        × IsProbability a.probability
  unfolding parse_answer noul_answer
  parse_answer-IsProbability fields answer a h =
      let finish = λ (x : Float). check_probability x >>= λ y. ok (noul_answer fields y) in
      let p =
        raise_if-eq-ok (not (is_noul (lookup "type" (entries answer)))) unexpected_type
          (number_of (lookup "noul" (entries answer)) >>= finish) h in
      let n = >>=-eq-ok (number_of (lookup "noul" (entries answer))) finish p.1 in
      let c = >>=-eq-ok (check_probability n.0) (λ y. ok (noul_answer fields y)) n.2 in
      let q = check_probability-eq-ok n.0 c.0 c.1 in
      let e : c.0 ≡ a.probability = ap probability_in c.2 in
      (n.1 ∙ ap (λ x. ok x) (q.0 ∙ e), subst IsProbability e q.1)

  -- A body that is accepted has a Noul answer whose number is the probability, and that is a finite
  -- number from 0 to 1.
  pub parse_noul_answer-IsProbability :
      (body : Value) (a : NoulAnswer)
      → parse_noul_answer body ≡ ok a
      → IsAnswered body a × IsProbability a.probability
  unfolding parse_noul_answer
  parse_noul_answer-IsProbability body a h =
      let f = >>=-eq-ok (as_dict not_an_object (some body)) parse_fields h in
      let s =
        >>=-eq-ok (as_dict no_answers (lookup "answers" (entries f.0))) (parse_answers f.0) f.2 in
      let t = >>=-eq-ok (as_dict no_answer (lookup "trust" (entries s.0))) (parse_answer f.0) s.2 in
      let u = parse_answer-IsProbability f.0 t.0 a t.2 in
      (
        (
          f.0,
          s.0,
          t.0,
          some-eq body (dict f.0) (as_dict-eq-ok not_an_object (some body) f.0 f.1),
          as_dict-eq-ok no_answers (lookup "answers" (entries f.0)) s.0 s.1,
          as_dict-eq-ok no_answer (lookup "trust" (entries s.0)) t.0 t.1,
          u.0,
        ),
        u.1,
      )
