-- ===== src/Governance/Arguments.antt =====
-- `visibility_from_arguments` of src/fava_trails/governance.py.
use fava_trails.Base.{
  String, ◌≡◌, ◌≢◌, ◌⊎◌, Bool, true, false, not, Option, none, some, List, [], ◌∷◌, nat_eq,
}
use fava_trails.Base.Number.{pos, negsuc, finite, minus}
use fava_trails.Base.Dict.{Dict, lookup}
use fava_trails.Base.Result.{Result, ok, err, ◌>>=◌, >>=-eq-ok}
use fava_trails.Base.Text.{is_empty}
use fava_trails.Base.Value.{
  Value, null, bool, int, float, str, list, dict, Items, nil, cons, end, field,
}
use fava_trails.Models.Enums.{approved}
use fava_trails.Models.Thought.{ThoughtRecord}
use fava_trails.Governance.Visibility.{Principal, Visibility, VisibilityError, visibility, allows}
use fava_trails.Governance.Privilege.{unapproved_needs_privilege}

-- The exceptions: `not_an_array` is raised here.
pub data ArgumentsError : Type 0 where
  not_an_array : ArgumentsError
  refused : VisibilityError → ArgumentsError

-- the truth of a value
unfoldable pub is_true : Value → Bool
is_true null = false
is_true (bool b) = b
is_true (int (pos n)) = not (nat_eq n 0)
is_true (int (negsuc n)) = true
is_true (float (finite m k)) = not (nat_eq m 0)
is_true (float (minus m k)) = not (nat_eq m 0)
is_true (float _) = true
is_true (str s) = not (is_empty s)
is_true (list nil) = false
is_true (list (cons _ _)) = true
is_true (dict end) = false
is_true (dict (field _ _ _)) = true

-- A value that is no text is no mode and no status, as the empty text is none.
text_or_none : Value → String
text_or_none (str s) = s
text_or_none _ = ""

texts_of : Items → List String
unfolding text_or_none
texts_of nil = []
texts_of (cons v rest) = text_or_none v ∷ texts_of rest

-- a value that is true: an array, or an error
array_of : Value → Result ArgumentsError (List String)
unfolding texts_of
array_of (list items) = ok (texts_of items)
array_of _ = err not_an_array

-- `arguments.get("statuses") or ()`
unfoldable pub statuses_of : Option Value → Result ArgumentsError (List String)
unfolding is_true array_of
statuses_of none = ok []
statuses_of (some v) = let array = array_of v in elim (is_true v) [ true ↦ array | false ↦ ok [] ]

unfoldable pub mode_of : Option Value → String
unfolding text_or_none
mode_of none = "governed"
mode_of (some v) = text_or_none v

unfoldable pub flag_of : Option Value → Bool
unfolding is_true
flag_of none = false
flag_of (some v) = is_true v

unfoldable pub checked_view : Result VisibilityError Visibility → Result ArgumentsError Visibility
checked_view (ok v) = ok v
checked_view (err e) = err (refused e)

unfoldable pub visibility_from_arguments : Dict Value → Principal → Result ArgumentsError Visibility
unfolding statuses_of mode_of flag_of checked_view visibility lookup
visibility_from_arguments arguments principal = do
  statuses ← statuses_of (lookup "statuses" arguments)
  checked_view (
      visibility (mode_of (lookup "mode" arguments)) principal statuses
        (flag_of (lookup "include_superseded" arguments)))

checked_view-eq-ok :
    (r : Result VisibilityError Visibility) (v : Visibility) → checked_view r ≡ ok v → r ≡ ok v
unfolding checked_view
checked_view-eq-ok (ok w) v h = cc
checked_view-eq-ok (err e) v h = cc

module _ (arguments : Dict Value) (p : Principal) (v : Visibility) (r : ThoughtRecord)
    (records : Dict ThoughtRecord) where
  -- Whatever the arguments of a tool call say, the view that it gets shows a thought that is not
  -- approved only to an operator or to the agent that wrote it.
  pub unapproved-visibility_from_arguments :
      visibility_from_arguments arguments p ≡ ok v
      → allows v r records ≡ true
      → r.frontmatter.validation_status ≢ approved
      → (p.operator ≡ true) ⊎ (p.agent_id ≡ some r.frontmatter.agent_id)
  unfolding visibility_from_arguments
  unapproved-visibility_from_arguments h a n =
      let mode = mode_of (lookup "mode" arguments) in
      let inc = flag_of (lookup "include_superseded" arguments) in
      let s =
        >>=-eq-ok (statuses_of (lookup "statuses" arguments))
          (λ t. checked_view (visibility mode p t inc)) h in
      let e = checked_view-eq-ok (visibility mode p s.0 inc) v s.2 in
      unapproved_needs_privilege mode p s.0 inc v r records e a n
