-- ===== src/Preflight.antt =====
-- src/fava_trails/secret_preflight.py: the check for credentials of well-known shapes.
pub mod Coverage
use fava_trails.Base.{
  ℕ, suc, String, Bool, true, false, Option, none, some, List, [], ◌∷◌, ◌==◌, if◌then◌else◌, ltb,
  first_some,
}
use fava_trails.Base.Dict.{Dict}
use fava_trails.Base.Result.{Result, ok, err}
use fava_trails.Base.Text.{concat, is_empty}
use fava_trails.Base.Value.{
  Value, null, bool, int, float, str, list, dict, Items, nil, cons, Fields, end, field, fields_of,
}

-- _PATTERNS: the label of each pattern, and the regular expression
abbrev pub patterns : Dict String
patterns =
    ("pem_private_key", "-----BEGIN (?:[A-Z]+ )?PRIVATE KEY-----")
    ∷ ("aws_access_key_id", "\\bAKIA[0-9A-Z]{16}\\b")
    ∷ ("github_pat", "\\b(?:ghp_[A-Za-z0-9]{36}|github_pat_[A-Za-z0-9]{22}_[A-Za-z0-9]{59})\\b")
    ∷ ("openrouter_api_key", "\\bsk-or-v1-[A-Za-z0-9]{32,}\\b")
    ∷ ("openai_api_key", "\\bsk-(?:proj-)?[A-Za-z0-9]{32,}\\b")
    ∷ ("stripe_live_key", "\\b(?:sk|rk)_live_[0-9a-zA-Z]{24,}\\b")
    ∷ ("slack_token", "\\bxox[baprs]-[A-Za-z0-9-]{10,}\\b")
    ∷ []

abbrev pub max_walk_depth : ℕ
max_walk_depth = 32

abbrev pub traversal_limit_pattern_id : String
traversal_limit_pattern_id = "nested_structure_too_deep"

abbrev safe_limits : String
safe_limits =
    "This check is a bounded preflight for known key prefixes and PEM private-key headers, not complete DLP. It does not erase records that were already stored."

-- the first two sentences and the advice
lead : String → String
lead pattern_id =
    if pattern_id == traversal_limit_pattern_id
    then concat (
        "Obvious credential pattern blocked (" ∷ pattern_id
        ∷ ") before persist or transmit. Nested data exceeded the preflight traversal limit (32); unscanned content is not treated as clean. "
        ∷ safe_limits ∷ " Flatten the structure and retry." ∷ [])
    else concat (
        "Obvious credential pattern blocked (" ∷ pattern_id ∷ ") before persist or transmit. "
        ∷ safe_limits ∷ " Remove the credential and retry." ∷ [])

unfoldable pub safe_message : String → Bool → String
unfolding lead
safe_message pattern_id true = concat (
    lead pattern_id
    ∷ " The existing draft was left unchanged; prior persistence is not erased."
    ∷ [])
safe_message pattern_id false =
    concat (lead pattern_id ∷ " Existing stored records are not erased." ∷ [])

pub record ObviousSecretError : Type 0 where
  pub pattern_id : String
  pub persisted_already : Bool
  pub message : String

-- `re.search` is the argument
module _ (search : String → String → Bool) where
  unfoldable pub first_pattern : Dict String → String → Option String
  first_pattern [] text = none
  first_pattern ((id, regex) ∷ rest) text =
      let later = first_pattern rest text in if search regex text then some id else later

  -- `None` is no text
  unfoldable pub find_obvious_secret : String → Option String
  unfolding first_pattern
  find_obvious_secret text = if is_empty text then none else first_pattern patterns text

  -- `walk` on a node that is not too deep
  unfoldable mutual
    unfolding find_obvious_secret

    pub walk : Value → ℕ → Option String
    walk null d = if ltb max_walk_depth d then some traversal_limit_pattern_id else none
    walk (bool _) d = if ltb max_walk_depth d then some traversal_limit_pattern_id else none
    walk (int _) d = if ltb max_walk_depth d then some traversal_limit_pattern_id else none
    walk (float _) d = if ltb max_walk_depth d then some traversal_limit_pattern_id else none
    walk (str s) d =
        if ltb max_walk_depth d then some traversal_limit_pattern_id else find_obvious_secret s
    walk (list xs) d =
        let found = walk_items xs (suc d) in
        if ltb max_walk_depth d then some traversal_limit_pattern_id else found
    walk (dict fs) d =
        let found = walk_fields fs (suc d) in
        if ltb max_walk_depth d then some traversal_limit_pattern_id else found

    pub walk_items : Items → ℕ → Option String
    walk_items nil d = none
    walk_items (cons x xs) d = first_some (walk x d) (walk_items xs d)

    -- a key is walked as a text of its own
    pub walk_fields : Fields → ℕ → Option String
    walk_fields end d = none
    walk_fields (field k v fs) d =
        first_some
          (if ltb max_walk_depth d then some traversal_limit_pattern_id else find_obvious_secret k)
          (first_some (walk v d) (walk_fields fs d))

  unfoldable pub find_obvious_secret_in_value : Value → Option String
  unfolding walk
  find_obvious_secret_in_value v = walk v 0

  unfoldable pub refuse_obvious_secret_in_value :
      Value → Bool → Result ObviousSecretError (Unit {0})
  unfolding find_obvious_secret_in_value safe_message
  refuse_obvious_secret_in_value v persisted_already = elim (find_obvious_secret_in_value v) [
    | none ↦ ok tt
    | some id ↦ err (record {
      pattern_id = id;
      persisted_already = persisted_already;
      message = safe_message id persisted_already;
    })
  ]

  text_or_null : Option String → Value
  text_or_null none = null
  text_or_null (some s) = str s

  unfoldable pub refuse_obvious_secret : Option String → Bool → Result ObviousSecretError (Unit {0})
  unfolding refuse_obvious_secret_in_value text_or_null
  refuse_obvious_secret text persisted_already =
      refuse_obvious_secret_in_value (text_or_null text) persisted_already

  -- no arguments are no dict, or an empty one
  unfoldable pub refuse_obvious_secret_in_arguments :
      Dict Value → Result ObviousSecretError (Unit {0})
  unfolding refuse_obvious_secret_in_value fields_of
  refuse_obvious_secret_in_arguments [] = ok tt
  refuse_obvious_secret_in_arguments (a ∷ arguments) =
      refuse_obvious_secret_in_value (dict (fields_of (a ∷ arguments))) false

  unfoldable pub refuse_obvious_secret_in_tool_request :
      Option String → Dict Value → Result ObviousSecretError (Unit {0})
  unfolding refuse_obvious_secret_in_value text_or_null fields_of
  refuse_obvious_secret_in_tool_request name arguments =
      refuse_obvious_secret_in_value
        (dict
          (field "name" (text_or_null name) (field "arguments" (dict (fields_of arguments)) end)))
        false
