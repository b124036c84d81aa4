-- ===== src/Review/Payload.antt =====
-- What a review transmits (src/fava_trails/trust_gate.py).
use Prim.Native.Char.{Char, code}
use Prim.Native.String
use text.Mathlib.TextLemmas.{nil-append, cons-append}
use fava_trails.Base.{
  String, ◌≡◌, refl, Bool, false, ◌||◌, Option, none, some, List, [], ◌∷◌, ◌++◌, arith, nat_eq,
  if◌then◌else◌, Bool-cases, inl, inr, ap, ◌∙◌,
}
use fava_trails.Base.Dict.{Dict}
use fava_trails.Base.Text.{concat, is_empty}
use fava_trails.Base.Value.{Value, str, float, list, dict, Items, nil, cons, fields_of}
use fava_trails.Models.Enums.{source_value, status_value}
use fava_trails.Models.Thought.{ThoughtRecord}

-- an entry for a text that is neither None nor empty
text_entry : String → Option String → Dict Value
text_entry name none = []
text_entry name (some s) = if is_empty s then [] else (name, str s) ∷ []

items_of : List String → Items
items_of [] = nil
items_of (s ∷ rest) = cons (str s) (items_of rest)

tags_entry : List String → Dict Value
unfolding items_of
tags_entry [] = []
tags_entry (t ∷ tags) = ("tags", list (items_of (t ∷ tags))) ∷ []

metadata_entry : Dict Value → Dict Value
unfolding fields_of
metadata_entry [] = []
metadata_entry (e ∷ meta) = ("metadata", dict (fields_of (e ∷ meta))) ∷ []

-- `_redact_metadata`
unfoldable pub redact_metadata : ThoughtRecord → Option String → Dict Value
unfolding text_entry tags_entry metadata_entry
redact_metadata r trail_name =
    let fm = r.frontmatter in
    let meta = fm.metadata in
    ("thought_id", str fm.thought_id)
    ∷ ("source_type", str (source_value fm.source_type))
    ∷ ("confidence", float fm.confidence)
    ∷ ("validation_status", str (status_value fm.validation_status))
    ∷ (text_entry "trail_name" trail_name
        ++ (text_entry "parent_id" fm.parent_id
            ++ metadata_entry (
                text_entry "project" meta.project
                ++ (text_entry "branch" meta.branch ++ tags_entry meta.tags))))

-- one character, as `html.escape(s, quote=False)` writes it
escape_char : Char → String
escape_char c =
    if nat_eq (code c) b'&'
    then "&amp;"
    else if nat_eq (code c) b'<'
    then "&lt;"
    else if nat_eq (code c) b'>'
    then "&gt;"
    else String.◌∷◌ c ""

unfoldable pub escape : String → String
unfolding escape_char
escape String.[] = ""
escape (String.◌∷◌ c s) = Prim.Native.String.◌++◌ (escape_char c) (escape s)

-- `yaml.dump` is the argument
module _ (dump : Dict Value → String) where
  -- `_build_review_payload`: the system message and the user message
  unfoldable pub build_review_payload : String → ThoughtRecord → Option String → String × String
  unfolding redact_metadata escape
  build_review_payload prompt r trail_name = (
    prompt,
    concat (
        "<thought_under_review>\n"
        ∷ escape r.content
        ∷ "\n</thought_under_review>\n\n<thought_metadata>\n"
        ∷ escape (dump (redact_metadata r trail_name))
        ∷ "</thought_metadata>"
        ∷ []),
  )

  -- `_build_decisions_state`
  unfoldable pub build_decisions_state : String → ThoughtRecord → Option String → Value
  unfolding redact_metadata escape fields_of
  build_decisions_state prompt r trail_name = dict (
      fields_of (
        ("review_instructions", str prompt)
        ∷ ("thought_under_review", str (escape r.content))
        ∷ ("thought_metadata", str (escape (dump (redact_metadata r trail_name))))
        ∷ []))

-- `r` with another author, another `extra` and other links, which no review is to see
abbrev pub with_private :
    ThoughtRecord → String → Dict Value → Option String → Option String → ThoughtRecord
with_private r agent_id extra intent_ref superseded_by = record r {
  frontmatter = record r.frontmatter {
    agent_id = agent_id;
    intent_ref = intent_ref;
    superseded_by = superseded_by;
    metadata = record r.frontmatter.metadata { extra = extra };
  };
}

-- What is transmitted, by either policy, does not depend on the author of the thought, nor on the
-- extra metadata, the intent or the successor.
pub payload-with_private :
    (dump : Dict Value → String) (prompt : String) (r : ThoughtRecord) (trail_name : Option String)
    (agent_id : String) (extra : Dict Value) (intent_ref superseded_by : Option String)
    → let r' = with_private r agent_id extra intent_ref superseded_by in
      (build_review_payload dump prompt r' trail_name
        ≡ build_review_payload dump prompt r trail_name)
      × (build_decisions_state dump prompt r' trail_name
          ≡ build_decisions_state dump prompt r trail_name)
unfolding build_review_payload build_decisions_state redact_metadata
payload-with_private dump prompt r trail_name agent_id extra intent_ref superseded_by = (refl, refl)

-- Neither bracket is in a text.
unfoldable pub has_bracket : String → Bool
has_bracket String.[] = false
has_bracket (String.◌∷◌ c s) = nat_eq (code c) b'<' || nat_eq (code c) b'>' || has_bracket s

has_bracket-append :
    (a b : String) → has_bracket (Prim.Native.String.◌++◌ a b) ≡ has_bracket a || has_bracket b
unfolding has_bracket
has_bracket-append String.[] b = ap has_bracket (nil-append b)
has_bracket-append (String.◌∷◌ c a) b =
    ap has_bracket (cons-append c a b) ∙ ground (arith, has_bracket-append a b)

escape_char-plain : (c : Char) → has_bracket (escape_char c) ≡ false
unfolding has_bracket escape_char
escape_char-plain c = elim (Bool-cases (nat_eq (code c) b'&')) [
  | inl e ↦ rw e refl
  | inr a ↦ elim (Bool-cases (nat_eq (code c) b'<')) [
    | inl e ↦ rw (a, e) refl
    | inr b ↦ elim (Bool-cases (nat_eq (code c) b'>')) [
      | inl e ↦ rw (a, b, e) refl
      | inr d ↦ rw (a, b, d) (rw (b, d) refl)
    ]
  ]
]

escape-plain : (s : String) → has_bracket (escape s) ≡ false
unfolding escape
escape-plain String.[] = unfold has_bracket in refl
escape-plain (String.◌∷◌ c s) =
    has_bracket-append (escape_char c) (escape s)
    ∙ ground (arith, escape_char-plain c, escape-plain s)

-- A thought cannot write a tag of its own: what stands between the tags of the user message has no
-- bracket, in its content and in its metadata.
pub user_message-plain :
    (dump : Dict Value → String) (prompt : String) (r : ThoughtRecord) (trail_name : Option String)
    → (content : String) × (metadata : String) × ((build_review_payload dump prompt r trail_name).1
        ≡ concat (
            "<thought_under_review>\n" ∷ content
            ∷ "\n</thought_under_review>\n\n<thought_metadata>\n" ∷ metadata ∷ "</thought_metadata>"
            ∷ []))
      × (has_bracket content ≡ false)
      × (has_bracket metadata ≡ false)
unfolding build_review_payload
user_message-plain dump prompt r trail_name = (
  escape r.content,
  escape (dump (redact_metadata r trail_name)),
  refl,
  escape-plain r.content,
  escape-plain (dump (redact_metadata r trail_name)),
)
