-- ===== src/Trail/Review.antt =====
-- The result of a review, and how `propose_truth` writes it on a thought
-- (`TrustResult` of src/fava_trails/trust_gate.py, src/fava_trails/trail.py).
use fava_trails.Base.{ℕ, String, Option, none, some, [], ◌∷◌, ◌++◌}
use fava_trails.Base.Number.{Float}
use fava_trails.Base.Dict.{Dict, insert}
use fava_trails.Base.Value.{Value, str, float, dict, fields_of}
use fava_trails.Models.Enums.{ValidationStatus, proposed, approved, rejected, error}
use fava_trails.Models.Thought.{ThoughtRecord}

pub data Verdict : Type 0 where
  approve reject failure : Verdict

pub data ApprovalKind : Type 0 where
  llm_advisory human : ApprovalKind

-- The reasoning and the confidence are what a reviewer's JSON holds, of any type.
pub record TrustResult : Type 0 where
  pub verdict : Verdict
  pub reasoning : Value
  pub reviewer : String
  pub reviewed_at : ℕ
  pub confidence : Option Value
  pub provider : Option String
  pub model : Option String
  pub approval_kind : ApprovalKind
  pub policy : Option String
  pub noul_probability : Option Float
  pub threshold : Option Float

verdict_text : Verdict → String
verdict_text approve = "approve"
verdict_text reject = "reject"
verdict_text failure = "error"

kind_text : ApprovalKind → String
kind_text llm_advisory = "llm_advisory"
kind_text human = "human"

-- an entry for a value that is not None
entry : String → Option Value → Dict Value
entry name none = []
entry name (some v) = (name, v) ∷ []

text_entry : String → Option String → Dict Value
unfolding entry
text_entry name none = []
text_entry name (some s) = entry name (some (str s))

float_entry : String → Option Float → Dict Value
unfolding entry
float_entry name none = []
float_entry name (some x) = entry name (some (float x))

-- `datetime.isoformat` is the argument
module _ (isoformat : ℕ → String) where
  -- `record.frontmatter.metadata.extra["trust_gate"]`
  unfoldable pub trust_gate_entry : TrustResult → Value
  unfolding verdict_text kind_text entry text_entry float_entry
  trust_gate_entry r = dict (
      fields_of (
        ("reviewer", str r.reviewer)
        ∷ ("reviewed_at", str (isoformat r.reviewed_at))
        ∷ ("verdict", str (verdict_text r.verdict))
        ∷ ("reasoning", r.reasoning)
        ∷ ("kind", str (kind_text r.approval_kind))
        ∷ (entry "confidence" r.confidence
            ++ (text_entry "provider" r.provider
                ++ (text_entry "model" r.model
                    ++ (text_entry "policy" r.policy
                        ++ (float_entry "noul_probability" r.noul_probability
                            ++ float_entry "threshold" r.threshold)))))))

  -- `record.frontmatter.metadata.extra["approval"]`
  approval_entry : TrustResult → Value
  unfolding kind_text
  approval_entry r = dict (
      fields_of (
        ("kind", str (kind_text r.approval_kind))
        ∷ ("actor", str r.reviewer)
        ∷ ("approved_at", str (isoformat r.reviewed_at))
        ∷ []))

  unfoldable pub status_for : Verdict → ValidationStatus
  status_for approve = approved
  status_for reject = rejected
  status_for failure = error

  approval : Verdict → TrustResult → Dict Value → Dict Value
  unfolding approval_entry
  approval approve r extra = insert "approval" (approval_entry r) extra
  approval reject r extra = extra
  approval failure r extra = extra

  reviewed_extra : TrustResult → Dict Value → Dict Value
  unfolding approval
  reviewed_extra r extra = approval r.verdict r (insert "trust_gate" (trust_gate_entry r) extra)

  -- the `if trust_result is not None` statement
  unfoldable pub apply_review : Option TrustResult → ThoughtRecord → ThoughtRecord
  unfolding status_for reviewed_extra
  apply_review none record_ = record record_ {
    frontmatter = record record_.frontmatter { validation_status = proposed };
  }
  apply_review (some r) record_ =
      let fm = record_.frontmatter in
      let meta = fm.metadata in
      record record_ {
        frontmatter = record fm {
          validation_status = status_for r.verdict;
          metadata = record meta { extra = reviewed_extra r meta.extra };
        };
      }

abbrev pub with_status : Option TrustResult → ValidationStatus
with_status none = proposed
with_status (some r) = elim r.verdict [ approve ↦ approved | reject ↦ rejected | failure ↦ error ]
