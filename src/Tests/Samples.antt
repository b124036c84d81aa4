-- ===== src/Tests/Samples.antt =====
-- The records, files and settings of the tests.
use fava_trails.Base.{String, true, none, some, [], ◌∷◌, ◌==◌, if◌then◌else◌}
use fava_trails.Base.Dict.{Dict}
use fava_trails.Base.Value.{str}
use fava_trails.Base.Result.{Result, ok, err}
use fava_trails.Models.Enums.{ValidationStatus, draft, approved}
use fava_trails.Models.Thought.{ThoughtRecord, default_frontmatter}
use fava_trails.Transactions.Disk.{TransactionError, malformed_thought}
use fava_trails.Trail.Paths.{Trail}
use fava_trails.Trail.Promotion.{Environment}
use fava_trails.Trail.Review.{TrustResult, approve, reject, llm_advisory}

abbrev pub thought : String → String → ValidationStatus → ThoughtRecord
thought id agent status = record {
  frontmatter = record (default_frontmatter id 5) { agent_id = agent; validation_status = status };
  content = id;
}

-- "N" replaces "O"
abbrev pub replacement : ValidationStatus → ThoughtRecord
replacement status = record {
  frontmatter = record (default_frontmatter "N" 7) {
    agent_id = "alice";
    validation_status = status;
    supersedes_id = some "O";
    supersedes_scope = some "mw";
  };
  content = "new";
}

abbrev pub original : ThoughtRecord
original = thought "O" "alice" approved

abbrev pub retired : ThoughtRecord
retired = record original {
  frontmatter = record original.frontmatter {
    superseded_by = some "N";
    superseded_scope = some "mw";
  };
}

-- a codec of three texts
abbrev pub parse : String → Result TransactionError ThoughtRecord
parse text =
    if text == "draft of N"
    then ok (replacement draft)
    else if text == "O"
    then ok original
    else err malformed_thought

abbrev pub env : Environment
env = record {
  parse = parse;
  render = λ r. r.content;
  has_secret = λ r. r.content == "sk-secret";
  same_record = λ a b. a.content == b.content;
  is_thought = λ path. true;
  trails_dir = "trails";
  isoformat = λ now. "2026-01-01T00:00:00";
  in_place = λ r. r;
}

abbrev pub trail : Trail
trail = record { name = "mw"; directory = "trails/mw" }

abbrev pub draft_path : String
draft_path = "trails/mw/thoughts/drafts/N.md"

abbrev pub original_path : String
original_path = "trails/mw/thoughts/observations/O.md"

abbrev pub files : Dict String
files = (draft_path, "draft of N") ∷ (original_path, "O") ∷ []

abbrev pub approval : TrustResult
approval = record {
  verdict = approve;
  reasoning = str "sound";
  reviewer = "llm";
  reviewed_at = 9;
  confidence = none;
  provider = none;
  model = none;
  approval_kind = llm_advisory;
  policy = none;
  noul_probability = none;
  threshold = none;
}

abbrev pub refusal : TrustResult
refusal = record approval { verdict = reject }
