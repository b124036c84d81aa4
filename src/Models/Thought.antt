-- ===== src/Models/Thought.antt =====
-- The thought record of src/fava_trails/models.py: frontmatter and content.
use fava_trails.Base.{ℕ, String, Bool, Option, none, List, [], is_some}
use fava_trails.Base.Number.{Float, half_float}
use fava_trails.Base.Dict.{Dict}
use fava_trails.Base.Value.{Value}
use fava_trails.Models.Enums.{
  SourceType, observation, inference, user_input, tool_output, decision, ValidationStatus, draft,
  RelationshipType,
}

pub record Relationship : Type 0 where
  pub type : RelationshipType
  pub target_id : String

pub record ThoughtMetadata : Type 0 where
  pub project : Option String
  pub branch : Option String
  pub tags : List String
  pub extra : Dict Value

-- `created_at` counts the microseconds since the epoch.
pub record ThoughtFrontmatter : Type 0 where
  pub schema_version : ℕ
  pub thought_id : String
  pub parent_id : Option String
  pub superseded_by : Option String
  pub superseded_scope : Option String
  pub supersedes_id : Option String
  pub supersedes_scope : Option String
  pub agent_id : String
  pub confidence : Float
  pub source_type : SourceType
  pub validation_status : ValidationStatus
  pub intent_ref : Option String
  pub created_at : ℕ
  pub relationships : List Relationship
  pub metadata : ThoughtMetadata

pub record ThoughtRecord : Type 0 where
  pub frontmatter : ThoughtFrontmatter
  pub content : String

abbrev pub empty_metadata : ThoughtMetadata
empty_metadata = record { project = none; branch = none; tags = []; extra = [] }

-- the defaults of `ThoughtFrontmatter()`; the ULID and the clock are read at the call
unfoldable pub default_frontmatter : String → ℕ → ThoughtFrontmatter
default_frontmatter ulid now = record {
  schema_version = 1;
  thought_id = ulid;
  parent_id = none;
  superseded_by = none;
  superseded_scope = none;
  supersedes_id = none;
  supersedes_scope = none;
  agent_id = "unknown";
  confidence = half_float;
  source_type = observation;
  validation_status = draft;
  intent_ref = none;
  created_at = now;
  relationships = [];
  metadata = empty_metadata;
}

abbrev pub thought_id_of : ThoughtRecord → String
thought_id_of r = r.frontmatter.thought_id

abbrev pub status_of_record : ThoughtRecord → ValidationStatus
status_of_record r = r.frontmatter.validation_status

unfoldable pub is_superseded : ThoughtRecord → Bool
is_superseded r = is_some r.frontmatter.superseded_by

-- NAMESPACE_ROUTES
unfoldable pub namespace_route : SourceType → String
namespace_route decision = "decisions"
namespace_route observation = "observations"
namespace_route inference = "observations"
namespace_route tool_output = "observations"
namespace_route user_input = "preferences"

abbrev pub default_namespace : String
default_namespace = "drafts"
