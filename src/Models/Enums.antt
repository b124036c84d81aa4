-- ===== src/Models/Enums.antt =====
-- The enumerations of src/fava_trails/models.py and their values in files and arguments.
use fava_trails.Base.{
  String, ◌≡◌, refl, Bool, true, false, Option, none, some, arith, ◌==◌, if◌then◌else◌,
}

pub data SourceType : Type 0 where
  observation inference user_input tool_output decision : SourceType

pub data ValidationStatus : Type 0 where
  draft proposed approved rejected error tombstoned : ValidationStatus

pub data RelationshipType : Type 0 where
  depends_on revised_by authored_by references supersedes : RelationshipType

-- `source_type.value`
unfoldable pub source_value : SourceType → String
source_value observation = "observation"
source_value inference = "inference"
source_value user_input = "user_input"
source_value tool_output = "tool_output"
source_value decision = "decision"

-- `validation_status.value`
unfoldable pub status_value : ValidationStatus → String
status_value draft = "draft"
status_value proposed = "proposed"
status_value approved = "approved"
status_value rejected = "rejected"
status_value error = "error"
status_value tombstoned = "tombstoned"

-- `ValidationStatus(s)`, which raises ValueError where this is `none`
unfoldable pub status_of : String → Option ValidationStatus
status_of s =
    if s == "draft"
    then some draft
    else if s == "proposed"
    then some proposed
    else if s == "approved"
    then some approved
    else if s == "rejected"
    then some rejected
    else if s == "error"
    then some error
    else if s == "tombstoned"
    then some tombstoned
    else none

abbrev pub relationship_value : RelationshipType → String
relationship_value depends_on = "DEPENDS_ON"
relationship_value revised_by = "REVISED_BY"
relationship_value authored_by = "AUTHORED_BY"
relationship_value references = "REFERENCES"
relationship_value supersedes = "SUPERSEDES"

-- `RelationshipType(s)`, which raises ValueError where this is `none`
unfoldable pub relationship_of : String → Option RelationshipType
relationship_of s =
    if s == "DEPENDS_ON"
    then some depends_on
    else if s == "REVISED_BY"
    then some revised_by
    else if s == "AUTHORED_BY"
    then some authored_by
    else if s == "REFERENCES"
    then some references
    else if s == "SUPERSEDES"
    then some supersedes
    else none

-- `a == b` on statuses
abbrev pub same_status : ValidationStatus → ValidationStatus → Bool
same_status draft draft = true
same_status proposed proposed = true
same_status approved approved = true
same_status rejected rejected = true
same_status error error = true
same_status tombstoned tombstoned = true
same_status _ _ = false

pub same_status→eq : (a b : ValidationStatus) → same_status a b ≡ true → a ≡ b
same_status→eq a b h = ground arith

-- The text of a status names that status.
pub status_of-status_value : (s : ValidationStatus) → status_of (status_value s) ≡ some s
unfolding status_of status_value
status_of-status_value draft = refl
status_of-status_value _ = refl
