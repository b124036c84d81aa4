-- ===== src/Tests/Governance.antt =====
-- Views, the index and the snapshot of three thoughts.
use fava_trails.Base.{
  ◌≡◌, refl, ◌≢◌, ◌⊎◌, String, Bool, ◌==◌, true, false, none, some, [], ◌∷◌, ◌≤◌, arith,
}
use fava_trails.Base.Dict.{Dict, IsDict, lookup, insert, remove}
use fava_trails.Base.Text.{before_first}
use fava_trails.Base.Result.{ok}
use fava_trails.Models.Enums.{draft, approved}
use fava_trails.Models.Thought.{ThoughtRecord, default_frontmatter, thought_id_of}
use fava_trails.Governance.Visibility.{
  Principal, Visibility, visibility, allows, is_effectively_superseded,
}
use fava_trails.Governance.Index.{
  IsPlainId, qualified, count_id, record_index, RecordSnapshot, relative, unique_id-record_index,
  ambiguous_id-record_index,
}
use fava_trails.Governance.Reading.{has_undecodable, read_snapshot, parsed, read_snapshot_lenient}
use fava_trails.Transactions.Disk.{Disk}
use fava_trails.Transactions.Journal.{load_journal}
use fava_trails.Transactions.Snapshot.{reading}
use fava_trails.Governance.Arguments.{
  visibility_from_arguments, unapproved-visibility_from_arguments,
}
use fava_trails.Governance.Privilege.{superseded_needs_operator}
use fava_trails.Base.Value.{Value, null, str}
use fava_trails.Tests.Samples.{thought, parse, retired, replacement, files, original_path}

abbrev alice : Principal
alice = record { agent_id = some "alice"; operator = false }

abbrev operator : Principal
operator = record { agent_id = none; operator = true }

abbrev drafts_of_alice : Visibility
drafts_of_alice = record {
  mode = "authoring";
  principal = alice;
  statuses = [];
  include_superseded = false;
}

abbrev whole_history : Visibility
whole_history = record {
  mode = "history";
  principal = operator;
  statuses = [];
  include_superseded = true;
}

drafts_of_alice-accepted : visibility "authoring" alice [] false ≡ ok drafts_of_alice
unfolding visibility
drafts_of_alice-accepted = refl

whole_history-accepted : visibility "history" operator [] true ≡ ok whole_history
unfolding visibility
whole_history-accepted = refl

draft-shown : allows drafts_of_alice (thought "D" "alice" draft) [] ≡ true
unfolding allows is_effectively_superseded lookup
draft-shown = refl

draft≢approved : draft ≢ approved
draft≢approved h = cc

abbrev arguments : Dict Value
arguments = ("mode", str "authoring") ∷ ("statuses", null) ∷ []

arguments-accepted : visibility_from_arguments arguments alice ≡ ok drafts_of_alice
unfolding visibility_from_arguments lookup
arguments-accepted = refl

unapproved-visibility_from_arguments_example :
    (alice.operator ≡ true) ⊎ (alice.agent_id ≡ some "alice")
unfolding default_frontmatter
unapproved-visibility_from_arguments_example =
    unapproved-visibility_from_arguments arguments alice drafts_of_alice (thought "D" "alice" draft)
      [] arguments-accepted draft-shown draft≢approved

abbrev by_id : Dict ThoughtRecord
by_id = ("mw:N", replacement approved) ∷ []

retired-shown : allows whole_history retired by_id ≡ true
unfolding allows
retired-shown = refl

retired-superseded : is_effectively_superseded retired by_id ≡ true
unfolding is_effectively_superseded lookup default_frontmatter
retired-superseded = refl

superseded_needs_operator_example : operator.operator ≡ true
superseded_needs_operator_example =
    superseded_needs_operator "history" operator [] true whole_history retired by_id
      whole_history-accepted retired-shown retired-superseded

abbrev twice : Dict ThoughtRecord
twice =
    ("mw/thoughts/drafts/A.md", thought "A" "alice" draft)
    ∷ ("eng/thoughts/drafts/A.md", thought "A" "bob" approved)
    ∷ ("eng/thoughts/drafts/B.md", thought "B" "bob" approved)
    ∷ []

A-twice : 2 ≤ count_id "A" twice
unfolding default_frontmatter
A-twice = omega arith

ambiguous_id-record_index_example : lookup "A" (record_index twice) ≡ none
ambiguous_id-record_index_example = ambiguous_id-record_index "A" twice A-twice

B-plain : IsPlainId "B" twice
unfolding default_frontmatter qualified before_first
B-plain = (refl, (refl, (refl, tt)))

B-indexed : lookup "B" (record_index twice) ≡ some (thought "B" "bob" approved)
unfolding record_index lookup default_frontmatter insert before_first remove
B-indexed = refl

unique_id-record_index_example :
    (thought_id_of (thought "B" "bob" approved) ≡ "B") × (count_id "B" twice ≤ 1)
unique_id-record_index_example =
    unique_id-record_index "B" twice (thought "B" "bob" approved) B-plain B-indexed

-- a thought file that does not parse beside two that do
abbrev bad_disk : Disk
bad_disk = record {
  files = ("trails/mw/thoughts/drafts/bad.md", "no frontmatter") ∷ files;
  journal = none;
  commits = [];
}

-- all but one text are UTF-8
abbrev undecodable : String → Bool
undecodable name = name == "trails/mw/thoughts/drafts/other.md"

bad_disk-decodes : has_undecodable (λ p. true) (λ p. true) undecodable [] bad_disk.files ≡ false
unfolding has_undecodable lookup
bad_disk-decodes = refl

no_journal : load_journal (λ p. true) bad_disk.journal ≡ ok []
unfolding load_journal
no_journal = refl

bad_disk-IsDict : IsDict bad_disk.files
unfolding lookup
bad_disk-IsDict = (refl, (refl, (refl, tt)))

read_snapshot_lenient_example :
    (s : RecordSnapshot) × (read_snapshot
        (λ p. true)
        (λ p. true)
        undecodable
        parse
        "trails"
        false
        false
        bad_disk
      ≡ ok s)
    × (lookup original_path s.records
        ≡ parsed parse (reading (λ p. true) [] bad_disk.files original_path))
    × (s.by_id ≡ record_index (relative "trails" s.records))
read_snapshot_lenient_example =
    read_snapshot_lenient (λ p. true) (λ p. true) undecodable parse "trails" bad_disk []
      original_path no_journal bad_disk-decodes tt bad_disk-IsDict
