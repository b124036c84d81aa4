-- ===== src/Tests/Recalls.antt =====
-- Recalls of two thoughts.
use fava_trails.Base.{◌≡◌, refl, true, false, none, [], ◌∷◌, ◌≤◌, All, length}
use fava_trails.Base.Dict.{lookup}
use fava_trails.Base.Result.{ok}
use fava_trails.Models.Enums.{draft}
use fava_trails.Models.Thought.{default_frontmatter}
use fava_trails.Governance.Visibility.{Visibility, allows, is_effectively_superseded}
use fava_trails.Governance.Index.{RecordSnapshot}
use fava_trails.Trail.Updates.{}
use fava_trails.Trail.Updates.Freeze.{}
use fava_trails.Trail.Filter.{Query, Texts, is_within}
use fava_trails.Trail.Recall.{recall, thoughts_dir}
use fava_trails.Trail.Recall.Shown.{IsShown}
use fava_trails.Trail.Recall.Soundness.{recall-IsShown}
use fava_trails.Tests.Samples.{replacement, original, trail, draft_path, original_path, files}
use fava_trails.Base.{IsDistinct}
use fava_trails.Trail.Recall.{merge_trails}
use fava_trails.Trail.Recall.Merged.{ids, merge_trails-IsDistinct}

abbrev texts : Texts
texts = record { lower = λ s. s; split = λ s. s ∷ []; set_order = λ ids. ids }

abbrev governed : Visibility
governed = record {
  mode = "governed";
  principal = record { agent_id = none; operator = false };
  statuses = [];
  include_superseded = false;
}

abbrev snapshot : RecordSnapshot
snapshot = record {
  texts = files;
  records = (draft_path, replacement draft) ∷ (original_path, original) ∷ [];
  by_id = ("N", replacement draft) ∷ ("O", original) ∷ [];
}

abbrev everything : Query
everything = record {
  query = "";
  namespace = none;
  scope = none;
  include_relationships = true;
  limit = 5;
}

-- the draft is left out
O-recalled : recall texts false [] snapshot trail governed everything ≡ ok (original ∷ [])
unfolding recall allows is_within lookup default_frontmatter is_effectively_superseded
O-recalled = refl

recall-IsShown_example :
    All (IsShown governed snapshot (thoughts_dir trail)) (original ∷ [])
    × (length (original ∷ []) ≤ 5)
recall-IsShown_example =
    recall-IsShown texts false [] snapshot trail governed everything (original ∷ []) O-recalled

-- the trail is searched twice
O-merged :
    merge_trails texts false [] snapshot (trail ∷ trail ∷ []) governed everything []
    ≡ ok ((original, "mw") ∷ [])
unfolding merge_trails recall allows is_within lookup default_frontmatter is_effectively_superseded
O-merged = refl

merge_trails-IsDistinct_example : IsDistinct (ids ((original, "mw") ∷ []))
merge_trails-IsDistinct_example =
    merge_trails-IsDistinct texts false [] snapshot (trail ∷ trail ∷ []) governed everything []
      ((original, "mw") ∷ []) tt O-merged
