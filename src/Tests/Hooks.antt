-- ===== src/Tests/Hooks.antt =====
-- Two hooks on a thought that is saved.
use fava_trails.Base.{◌≡◌, refl, ◌≤◌, true, some, [], ◌∷◌, arith}
use fava_trails.Base.Number.{finite, pos}
use fava_trails.Models.Enums.{draft}
use fava_trails.Hooks.Actions.{HookEvent, saving, warn, reject, validate_action}
use fava_trails.Hooks.Feedback.{
  no_feedback, merge, merge_from, IsBounded, byte_length, truncate_message, max_message_bytes,
  merge_from-IsBounded, truncate_message-le,
}
use fava_trails.Hooks.Pipeline.{
  HookSpec, many, timed_out, PipelineResult, returned, run_pipeline, empty_result,
}
use fava_trails.Hooks.Pipeline.Invariant.{IsSound}
use fava_trails.Hooks.Pipeline.Soundness.{run_pipeline-IsSound}
use fava_trails.Tests.Samples.{thought}

abbrev event : HookEvent
event = record {
  trail_name = "mw";
  lifecycle_point = "before_save";
  payload = saving (some (thought "D" "alice" draft)) "drafts";
}

abbrev slow : HookSpec
slow = record {
  name = "slow";
  fn = λ e. timed_out;
  fail_mode = "open";
  timeout = finite 5 0;
  order = pos 1;
  config = [];
  source = "";
}

abbrev strict : HookSpec
strict = record {
  name = "strict";
  fn = λ e. many (warn "short" "" ∷ reject "empty" "" ∷ []);
  fail_mode = "closed";
  timeout = finite 5 0;
  order = pos 2;
  config = [];
  source = "";
}

abbrev result : PipelineResult
result = record (empty_result (some event)) {
  feedback = merge (merge no_feedback (warn "short" "")) (reject "empty" "");
  rejected = true;
}

-- the slow hook is passed over, and the strict one stops the pipeline
rejected : run_pipeline (slow ∷ strict ∷ []) event ≡ returned result
unfolding run_pipeline validate_action
rejected = refl

run_pipeline-IsSound_example : IsSound event result
run_pipeline-IsSound_example = run_pipeline-IsSound (slow ∷ strict ∷ []) event result rejected

no_feedback-IsBounded : IsBounded no_feedback
no_feedback-IsBounded = record {
  warnings = omega arith;
  advice = omega arith;
  warning_bytes = tt;
  advice_bytes = tt;
}

merge_from-IsBounded_example : IsBounded (merge_from no_feedback no_feedback)
merge_from-IsBounded_example =
    merge_from-IsBounded no_feedback no_feedback no_feedback-IsBounded no_feedback-IsBounded

truncate_message-le_example : byte_length (truncate_message "too short") ≤ max_message_bytes
truncate_message-le_example = truncate_message-le "too short"
