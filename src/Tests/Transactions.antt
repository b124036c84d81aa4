-- ===== src/Tests/Transactions.antt =====
-- An interrupted transaction, and one that publishes two files.
use fava_trails.Base.{String, ◌≡◌, refl, Bool, true, none, some, [], ◌∷◌, length}
use mathlib.Core.Option
use fava_trails.Base.Dict.{Dict, lookup, IsDict}
use fava_trails.Base.Result.{ok}
use fava_trails.Base.Text.{has_infix}
use fava_trails.Base.Value.{entries, fields_of}
use fava_trails.Models.Thought.{ThoughtRecord}
use fava_trails.Transactions.Disk.{Disk, Image, World, Schedule, done, raised, Run, pure}
use fava_trails.Transactions.Journal.{
  load_journal, dump_journal, AllSafe, load_journal-dump_journal,
}
use fava_trails.Transactions.Snapshot.{snapshot, reading, ok_of, lookup-snapshot}
use fava_trails.Transactions.Persist.{recover, persist_governance, is_expected}
use fava_trails.Transactions.Persist.Ends.{Ends, IsKept}
use fava_trails.Transactions.Persist.Recovery.{IsConsistent, Same, Recovered, recover-Ends}
use fava_trails.Transactions.Persist.Publication.{NoLateRaise, IsQuiet, IsBatch}
use fava_trails.Transactions.Persist.Whole.{Old, New, persist-Ends}
use fava_trails.Transactions.Persist.Completion.{Returns, steps, persist_governance-Returns}
use fava_trails.Tests.Samples.{draft_path, original_path, files}

abbrev anywhere : String → Bool
anywhere name = true

-- the writer died before it removed the draft
abbrev pending : Dict Image
pending = (draft_path, some "draft of N") ∷ ("trails/mw/thoughts/observations/N.md", none) ∷ []

pending-AllSafe : AllSafe anywhere pending
unfolding has_infix
pending-AllSafe = (refl, (refl, tt))

load_journal-dump_journal_example : load_journal anywhere (some (dump_journal pending)) ≡ ok pending
load_journal-dump_journal_example = load_journal-dump_journal anywhere pending pending-AllSafe

abbrev interrupted : Disk
interrupted = record {
  files = ("trails/mw/thoughts/observations/N.md", "new") ∷ files;
  journal = some (dump_journal pending);
  commits = [];
}

-- `load_journal` of what was dumped
interrupted-loads : load_journal anywhere interrupted.journal ≡ ok pending
unfolding load_journal dump_journal has_infix lookup entries fields_of
interrupted-loads = refl

pending-IsDict : IsDict pending
unfolding lookup
pending-IsDict = (refl, (refl, tt))

interrupted-IsDict : IsDict interrupted.files
unfolding lookup
interrupted-IsDict = (refl, (refl, (refl, tt)))

interrupted-IsConsistent : IsConsistent anywhere anywhere pending interrupted
interrupted-IsConsistent = record {
  loads = interrupted-loads;
  unique_before = pending-IsDict;
  unique_files = interrupted-IsDict;
  thoughts = (refl, (refl, tt));
}

lookup-snapshot_example :
    Option.map (lookup draft_path) (ok_of (snapshot anywhere anywhere interrupted))
    ≡ some (reading anywhere pending interrupted.files draft_path)
lookup-snapshot_example =
    lookup-snapshot anywhere anywhere interrupted pending draft_path interrupted-loads
      pending-IsDict interrupted-IsDict

abbrev AnySchedule : Schedule → Type 0
AnySchedule s = Unit

AnySchedule-IsKept : IsKept AnySchedule
AnySchedule-IsKept = record { rest = λ o s h. tt }

-- the second file cannot be written
abbrev failing : Schedule
failing = done ∷ raised ∷ done ∷ []

abbrev recovering : World
recovering = record { disk = interrupted; schedule = failing }

recover-Ends_example :
    Ends
      (Same anywhere anywhere AnySchedule AnySchedule-IsKept pending interrupted)
      (Same anywhere anywhere AnySchedule AnySchedule-IsKept pending interrupted)
      (Recovered anywhere anywhere AnySchedule AnySchedule-IsKept pending interrupted)
      (recover anywhere recovering)
recover-Ends_example =
    recover-Ends anywhere anywhere AnySchedule AnySchedule-IsKept pending recovering
      interrupted-IsConsistent tt

abbrev writes : Dict Image
writes = (original_path, some "O") ∷ (draft_path, none) ∷ []

abbrev nothing : Run (Unit {0})
nothing = pure tt

nothing-IsQuiet : IsQuiet nothing
nothing-IsQuiet = record { disk = λ w. refl; schedule = λ w h. h }

writes-IsBatch : IsBatch anywhere anywhere writes
unfolding lookup has_infix
writes-IsBatch = record {
  unique = (refl, (refl, tt));
  safe = (refl, (refl, tt));
  thoughts = (refl, (refl, tt));
}

abbrev is_record : String → ThoughtRecord → Bool
is_record text r = true

failing-NoLateRaise : NoLateRaise failing
failing-NoLateRaise = ((λ h. cc), ((λ h. cc), ((λ h. cc), tt)))

persist-Ends_example :
    Ends
      (Old anywhere anywhere writes "review" nothing writes-IsBatch nothing-IsQuiet is_record []
        nothing nothing-IsQuiet interrupted)
      (Old anywhere anywhere writes "review" nothing writes-IsBatch nothing-IsQuiet is_record []
        nothing nothing-IsQuiet interrupted)
      (New anywhere anywhere writes "review" nothing writes-IsBatch nothing-IsQuiet is_record []
        nothing nothing-IsQuiet interrupted)
      (persist_governance anywhere is_record writes "review" [] nothing nothing recovering)
persist-Ends_example =
    persist-Ends anywhere anywhere writes "review" nothing writes-IsBatch nothing-IsQuiet is_record
      [] nothing nothing-IsQuiet interrupted pending failing interrupted-IsConsistent
      failing-NoLateRaise

abbrev quiet_disk : Disk
quiet_disk = record { files = files; journal = none; commits = [] }

quiet_disk-loads : load_journal anywhere quiet_disk.journal ≡ ok []
unfolding load_journal
quiet_disk-loads = refl

none-is_expected : is_expected anywhere is_record [] files ≡ true
unfolding is_expected
none-is_expected = refl

persist_governance-Returns_example :
    Returns
      (persist_governance anywhere is_record writes "review" []
        (pure tt)
        (pure tt)
        (record { disk = quiet_disk; schedule = done ∷ steps (length writes) (done ∷ done ∷ []) }))
      []
persist_governance-Returns_example =
    persist_governance-Returns anywhere is_record writes "review" [] quiet_disk [] quiet_disk-loads
      none-is_expected
