-- ===== src/Transactions/Persist.antt =====
-- `_recover` and `persist_governance` of src/fava_trails/transactions.py. The locks and the
-- waiting are left out: one writer runs, and readers are kept out by `snapshot_texts`.
pub mod Ends
pub mod Images
pub mod View
pub mod Recovery
pub mod Publication
pub mod Atomic
pub mod Whole
pub mod Completion
use fava_trails.Base.{String, Bool, true, false, Option, none, some, List, [], ◌∷◌, if◌then◌else◌}
use fava_trails.Base.Dict.{Dict, lookup, keys}
use fava_trails.Base.Result.{Result, ok, err}
use fava_trails.Models.Thought.{ThoughtRecord}
use fava_trails.Transactions.Disk.{
  Disk, Image, Exit, returned, failed, broken, killed, World, Run, pure, raise, lift, gets, step,
  replace_file, replace_journal, Commit, TransactionError, thought_changed, ◌>>=◌, ◌>>◌,
}
use fava_trails.Transactions.Journal.{load_journal, dump_journal}

-- `for path, text in writes.items(): _replace(path, text)`
unfoldable pub replace_all : Dict Image → Run (Unit {0})
replace_all [] = pure tt
replace_all ((name, image) ∷ rest) = step (replace_file name image) >> replace_all rest

-- `vcs.commit_files`, as a record of what was committed
unfoldable pub add_commit : String → Dict Image → Disk → Disk
add_commit message writes d = record d {
  commits = record { message = message; paths = keys writes } ∷ d.commits;
}

unfoldable pub commit_files : String → Dict Image → Run (Unit {0})
unfolding add_commit
commit_files message writes = step (add_commit message writes)

-- the body of `if previous:`
unfoldable pub roll_back : Dict Image → Run (Unit {0})
roll_back previous = do
  replace_all previous
  commit_files "Recover interrupted governance approval" previous
  step (replace_journal none)

unfoldable pub restore_previous : Dict Image → Run (Unit {0})
unfolding roll_back
restore_previous [] = pure tt
restore_previous (e ∷ previous) = roll_back (e ∷ previous)

-- `{str(p.relative_to(root)): p.read_bytes().decode("utf-8") if p.exists() else None for p in writes}`
unfoldable pub before_images : Dict Image → Dict String → Dict Image
before_images [] files = []
before_images ((name, _) ∷ rest) files = (name, lookup name files) ∷ before_images rest files

-- what is raised on once the exception handler has ended
unfoldable pub reraise : Exit (Unit {0}) → Exit (Unit {0}) × World → Exit (Unit {0}) × World
reraise original (returned _, w) = (original, w)
reraise original (failed _, w) = (broken, w)
reraise original (broken, w) = (broken, w)
reraise original (killed, w) = (killed, w)

-- the `except BaseException` clause
unfoldable pub restore : Dict Image → Run (Unit {0})
restore before = do replace_all before; step (replace_journal (some (dump_journal before)))

unfoldable pub guarded : Dict Image → Run (Unit {0}) → Run (Unit {0})
unfolding restore reraise
guarded before body w =
    let (r, w') = body w in
    elim r [
      | returned _ ↦ (returned tt, w')
      | failed e ↦ reraise (failed e) (restore before w')
      | broken ↦ reraise broken (restore before w')
      | killed ↦ (killed, w')
    ]

-- the `try` block
unfoldable pub publish : Dict Image → String → Run (Unit {0}) → Run (Unit {0})
publish writes message committed = do
  replace_all writes
  commit_files message writes
  committed
  step (replace_journal none)

-- the journal is written, and the files are published under it
unfoldable pub journalled : Dict Image → String → Run (Unit {0}) → Dict Image → Run (Unit {0})
unfolding guarded publish
journalled writes message committed before =
    step (replace_journal (some (dump_journal before)))
    >> guarded before (publish writes message committed)

module _ (inside : String → Bool) where
  unfoldable pub recover : Run (Unit {0})
  unfolding restore_previous
  recover = do
    previous ← (λ w. lift (load_journal inside w.disk.journal) w)
    restore_previous previous

  -- `is_record text r` is `ThoughtRecord.from_markdown(text) == r`
  module _ (is_record : String → ThoughtRecord → Bool) where
    unfoldable pub is_expected : Dict ThoughtRecord → Dict String → Bool
    is_expected [] files = true
    is_expected ((name, r) ∷ rest) files =
        let others = is_expected rest files in
        elim (lookup name files) [
          | none ↦ false
          | some text ↦ if is_record text r then others else false
        ]

    check_expected : Dict ThoughtRecord → Run (Unit {0})
    unfolding is_expected
    check_expected expected w =
        if is_expected expected w.disk.files then (returned tt, w) else (failed thought_changed, w)

    -- the arguments are `writes`, `message`, `expected`, `prepare` and `committed`
    unfoldable pub persist_governance :
        Dict Image → String → Dict ThoughtRecord → Run (Unit {0}) → Run (Unit {0}) → Run (Unit {0})
    unfolding recover check_expected journalled
    persist_governance writes message expected prepare committed = do
      recover
      check_expected expected
      prepare
      before ← gets (λ d. before_images writes d.files)
      journalled writes message committed before
