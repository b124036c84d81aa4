-- ===== src/Transactions/Persist/Atomic.antt =====
-- The journal and the exception handler of `persist_governance` (src/fava_trails/transactions.py).
use fava_trails.Base.{String, ◌≡◌, refl, Bool, Option, some, []}
use fava_trails.Base.Dict.{Dict, IsDict}
use fava_trails.Base.Result.{ok}
use fava_trails.Base.Value.{Value}
use fava_trails.Transactions.Disk.{
  Disk, Image, Exit, returned, failed, broken, killed, World, Schedule, Run, step, replace_journal,
}
use fava_trails.Transactions.Journal.{load_journal, dump_journal}
use fava_trails.Transactions.Persist.{
  before_images, restore, reraise, guarded, publish, journalled, replace_all,
}
use fava_trails.Transactions.Persist.Ends.{Ends, Ends-step, Ends-bind, Ends-weaken}
use fava_trails.Transactions.Persist.Images.{Near, replace_all-Ends}
use fava_trails.Transactions.Persist.View.{Within-refl, before_images-IsDict}
use fava_trails.Transactions.Persist.Recovery.{SameView}
use fava_trails.Transactions.Persist.Publication
use fava_trails.Transactions.Persist.Publication.{
  NoLateRaise, NoLateRaise-IsKept, IsQuiet, quiet-Ends, IsBatch, IsPublished, publish-Ends,
}

module _ (inside is_thought : String → Bool) (writes : Dict Image) (message : String)
    (committed : Run (Unit {0})) (batch : IsBatch inside is_thought writes)
    (quiet : IsQuiet committed) where
  module _ (d₀ : Disk) (nothing : load_journal inside d₀.journal ≡ ok [])
      (files₀ : IsDict d₀.files) where
    abbrev before : Dict Image
    before = before_images writes d₀.files

    abbrev document : Option Value
    document = some (dump_journal before)

    abbrev Pending : World → Type 0
    Pending =
        Publication.Pending inside is_thought writes message committed d₀ nothing files₀ batch quiet

    abbrev pub Same : World → Type 0
    Same w = SameView inside is_thought d₀ w.disk × NoLateRaise w.schedule

    abbrev pub Published : Unit {0} → World → Type 0
    Published _ w = IsPublished inside is_thought writes message committed d₀ w.disk

    rewritten :
        (d : Disk)
        → Near before d₀.files document d
        → Near before d₀.files document (replace_journal document d)
    unfolding replace_journal
    rewritten d h = record { others = h.others; unique = h.unique; journal = refl }

    -- the exception handler keeps the journal, and with it the old view
    restore-Ends : (w : World) → Pending w → Ends Pending Pending (λ _. Pending) (restore before w)
    unfolding restore
    restore-Ends w h =
        Ends-bind Pending Pending (λ _. Pending) (λ _. Pending) (replace_all before)
          (λ _. step (replace_journal document)) w
          (Ends-weaken Pending Pending Pending Pending _ (λ _. Pending) (replace_all before w)
            (replace_all-Ends before d₀.files _ NoLateRaise NoLateRaise-IsKept before w
              (before_images-IsDict writes d₀.files batch.unique) (Within-refl before) h)
            (λ _ x. x) (λ _ x. x) (λ _ _ q. q.0))
          (λ _ w' p.
            Ends-step NoLateRaise NoLateRaise-IsKept Pending Pending (λ _. Pending)
              (replace_journal document) w' p.1 (λ n. (p.0, n)) (λ _ n. (p.0, n))
              (λ _ n. (rewritten w'.disk p.0, n.1)) (λ _ n. (rewritten w'.disk p.0, n)))

    guarded-Ends :
        (body : Run (Unit {0})) (w : World)
        → Ends Pending Pending Published (body w)
        → Ends Pending Pending Published (guarded before body w)
    unfolding guarded
    guarded-Ends body w h = go (body w) h
      where
        again :
            (e : Exit (Unit {0})) (r : Exit (Unit {0}) × World)
            → ((v : World) → Pending v → Ends Pending Pending Published (e, v))
            → Ends Pending Pending (λ _. Pending) r
            → Ends Pending Pending Published (reraise e r)
        again e (returned a, v) k h = k v h
        again e (failed x, v) k h = h
        again e (broken, v) k h = h
        again e (killed, v) k h = h

        go :
            (r : Exit (Unit {0}) × World)
            → Ends Pending Pending Published r
            → Ends Pending Pending Published (elim r.0 [
              | returned _ ↦ (returned tt, r.1)
              | failed e ↦ reraise (failed e) (restore before r.1)
              | broken ↦ reraise broken (restore before r.1)
              | killed ↦ (killed, r.1)
            ])
        go (returned a, v) h = h
        go (failed e, v) h = again (failed e) (restore before v) (λ _ p. p) (restore-Ends v h)
        go (broken, v) h = again broken (restore before v) (λ _ p. p) (restore-Ends v h)
        go (killed, v) h = h

    -- the journal is written over a disk with nothing pending, and the batch published under it
    pub journalled-Ends :
        (s : Schedule)
        → NoLateRaise s
        → Ends Same Same Published
            (journalled writes message committed before (record { disk = d₀; schedule = s }))
    unfolding journalled
    journalled-Ends s known =
        let w : World = record { disk = d₀; schedule = s } in
        Ends-bind Same Same (λ _. Pending) Published (step (replace_journal document))
          (λ _. guarded before (publish writes message committed)) w
          (Ends-step NoLateRaise NoLateRaise-IsKept Same Same (λ _. Pending)
            (replace_journal document) w known (λ n. (λ k. refl, n)) (λ _ n. (λ k. refl, n))
            (λ _ n. absurd (n.0 refl)) (λ _ n. (journal_written, n)))
          (λ _ w' p.
            Ends-weaken Pending Same Pending Same Published Published
              (guarded before (publish writes message committed) w')
              (guarded-Ends (publish writes message committed) w' (
                publish-Ends inside is_thought writes message committed d₀ nothing files₀ batch
                  quiet w' p))
              shown shown (λ _ _ x. x))
      where
        journal_written : Near before d₀.files document (replace_journal document d₀)
        journal_written =
            unfold replace_journal in
            record { others = λ k h. refl; unique = files₀; journal = refl }

        shown : (v : World) → Pending v → Same v
        shown =
            Publication.Pending-Same inside is_thought writes message committed d₀ nothing files₀
              batch quiet
