-- ===== src/Transactions/Persist/Whole.antt =====
-- `persist_governance` as a whole: recovery, the checks, the caller's hooks and the publication.
use fava_trails.Base.{String, ◌∙◌, Bool, Bool-cases, inl, inr}
use fava_trails.Base.Dict.{Dict}
use fava_trails.Models.Thought.{ThoughtRecord}
use fava_trails.Transactions.Disk.{Disk, Image, World, Schedule, Run, gets, ◌>>=◌, ◌>>◌}
use fava_trails.Transactions.Persist.{
  is_expected, check_expected, before_images, journalled, recover, persist_governance,
}
use fava_trails.Transactions.Persist.Ends.{Ends, Ends-bind, Ends-weaken}
use fava_trails.Transactions.Persist.Recovery.{IsConsistent, IsRecovered, SameView, recover-Ends}
use fava_trails.Transactions.Persist.Publication.{
  NoLateRaise, NoLateRaise-IsKept, IsQuiet, quiet-Ends, IsBatch, IsPublished,
}
use fava_trails.Transactions.Persist.Atomic.{journalled-Ends}

module _ (inside is_thought : String → Bool) (writes : Dict Image) (message : String)
    (committed : Run (Unit {0})) (batch : IsBatch inside is_thought writes)
    (quiet : IsQuiet committed) where
  module _ (is_record : String → ThoughtRecord → Bool) (expected : Dict ThoughtRecord)
      (prepare : Run (Unit {0})) (ready : IsQuiet prepare) (d₀ : Disk) where
    abbrev pub Old : World → Type 0
    Old w = SameView inside is_thought d₀ w.disk

    abbrev pub New : Unit {0} → World → Type 0
    New _ w = IsPublished inside is_thought writes message committed d₀ w.disk

    abbrev Ready : World → Type 0
    Ready w = IsRecovered inside is_thought d₀ w.disk × NoLateRaise w.schedule

    Ready-Old : (w : World) → Ready w → Old w
    Ready-Old w h = h.0.same

    -- from the disk after recovery back to the disk before it
    carried_over :
        (d₁ d : Disk)
        → SameView inside is_thought d₀ d₁
        → IsPublished inside is_thought writes message committed d₁ d
        → IsPublished inside is_thought writes message committed d₀ d
    carried_over d₁ d same h = record {
      shows = λ k. rw (← same k) (h.shows k);
      durable = h.durable;
    }

    written-Ends :
        (w : World)
        → Ready w
        → Ends Old Old New
            (journalled writes message committed (before_images writes w.disk.files) w)
    written-Ends w h =
        Ends-weaken _ Old _ Old _ New
          (journalled writes message committed (before_images writes w.disk.files) w)
          (journalled-Ends inside is_thought writes message committed batch quiet w.disk
            h.0.nothing_pending h.0.unique w.schedule h.1)
          (λ v x k. x.0 k ∙ h.0.same k) (λ v x k. x.0 k ∙ h.0.same k)
          (λ _ v x. carried_over w.disk v.disk h.0.same x)

    prepared-Ends :
        (w : World)
        → Ready w
        → Ends Old Old New (
            (prepare
                >> (gets (λ d. before_images writes d.files)
                    >>= journalled writes message committed))
              w)
    prepared-Ends w h =
        Ends-bind Old Old (λ _. Ready) New prepare
          (λ _. gets (λ d. before_images writes d.files) >>= journalled writes message committed) w
          (Ends-weaken Ready Old Ready Old (λ _. Ready) (λ _. Ready) (prepare w)
            (quiet-Ends (IsRecovered inside is_thought d₀) prepare w ready h.0 h.1) Ready-Old
            Ready-Old (λ _ _ x. x))
          (λ _ w' p. written-Ends w' p)

    checked-Ends :
        (w : World)
        → Ready w
        → Ends Old Old (λ _. Ready) (check_expected inside is_record expected w)
    unfolding check_expected
    checked-Ends w h = elim (Bool-cases (is_expected inside is_record expected w.disk.files)) [
      | inl e ↦ rw (e, Ends) h
      | inr e ↦ rw (e, Ends) h.0.same
    ]

    -- On a disk where an earlier transaction may have been interrupted, and with no step that raises
    -- after it took effect, a transaction that returns shows readers its whole batch, with its commit
    -- recorded. One that raises or is killed, at any step, leaves readers the view they had. The
    -- callbacks `prepare` and `committed` leave the files, the journal and the commits alone.
    pub persist-Ends :
        (before : Dict Image) (s : Schedule)
        → IsConsistent inside is_thought before d₀
        → NoLateRaise s
        → Ends Old Old New (
            persist_governance inside is_record writes message expected prepare committed
              (record { disk = d₀; schedule = s }))
    unfolding persist_governance
    persist-Ends before s c known =
        let w : World = record { disk = d₀; schedule = s } in
        Ends-bind Old Old (λ _. Ready) New (recover inside) _ w
          (Ends-weaken _ Old _ Old _ (λ _. Ready) (recover inside w)
            (recover-Ends inside is_thought NoLateRaise NoLateRaise-IsKept before w c known)
            (λ _ x. x.0) (λ _ x. x.0) (λ _ _ x. x))
          (λ _ w₁ p.
            Ends-bind Old Old (λ _. Ready) New (check_expected inside is_record expected) _ w₁
              (checked-Ends w₁ p) (λ _ w₂ q. prepared-Ends w₂ q))
