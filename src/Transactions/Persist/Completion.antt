-- ===== src/Transactions/Persist/Completion.antt =====
-- Runs of `persist_governance` (src/fava_trails/transactions.py) without a failing step.
use fava_trails.Base.{ℕ, zero, suc, String, ◌≡◌, refl, ap, Bool, true, none, some, [], ◌∷◌, length}
use mathlib.Core.Path.{sym, subst}
use fava_trails.Base.Dict.{Dict}
use fava_trails.Base.Result.{ok}
use fava_trails.Models.Thought.{ThoughtRecord}
use fava_trails.Transactions.Disk.{
  Disk, Image, Exit, returned, World, Schedule, done, Run, pure, step, gets, failed, broken, killed,
  replace_file, replace_journal, ◌>>=◌, ◌>>◌,
}
use fava_trails.Transactions.Journal.{load_journal, dump_journal}
use fava_trails.Transactions.Persist.{
  reraise, restore, replace_all, commit_files, add_commit, publish, guarded, journalled, recover,
  restore_previous, check_expected, is_expected, before_images, persist_governance,
}
use fava_trails.Transactions.Persist.Recovery.{recover-eq}

abbrev pub steps : ℕ → Schedule → Schedule
steps zero s = s
steps (suc n) s = done ∷ steps n s

-- The run returns and leaves the schedule `s`.
abbrev pub Returns : Exit (Unit {0}) × World → Schedule → Type 0
Returns r s = (d : Disk) × (r ≡ (returned tt, record { disk = d; schedule = s }))

bind-Returns :
    (m : Run (Unit {0})) (k : Unit {0} → Run (Unit {0})) (w : World) (s s' : Schedule)
    → Returns (m w) s
    → ((d : Disk) → Returns (k tt (record { disk = d; schedule = s })) s')
    → Returns ((m >>= k) w) s'
bind-Returns m k w s s' (d, e) f =
    subst
      (λ r.
        Returns
          (elim r.0 [
            | returned a ↦ k a r.1
            | failed e ↦ (failed e, r.1)
            | broken ↦ (broken, r.1)
            | killed ↦ (killed, r.1)
          ])
          s')
      (sym e) (f d)

step-Returns :
    (effect : Disk → Disk) (d : Disk) (s : Schedule)
    → Returns (step effect (record { disk = d; schedule = done ∷ s })) s
unfolding step
step-Returns effect d s = (effect d, refl)

replace_all-Returns :
    (images : Dict Image) (d : Disk) (s : Schedule)
    → Returns (replace_all images (record { disk = d; schedule = steps (length images) s })) s
unfolding replace_all
replace_all-Returns [] d s = (d, refl)
replace_all-Returns ((name, image) ∷ rest) d s =
    bind-Returns (step (replace_file name image)) (λ _. replace_all rest)
      (record { disk = d; schedule = done ∷ steps (length rest) s }) (steps (length rest) s) s
      (step-Returns (replace_file name image) d (steps (length rest) s))
      (λ d'. replace_all-Returns rest d' s)

publish-Returns :
    (writes : Dict Image) (message : String) (d : Disk) (s : Schedule)
    → Returns
        (publish writes message
          (pure tt)
          (record { disk = d; schedule = steps (length writes) (done ∷ done ∷ s) }))
        s
unfolding publish commit_files
publish-Returns writes message d s =
    bind-Returns (replace_all writes)
      (λ _. commit_files message writes >> (pure tt >> step (replace_journal none)))
      (record { disk = d; schedule = steps (length writes) (done ∷ done ∷ s) }) (done ∷ done ∷ s) s
      (replace_all-Returns writes d (done ∷ done ∷ s))
      (λ d₁.
        bind-Returns (commit_files message writes) (λ _. pure tt >> step (replace_journal none))
          (record { disk = d₁; schedule = done ∷ done ∷ s }) (done ∷ s) s
          (step-Returns (add_commit message writes) d₁ (done ∷ s))
          (λ d₂. step-Returns (replace_journal none) d₂ s))

guarded-Returns :
    (before : Dict Image) (body : Run (Unit {0})) (w : World) (s : Schedule)
    → Returns (body w) s
    → Returns (guarded before body w) s
unfolding guarded
guarded-Returns before body w s (d, e) = (
  d,
  ap
      (λ r. elim r.0 [
        | returned _ ↦ (returned tt, r.1)
        | failed x ↦ reraise (failed x) (restore before r.1)
        | broken ↦ reraise broken (restore before r.1)
        | killed ↦ (killed, r.1)
      ])
      e,
)

journalled-Returns :
    (writes : Dict Image) (message : String) (before : Dict Image) (d : Disk) (s : Schedule)
    → Returns
        (journalled writes message
          (pure tt)
          before
          (record { disk = d; schedule = done ∷ steps (length writes) (done ∷ done ∷ s) }))
        s
unfolding journalled
journalled-Returns writes message before d s =
    let s₁ = steps (length writes) (done ∷ done ∷ s) in
    bind-Returns (step (replace_journal (some (dump_journal before))))
      (λ _. guarded before (publish writes message (pure tt)))
      (record { disk = d; schedule = done ∷ s₁ }) s₁ s
      (step-Returns (replace_journal (some (dump_journal before))) d s₁)
      (λ d'.
        guarded-Returns before (publish writes message (pure tt))
          (record { disk = d'; schedule = s₁ }) s (publish-Returns writes message d' s))

continues :
    (m : Run (Unit {0})) (k : Unit {0} → Run (Unit {0})) (w w' : World) (s : Schedule)
    → m w ≡ (returned tt, w')
    → Returns (k tt w') s
    → Returns ((m >>= k) w) s
continues m k w w' s e f =
    subst
      (λ r.
        Returns
          (elim r.0 [
            | returned a ↦ k a r.1
            | failed e ↦ (failed e, r.1)
            | broken ↦ (broken, r.1)
            | killed ↦ (killed, r.1)
          ])
          s)
      (sym e) f

-- With nothing pending and the files as expected, a transaction whose steps all succeed returns:
-- it takes one step for each file, and one for the commit and two for the journal.
pub persist_governance-Returns :
    (inside : String → Bool) (is_record : String → ThoughtRecord → Bool) (writes : Dict Image)
    (message : String) (expected : Dict ThoughtRecord) (d : Disk) (s : Schedule)
    → load_journal inside d.journal ≡ ok []
    → is_expected inside is_record expected d.files ≡ true
    → Returns
        (persist_governance inside is_record writes message expected
          (pure tt)
          (pure tt)
          (record { disk = d; schedule = done ∷ steps (length writes) (done ∷ done ∷ s) }))
        s
unfolding persist_governance restore_previous
persist_governance-Returns inside is_record writes message expected d s nothing same =
    let w : World = record {
      disk = d;
      schedule = done ∷ steps (length writes) (done ∷ done ∷ s);
    } in
    continues (recover inside) (λ _. check_expected inside is_record expected >> (pure tt >> rest))
      w w s (recover-eq inside (λ _. true) [] w nothing)
      (continues (check_expected inside is_record expected) (λ _. pure tt >> rest) w w s
        (checked w same) (journalled-Returns writes message (before_images writes d.files) d s))
  where
    rest : Run (Unit {0})
    rest = gets (λ x. before_images writes x.files) >>= journalled writes message (pure tt)

    checked :
        (w : World)
        → is_expected inside is_record expected w.disk.files ≡ true
        → check_expected inside is_record expected w ≡ (returned tt, w)
    checked w e = unfold check_expected in rw e refl
