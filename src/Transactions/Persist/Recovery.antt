-- ===== src/Transactions/Persist/Recovery.antt =====
-- `_recover` of src/fava_trails/transactions.py, as readers see it.
use fava_trails.Base.{String, ◌≡◌, refl, ap, sym, ◌∙◌, Bool, none, some, [], ◌∷◌}
use fava_trails.Base.Dict.{Dict, IsDict, lookup}
use fava_trails.Base.Result.{ok}
use fava_trails.Transactions.Disk.{
  Disk, Image, World, Schedule, raised_late, step, lift, ◌>>=◌, replace_journal, ◌>>◌,
}
use fava_trails.Transactions.Journal.{load_journal}
use fava_trails.Transactions.Persist.{
  replace_all, commit_files, add_commit, roll_back, restore_previous, recover,
}
use fava_trails.Transactions.Persist.Ends.{Ends, IsKept, Ends-step, Ends-bind, Ends-weaken}
use fava_trails.Transactions.Persist.Images.{
  Near, NearAt, applied, replace_all-Ends, add_commit-Near, files-add_commit,
}
use fava_trails.Transactions.Persist.View.{
  AllThoughts, visible, visible-Near, visible-plain, reading-plain, Within-refl,
}

module _ (inside is_thought : String → Bool) where
  -- A disk on which a transaction may have been interrupted: its journal loads as `before`.
  pub record IsConsistent (before : Dict Image) (d : Disk) : Type 0 where
    pub loads : load_journal inside d.journal ≡ ok before
    pub unique_before : IsDict before
    pub unique_files : IsDict d.files
    pub thoughts : AllThoughts is_thought before

  -- Readers of `d` find what readers of `d₀` find.
  abbrev pub SameView : Disk → Disk → Type 0
  SameView d₀ d = (k : String) → visible inside is_thought d k ≡ visible inside is_thought d₀ k

  -- Nothing is pending, and readers of `d` find what readers of `d₀` find.
  pub record IsRecovered (d₀ d : Disk) : Type 0 where
    pub nothing_pending : load_journal inside d.journal ≡ ok []
    pub unique : IsDict d.files
    pub same : SameView d₀ d

  module _ (S : Schedule → Type 0) (kept : IsKept S) (before : Dict Image) (d₀ : Disk) where
    abbrev pub Same : World → Type 0
    Same w = SameView d₀ w.disk × S w.schedule

    abbrev pub Recovered : Unit {0} → World → Type 0
    Recovered _ w = IsRecovered d₀ w.disk × S w.schedule

    abbrev Pending : World → Type 0
    Pending = NearAt before d₀.files d₀.journal S kept

    module _ (c : IsConsistent before d₀) where
      near₀ : Near before d₀.files d₀.journal d₀
      near₀ = record { others = λ k h. refl; unique = c.unique_files; journal = refl }

      -- while the journal is there, readers see its images
      Pending-Same : (w : World) → Pending w → Same w
      Pending-Same w h = (
        λ k.
            visible-Near inside is_thought before d₀.files d₀.journal w.disk k c.loads
              c.unique_before h.0
            ∙ sym (
                visible-Near inside is_thought before d₀.files d₀.journal d₀ k c.loads
                  c.unique_before near₀),
        h.1,
      )

      -- once the files hold the images, the journal can go
      dropped :
          (d : Disk)
          → Near before d₀.files d₀.journal d
          → ((k : String) → lookup k d.files ≡ applied before d₀.files k)
          → IsRecovered d₀ (replace_journal none d)
      unfolding replace_journal load_journal
      dropped d near written = record {
        nothing_pending = refl;
        unique = near.unique;
        same = λ k.
            visible-plain inside is_thought (replace_journal none d) k refl near.unique
            ∙ (ap some
                  (rw written (sym (reading-plain inside is_thought before d₀.files k c.thoughts)))
                ∙ sym (
                    visible-Near inside is_thought before d₀.files d₀.journal d₀ k c.loads
                      c.unique_before near₀));
      }

      abbrev Restored : World → Unit {0} → World → Type 0
      Restored w _ w' =
          Pending w' × ((k : String) → lookup k w'.disk.files ≡ applied before w.disk.files k)

      -- the files are restored, committed, and the journal removed
      roll_back-Ends :
          (s : Schedule)
          → S s
          → Ends Same Same Recovered (roll_back before (record { disk = d₀; schedule = s }))
      unfolding roll_back commit_files
      roll_back-Ends s known =
          let w : World = record { disk = d₀; schedule = s } in
          Ends-bind Same Same (Restored w) Recovered (replace_all before)
            (λ _.
              commit_files "Recover interrupted governance approval" before
              >> step (replace_journal none))
            w
            (Ends-weaken Pending Same Pending Same (Restored w) (Restored w) (replace_all before w)
              (replace_all-Ends before d₀.files d₀.journal S kept before w c.unique_before
                (Within-refl before) (near₀, known))
              Pending-Same Pending-Same (λ _ _ q. q))
            (λ _ w' q. committed-Ends w' q)
        where
          message : String
          message = "Recover interrupted governance approval"

          removed-Ends :
              (w' : World)
              → Pending w'
              → ((k : String) → lookup k w'.disk.files ≡ applied before d₀.files k)
              → Ends Same Same Recovered (step (replace_journal none) w')
          removed-Ends w' p q =
              Ends-step S kept Same Same Recovered (replace_journal none) w' p.1
                (λ s'. Pending-Same (record { disk = w'.disk; schedule = [] }) (p.0, s'))
                (λ s' k'. Pending-Same (record { disk = w'.disk; schedule = s' }) (p.0, k'))
                (λ s' k'. ((dropped w'.disk p.0 q).same, kept.rest raised_late s' k'))
                (λ s' k'. (dropped w'.disk p.0 q, k'))

          committed-Ends :
              (w' : World)
              → Restored (record { disk = d₀; schedule = s }) tt w'
              → Ends Same Same Recovered
                  ((commit_files message before >> step (replace_journal none)) w')
          committed-Ends w' q =
              let near = add_commit-Near before d₀.files d₀.journal message before w'.disk q.0.0 in
              let after : Disk = add_commit message before w'.disk in
              Ends-bind Same Same (Restored (record { disk = d₀; schedule = s })) Recovered
                (commit_files message before) (λ _. step (replace_journal none)) w'
                (Ends-step S kept Same Same (Restored (record { disk = d₀; schedule = s }))
                  (add_commit message before) w' q.0.1
                  (λ s'. Pending-Same (record { disk = w'.disk; schedule = [] }) (q.0.0, s'))
                  (λ s' k'. Pending-Same (record { disk = w'.disk; schedule = s' }) (q.0.0, k'))
                  (λ s' k'.
                    Pending-Same (record { disk = after; schedule = s' })
                      (near, kept.rest raised_late s' k'))
                  (λ s' k'.
                    ((near, k'), λ k. rw (files-add_commit message before w'.disk) (q.1 k))))
                (λ _ w'' p. removed-Ends w'' p.0 p.1)

  pub recover-eq :
      (before : Dict Image) (w : World)
      → load_journal inside w.disk.journal ≡ ok before
      → recover inside w ≡ restore_previous before w
  unfolding recover
  recover-eq before w e = ap (λ r. (lift r >>= restore_previous) w) e

  restore_previous-Ends :
      (S : Schedule → Type 0) (kept : IsKept S) (before : Dict Image) (w : World)
      → IsConsistent before w.disk
      → S w.schedule
      → Ends
          (Same S kept before w.disk)
          (Same S kept before w.disk)
          (Recovered S kept before w.disk)
          (restore_previous before w)
  unfolding restore_previous
  restore_previous-Ends S kept [] w c known =
      (record { nothing_pending = c.loads; unique = c.unique_files; same = λ k. refl }, known)
  restore_previous-Ends S kept (e ∷ before) w c known =
      roll_back-Ends S kept (e ∷ before) w.disk c w.schedule known

  -- Recovery shows readers one view at every moment, however its steps end, and leaves nothing
  -- pending when it returns.
  pub recover-Ends :
      (S : Schedule → Type 0) (kept : IsKept S) (before : Dict Image) (w : World)
      → IsConsistent before w.disk
      → S w.schedule
      → Ends
          (Same S kept before w.disk)
          (Same S kept before w.disk)
          (Recovered S kept before w.disk)
          (recover inside w)
  recover-Ends S kept before w c known =
      rw (recover-eq before w c.loads) (restore_previous-Ends S kept before w c known)
