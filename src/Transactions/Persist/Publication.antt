-- ===== src/Transactions/Persist/Publication.antt =====
-- The `try` block of `persist_governance` (src/fava_trails/transactions.py), as readers see it.
use fava_trails.Base.{
  String, ◌≡◌, refl, ap, sym, ◌∙◌, ◌≢◌, Bool, Option, none, some, List, [], ◌∷◌, arith,
  if◌then◌else◌, All, is_some,
}
use mathlib.Core.Path.{subst}
use fava_trails.Base.Dict.{Dict, IsDict, lookup, keys}
use fava_trails.Base.Result.{ok}
use fava_trails.Base.Value.{Value}
use fava_trails.Transactions.Disk.{
  Disk, Image, Commit, Exit, returned, failed, broken, killed, World, Schedule, raised_late, Run,
  step, replace_journal, ◌>>◌,
}
use fava_trails.Transactions.Journal.{
  load_journal, dump_journal, AllSafe, load_journal-dump_journal,
}
use fava_trails.Transactions.Persist.{replace_all, commit_files, add_commit, before_images, publish}
use fava_trails.Transactions.Persist.Ends.{Ends, IsKept, Ends-step, Ends-bind, Ends-weaken}
use fava_trails.Transactions.Persist.Images.{
  Near, NearAt, applied, replace_all-Ends, add_commit-Near, files-add_commit, commits-add_commit,
}
use fava_trails.Transactions.Persist.View.{
  AllThoughts, is_thought-lookup, visible, plain, visible-Near, visible-plain, reading-plain,
  lookup-before_images, before_images-IsDict, before_images-AllSafe, before_images-AllThoughts,
  applied-before_images, Within-before_images,
}
use fava_trails.Transactions.Persist.Recovery.{SameView}

-- No step of the rest raises after it has taken effect.
abbrev pub NoLateRaise : Schedule → Type 0
NoLateRaise = All (λ o. o ≢ raised_late)

pub NoLateRaise-IsKept : IsKept NoLateRaise
NoLateRaise-IsKept = record { rest = λ o s h. h.1 }

-- A caller's hook that leaves the repository alone, such as one that writes a receipt.
pub record IsQuiet (m : Run (Unit {0})) : Type 0 where
  pub disk : (w : World) → (m w).1.disk ≡ w.disk
  pub schedule : (w : World) → NoLateRaise w.schedule → NoLateRaise (m w).1.schedule

pub quiet-Ends :
    (P : Disk → Type 0) (m : Run (Unit {0})) (w : World)
    → IsQuiet m
    → P w.disk
    → NoLateRaise w.schedule
    → let K = λ (v : World). P v.disk × NoLateRaise v.schedule in Ends K K (λ _. K) (m w)
quiet-Ends P m w q p n = go (m w) (subst P (sym (q.disk w)) p) (q.schedule w n)
  where
    go :
        (r : Exit (Unit {0}) × World)
        → P r.1.disk
        → NoLateRaise r.1.schedule
        → Ends
            (λ v. P v.disk × NoLateRaise v.schedule)
            (λ v. P v.disk × NoLateRaise v.schedule)
            (λ _ v. P v.disk × NoLateRaise v.schedule)
            r
    go (returned a, v) p n = (p, n)
    go (failed e, v) p n = (p, n)
    go (broken, v) p n = (p, n)
    go (killed, v) p n = (p, n)

-- The arguments of a call that the program makes: thought files below the root, each once.
pub record IsBatch (inside is_thought : String → Bool) (writes : Dict Image) : Type 0 where
  pub unique : IsDict writes
  pub safe : AllSafe inside writes
  pub thoughts : AllThoughts is_thought writes

module _ (inside is_thought : String → Bool) (writes : Dict Image) (message : String)
    (committed : Run (Unit {0})) where
  -- What a reader finds once the batch is published over `d₀`, and the commit that records it.
  pub record IsPublished (d₀ d : Disk) : Type 0 where
    pub shows :
        (k : String)
        → visible inside is_thought d k ≡ (
            if is_some (lookup k writes)
            then some (elim (lookup k writes) [ some image ↦ image | none ↦ none ])
            else visible inside is_thought d₀ k)
    pub durable :
        (older : List Commit) × (d.commits
          ≡ record { message = message; paths = keys writes } ∷ older)

  module _ (d₀ : Disk) (nothing : load_journal inside d₀.journal ≡ ok []) (files₀ : IsDict d₀.files)
      (batch : IsBatch inside is_thought writes) (quiet : IsQuiet committed) where
    abbrev pub before : Dict Image
    before = before_images writes d₀.files

    abbrev pub document : Option Value
    document = some (dump_journal before)

    abbrev pub Pending : World → Type 0
    Pending = NearAt before d₀.files document NoLateRaise NoLateRaise-IsKept

    abbrev pub Same : World → Type 0
    Same w = SameView inside is_thought d₀ w.disk × NoLateRaise w.schedule

    abbrev pub Published : Unit {0} → World → Type 0
    Published _ w = IsPublished d₀ w.disk

    loads : load_journal inside document ≡ ok before
    loads =
        load_journal-dump_journal inside before
          (before_images-AllSafe inside writes d₀.files batch.safe)

    visible₀ :
        (k : String) → visible inside is_thought d₀ k ≡ some (plain inside is_thought d₀.files k)
    visible₀ k = visible-plain inside is_thought d₀ k nothing files₀

    -- while the journal is there, readers see the old view
    pub Pending-Same : (w : World) → Pending w → Same w
    Pending-Same w h = (
      λ k.
          visible-Near inside is_thought before d₀.files document w.disk k loads
            (before_images-IsDict writes d₀.files batch.unique) h.0
          ∙ (ap some (
                reading-plain inside is_thought before d₀.files k
                  (before_images-AllThoughts is_thought writes d₀.files batch.thoughts)
                ∙ rw (applied-before_images k writes d₀.files) refl)
              ∙ sym (visible₀ k)),
      h.1,
    )

    abbrev Placed : Disk → Type 0
    Placed d =
        Near before d₀.files document d
        × ((k : String) → lookup k d.files ≡ applied writes d₀.files k)

    abbrev IsDurable : Disk → Type 0
    IsDurable d =
        (older : List Commit) × (d.commits
          ≡ record { message = message; paths = keys writes } ∷ older)

    abbrev PlacedAt : Unit {0} → World → Type 0
    PlacedAt _ w = Placed w.disk × NoLateRaise w.schedule

    abbrev DurableAt : World → Type 0
    DurableAt w = (Placed w.disk × IsDurable w.disk) × NoLateRaise w.schedule

    -- removing the journal publishes what was placed
    removed : (d : Disk) → Placed d → IsDurable d → IsPublished d₀ (replace_journal none d)
    unfolding replace_journal load_journal
    removed d p durable = record {
      shows = λ k.
          visible-plain inside is_thought (replace_journal none d) k refl p.0.unique
          ∙ rw (visible₀ k)
              (ground (arith, p.1 k, is_thought-lookup is_thought writes k batch.thoughts));
      durable = durable;
    }

    removed-Ends :
        (w : World) → DurableAt w → Ends Pending Pending Published (step (replace_journal none) w)
    removed-Ends w h =
        Ends-step NoLateRaise NoLateRaise-IsKept Pending Pending Published (replace_journal none) w
          h.1 (λ n. (h.0.0.0, n)) (λ _ n. (h.0.0.0, n)) (λ _ n. absurd (n.0 refl))
          (λ _ n. removed w.disk h.0.0 h.0.1)

    -- the files are written
    placed-Ends : (w : World) → Pending w → Ends Pending Pending PlacedAt (replace_all writes w)
    placed-Ends w h =
        Ends-weaken Pending Pending Pending Pending
          (λ _ w'.
            Pending w' × ((k : String) → lookup k w'.disk.files ≡ applied writes w.disk.files k))
          PlacedAt (replace_all writes w)
          (replace_all-Ends before d₀.files document NoLateRaise NoLateRaise-IsKept writes w
            batch.unique (Within-before_images writes d₀.files) h)
          (λ _ x. x) (λ _ x. x) (λ _ w' q. ((q.0.0, λ k. applied_over w w' q.1 h k), q.0.1))
      where
        applied_over :
            (w w' : World)
            → ((k : String) → lookup k w'.disk.files ≡ applied writes w.disk.files k)
            → Pending w
            → (k : String) → lookup k w'.disk.files ≡ applied writes d₀.files k
        applied_over w w' q h k =
            ground (arith, q k, h.0.others k, lookup-before_images k writes d₀.files)

    -- the caller's hook runs, and the journal is removed
    hooked-Ends :
        (w : World)
        → DurableAt w
        → Ends Pending Pending Published ((committed >> step (replace_journal none)) w)
    hooked-Ends w h =
        Ends-bind Pending Pending (λ _. DurableAt) Published committed
          (λ _. step (replace_journal none)) w
          (Ends-weaken DurableAt Pending DurableAt Pending (λ _. DurableAt) (λ _. DurableAt)
            (committed w) (quiet-Ends (λ d. Placed d × IsDurable d) committed w quiet h.0 h.1)
            (λ v x. (x.0.0.0, x.1)) (λ v x. (x.0.0.0, x.1)) (λ _ v x. x))
          (λ _ w' p. removed-Ends w' p)

    -- what was written is committed
    committed-Ends :
        (w : World)
        → PlacedAt tt w
        → Ends Pending Pending Published
            ((commit_files message writes >> (committed >> step (replace_journal none))) w)
    unfolding commit_files
    committed-Ends w h =
        let near = add_commit-Near before d₀.files document message writes w.disk h.0.0 in
        Ends-bind Pending Pending (λ _. DurableAt) Published (commit_files message writes)
          (λ _. committed >> step (replace_journal none)) w
          (Ends-step NoLateRaise NoLateRaise-IsKept Pending Pending (λ _. DurableAt)
            (add_commit message writes) w h.1 (λ n. (h.0.0, n)) (λ _ n. (h.0.0, n))
            (λ _ n. absurd (n.0 refl))
            (λ _ n. (
              (
                (near, λ k. rw (files-add_commit message writes w.disk) (h.0.1 k)),
                (w.disk.commits, commits-add_commit message writes w.disk),
              ),
              n,
            )))
          (λ _ w' p. hooked-Ends w' p)

    pub publish-Ends :
        (w : World)
        → Pending w
        → Ends Pending Pending Published (publish writes message committed w)
    unfolding publish
    publish-Ends w h =
        Ends-bind Pending Pending PlacedAt Published (replace_all writes)
          (λ _. commit_files message writes >> (committed >> step (replace_journal none))) w
          (placed-Ends w h) (λ _ w' p. committed-Ends w' p)
