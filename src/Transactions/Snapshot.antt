-- ===== src/Transactions/Snapshot.antt =====
-- `_snapshot` and `snapshot_texts` of src/fava_trails/transactions.py: what readers see.
use mathlib.Core.Option
use fava_trails.Base.{
  String, ◌≡◌, refl, Bool, Option, none, some, [], ◌∷◌, arith, ◌==◌, eq_iff, if◌then◌else◌,
  Bool-cases, inl, inr,
}
use fava_trails.Base.Dict.{
  Dict, IsDict, lookup, insert, remove, lookup-insert, lookup-remove, insert-IsDict, remove-IsDict,
}
use fava_trails.Base.Result.{Result, ok, err, ◌>>=◌}
use fava_trails.Transactions.Disk.{Disk, Image, TransactionError}
use fava_trails.Transactions.Journal.{load_journal}

-- the image of a file in the snapshot: a before image, or what the disk holds
abbrev image_at : Dict Image → String → String → Image
image_at before name text = elim (lookup name before) [ some image ↦ image | none ↦ some text ]

put_image : String → Image → Dict String → Dict String
put_image name none result = result
put_image name (some text) result = insert name text result

-- the loop over the files that match the glob
scan : (String → Bool) → Dict Image → Dict String → Dict String → Dict String
unfolding put_image
scan is_thought before [] result = result
scan is_thought before ((name, text) ∷ files) result =
    scan is_thought before files
      (if is_thought name then put_image name (image_at before name text) result else result)

-- the loop over the before images
overlay : Dict Image → Dict String → Dict String
overlay [] result = result
overlay ((name, some text) ∷ before) result = overlay before (insert name text result)
overlay ((name, none) ∷ before) result = overlay before (remove name result)

module _ (inside is_thought : String → Bool) where
  unfoldable pub snapshot : Disk → Result TransactionError (Dict String)
  unfolding scan overlay
  snapshot d = do
    before ← load_journal inside d.journal
    ok (overlay before (scan is_thought before d.files []))

  -- `_file_lock` does not wait: where a writer holds the lock the read raises
  unfoldable pub snapshot_texts : Bool → Disk → Option (Result TransactionError (Dict String))
  snapshot_texts locked d = if locked then none else some (snapshot d)

-- What the snapshot holds under a name.
abbrev pub reading : (String → Bool) → Dict Image → Dict String → String → Option String
reading is_thought before files k = elim (lookup k before) [
  | some image ↦ image
  | none ↦ if is_thought k then lookup k files else none
]

-- the value returned, if the call did not raise
abbrev pub ok_of : {E A : Type 0} → Result E A → Option A
ok_of (ok a) = some a
ok_of (err _) = none

lookup-nil : (k : String) → lookup {V = String} k [] ≡ none
unfolding lookup
lookup-nil k = refl

lookup-put_image :
    (k name : String) (image : Image) (result : Dict String)
    → lookup k (put_image name image result) ≡ (
        if name == k
        then (elim image [ none ↦ lookup k result | some t ↦ some t ])
        else lookup k result)
unfolding put_image
lookup-put_image k name none result = ground arith
lookup-put_image k name (some t) result = lookup-insert name k t result

lookup-overlay :
    (k : String) (before : Dict Image) (result : Dict String)
    → IsDict before
    → lookup k (overlay before result)
      ≡ elim (lookup k before) [ some image ↦ image | none ↦ lookup k result ]
unfolding overlay lookup
lookup-overlay k [] result h = refl
lookup-overlay k ((name, some t) ∷ before) result h = ground (
  arith,
  lookup-overlay k before (insert name t result) h.1,
  lookup-insert name k t result,
  eq_iff name k,
)
lookup-overlay k ((name, none) ∷ before) result h = ground (
  arith,
  lookup-overlay k before (remove name result) h.1,
  lookup-remove name k result,
  eq_iff name k,
)

-- names without a before image
lookup-scan :
    (is_thought : String → Bool) (k : String) (before : Dict Image) (files result : Dict String)
    → IsDict files
    → lookup k before ≡ none
    → lookup k (scan is_thought before files result) ≡ (
        if is_thought k
        then (elim (lookup k files) [ none ↦ lookup k result | some t ↦ some t ])
        else lookup k result)
unfolding scan lookup
lookup-scan is_thought k before [] result h n = ground arith
lookup-scan is_thought k before ((name, t) ∷ files) result h n =
    let image = image_at before name t in
    let result' = if is_thought name then put_image name image result else result in
    ground (
      arith,
      lookup-scan is_thought k before files result' h.1 n,
      lookup-put_image k name image result,
      eq_iff name k,
    )

put_image-IsDict :
    (name : String) (image : Image) (result : Dict String)
    → IsDict result
    → IsDict (put_image name image result)
unfolding put_image
put_image-IsDict name none result h = h
put_image-IsDict name (some text) result h = insert-IsDict name text result h

scan-IsDict :
    (is_thought : String → Bool) (before : Dict Image) (files result : Dict String)
    → IsDict result
    → IsDict (scan is_thought before files result)
unfolding scan
scan-IsDict is_thought before [] result h = h
scan-IsDict is_thought before ((name, text) ∷ files) result h =
    elim (Bool-cases (is_thought name)) [
      | inl e ↦
          let image = image_at before name text in
          rw e (
            scan-IsDict is_thought before files (put_image name image result)
              (put_image-IsDict name image result h))
      | inr e ↦ rw e (scan-IsDict is_thought before files result h)
    ]

overlay-IsDict :
    (before : Dict Image) (result : Dict String) → IsDict result → IsDict (overlay before result)
unfolding overlay
overlay-IsDict [] result h = h
overlay-IsDict ((name, some text) ∷ before) result h =
    overlay-IsDict before (insert name text result) (insert-IsDict name text result h)
overlay-IsDict ((name, none) ∷ before) result h =
    overlay-IsDict before (remove name result) (remove-IsDict name result h)

-- the snapshot of a disk whose journal can be read
pub snapshot-IsDict :
    (inside is_thought : String → Bool) (d : Disk) (before : Dict Image)
    → load_journal inside d.journal ≡ ok before
    → (texts : Dict String) × (snapshot inside is_thought d ≡ ok texts) × IsDict texts
unfolding snapshot
snapshot-IsDict inside is_thought d before load =
    let texts = overlay before (scan is_thought before d.files []) in
    (
      texts,
      rw load refl,
      overlay-IsDict before (scan is_thought before d.files [])
          (scan-IsDict is_thought before d.files [] tt),
    )

-- A snapshot shows, under every name, the before image if the journal has one, and else the file.
pub lookup-snapshot :
    (inside is_thought : String → Bool) (d : Disk) (before : Dict Image) (k : String)
    → load_journal inside d.journal ≡ ok before
    → IsDict before
    → IsDict d.files
    → Option.map (lookup k) (ok_of (snapshot inside is_thought d))
      ≡ some (reading is_thought before d.files k)
unfolding snapshot
lookup-snapshot inside is_thought d before k load unique files = rw load (
    ground (
      arith,
      lookup-overlay k before (scan is_thought before d.files []) unique,
      lookup-scan is_thought k before d.files [] files,
      lookup-nil k,
    ))
