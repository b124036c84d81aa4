-- ===== src/Transactions/Persist/Images.antt =====
-- The files while a set of images is written, and when it has been written.
use fava_trails.Base.{
  String, ◌≡◌, refl, true, Option, none, some, [], ◌∷◌, arith, ◌==◌, eq_iff, if◌then◌else◌, is_some,
}
use fava_trails.Base.Dict.{
  Dict, IsDict, keys, lookup, lookup-insert, lookup-remove, insert-IsDict, remove-IsDict,
}
use fava_trails.Base.Value.{Value}
use fava_trails.Transactions.Disk.{Disk, Image, World, Schedule, raised_late, step, replace_file}
use fava_trails.Transactions.Persist.{replace_all, add_commit}
use fava_trails.Transactions.Persist.Ends.{Ends, IsKept, Ends-step, Ends-bind, Ends-weaken}

-- The files `f` with the images written over them.
abbrev pub applied : Dict Image → Dict String → String → Option String
applied images f k = elim (lookup k images) [ some image ↦ image | none ↦ lookup k f ]

-- Files without an image in `before` are those of `f`, and the journal is `j`.
pub record Near (before : Dict Image) (f : Dict String) (j : Option Value) (d : Disk) : Type 0 where
  pub others : (k : String) → lookup k before ≡ none → lookup k d.files ≡ lookup k f
  pub unique : IsDict d.files
  pub journal : d.journal ≡ j

abbrev pub Within : Dict Image → Dict Image → Type 0
Within [] before = Unit
Within ((name, _) ∷ images) before = (is_some (lookup name before) ≡ true) × Within images before

pub lookup-replace_file :
    (k name : String) (image : Image) (d : Disk)
    → lookup k (replace_file name image d).files ≡ (if name == k then image else lookup k d.files)
unfolding replace_file
lookup-replace_file k name none d = lookup-remove name k d.files
lookup-replace_file k name (some t) d = lookup-insert name k t d.files

replace_file-IsDict :
    (name : String) (image : Image) (d : Disk)
    → IsDict d.files
    → IsDict (replace_file name image d).files
unfolding replace_file
replace_file-IsDict name none d h = remove-IsDict name d.files h
replace_file-IsDict name (some t) d h = insert-IsDict name t d.files h

journal-replace_file :
    (name : String) (image : Image) (d : Disk) → (replace_file name image d).journal ≡ d.journal
unfolding replace_file
journal-replace_file name none d = refl
journal-replace_file name (some t) d = refl

module _ (before : Dict Image) (f : Dict String) (j : Option Value) where
  replace_file-Near :
      (name : String) (image : Image) (d : Disk)
      → is_some (lookup name before) ≡ true
      → Near before f j d
      → Near before f j (replace_file name image d)
  replace_file-Near name image d listed h = record {
    others = λ k missing.
        ground (arith, h.others k missing, lookup-replace_file k name image d, eq_iff name k);
    unique = replace_file-IsDict name image d h.unique;
    journal = rw journal-replace_file h.journal;
  }

  module _ (S : Schedule → Type 0) (kept : IsKept S) where
    abbrev pub NearAt : World → Type 0
    NearAt w = Near before f j w.disk × S w.schedule

    abbrev pub AllWritten : World → Dict Image → World → Type 0
    AllWritten w images w' = (k : String) → lookup k w'.disk.files ≡ applied images w.disk.files k

    abbrev Written : World → String → Image → Unit {0} → World → Type 0
    Written w name image _ w' =
        NearAt w'
        × ((k : String)
            → lookup k w'.disk.files ≡ (if name == k then image else lookup k w.disk.files))

    -- However the writing ends, nothing else has changed; if it returns, every image is written.
    pub replace_all-Ends :
        (images : Dict Image) (w : World)
        → IsDict images
        → Within images before
        → NearAt w
        → Ends NearAt NearAt (λ _ w'. NearAt w' × AllWritten w images w') (replace_all images w)
    unfolding replace_all lookup
    replace_all-Ends [] w unique listed h = (h, λ k. refl)
    replace_all-Ends ((name, image) ∷ rest) w unique listed h =
        let near = replace_file-Near name image w.disk listed.0 h.0 in
        Ends-bind NearAt NearAt (Written w name image)
          (λ _ w'. NearAt w' × AllWritten w ((name, image) ∷ rest) w')
          (step (replace_file name image)) (λ _. replace_all rest) w
          (Ends-step S kept NearAt NearAt (Written w name image) (replace_file name image) w h.1
            (λ s. (h.0, s)) (λ _ s. (h.0, s)) (λ s known. (near, kept.rest raised_late s known))
            (λ _ s. ((near, s), λ k. lookup-replace_file k name image w.disk)))
          (λ _ w' p.
            Ends-weaken NearAt NearAt NearAt NearAt (λ _ w''. NearAt w'' × AllWritten w' rest w'')
              (λ _ w''. NearAt w'' × AllWritten w ((name, image) ∷ rest) w'') (replace_all rest w')
              (replace_all-Ends rest w' unique.1 listed.1 p.0) (λ _ x. x) (λ _ x. x)
              (λ _ w'' q. (q.0, λ k. ground (arith, q.1 k, p.1 k, eq_iff name k, unique.0))))

-- a commit touches neither the files nor the journal
pub add_commit-Near :
    (before : Dict Image) (f : Dict String) (j : Option Value) (message : String)
    (writes : Dict Image) (d : Disk)
    → Near before f j d
    → Near before f j (add_commit message writes d)
unfolding add_commit
add_commit-Near before f j message writes d h = record {
  others = h.others;
  unique = h.unique;
  journal = h.journal;
}

pub files-add_commit :
    (message : String) (writes : Dict Image) (d : Disk)
    → (add_commit message writes d).files ≡ d.files
unfolding add_commit
files-add_commit message writes d = refl

pub commits-add_commit :
    (message : String) (writes : Dict Image) (d : Disk)
    → (add_commit message writes d).commits
      ≡ record { message = message; paths = keys writes } ∷ d.commits
unfolding add_commit
commits-add_commit message writes d = refl
