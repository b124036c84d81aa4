-- ===== src/Transactions/Persist/View.antt =====
-- What readers see of a disk, with and without a pending journal.
use fava_trails.Base.{
  String, ◌≡◌, refl, ap, Bool, true, Option, none, some, [], ◌∷◌, arith, eq_iff, if◌then◌else◌,
  is_some, ◌∙◌,
}
use fava_trails.Base.Dict.{Dict, IsDict, lookup}
use fava_trails.Base.Result.{ok}
use fava_trails.Base.Value.{Value}
use fava_trails.Transactions.Disk.{Disk, Image}
use fava_trails.Transactions.Journal.{load_journal, AllSafe}
use fava_trails.Transactions.Snapshot.{snapshot, reading, ok_of, lookup-snapshot}
use fava_trails.Transactions.Persist.{before_images}
use fava_trails.Transactions.Persist.Images.{Near, Within, applied}
use mathlib.Core.Option

-- The names are those of thought files, so that a snapshot's glob meets them.
abbrev pub AllThoughts : (String → Bool) → Dict Image → Type 0
AllThoughts is_thought [] = Unit
AllThoughts is_thought ((name, _) ∷ rest) = (is_thought name ≡ true) × AllThoughts is_thought rest

pub is_thought-lookup :
    (is_thought : String → Bool) (images : Dict Image) (k : String)
    → AllThoughts is_thought images
    → is_some (lookup k images) ≡ true
    → is_thought k ≡ true
unfolding lookup
is_thought-lookup is_thought [] k h e = cc
is_thought-lookup is_thought ((name, image) ∷ rest) k h e =
    ground (arith, is_thought-lookup is_thought rest k h.1, eq_iff name k)

module _ (inside is_thought : String → Bool) where
  -- The text that a reader finds under a name: `none` if the read raises.
  abbrev pub visible : Disk → String → Option (Option String)
  visible d k = Option.map (lookup k) (ok_of (snapshot inside is_thought d))

  -- what is on the disk, without a journal
  abbrev pub plain : Dict String → String → Option String
  plain files k = if is_thought k then lookup k files else none

  pub visible-Near :
      (before : Dict Image) (f : Dict String) (j : Option Value) (d : Disk) (k : String)
      → load_journal inside j ≡ ok before
      → IsDict before
      → Near before f j d
      → visible d k ≡ some (reading is_thought before f k)
  visible-Near before f j d k load unique near =
      lookup-snapshot inside is_thought d before k (rw near.journal load) unique near.unique
      ∙ ap some (ground (arith, near.others k))

  pub visible-plain :
      (d : Disk) (k : String)
      → load_journal inside d.journal ≡ ok []
      → IsDict d.files
      → visible d k ≡ some (plain d.files k)
  unfolding lookup
  visible-plain d k load unique = lookup-snapshot inside is_thought d [] k load tt unique

  -- a journal with the images `before` shows the files with these images written back
  pub reading-plain :
      (before : Dict Image) (f : Dict String) (k : String)
      → AllThoughts is_thought before
      → reading is_thought before f k ≡ (if is_thought k then applied before f k else none)
  reading-plain before f k h = ground (arith, is_thought-lookup is_thought before k h)

pub lookup-before_images :
    (k : String) (writes : Dict Image) (f : Dict String)
    → lookup k (before_images writes f)
      ≡ (if is_some (lookup k writes) then some (lookup k f) else none)
unfolding lookup before_images
lookup-before_images k [] f = refl
lookup-before_images k ((name, image) ∷ rest) f =
    ground (arith, lookup-before_images k rest f, eq_iff name k)

pub before_images-IsDict :
    (writes : Dict Image) (f : Dict String) → IsDict writes → IsDict (before_images writes f)
unfolding before_images
before_images-IsDict [] f h = tt
before_images-IsDict ((name, image) ∷ rest) f h =
    (rw lookup-before_images (rw (h.0) refl), before_images-IsDict rest f h.1)

pub before_images-AllSafe :
    (inside : String → Bool) (writes : Dict Image) (f : Dict String)
    → AllSafe inside writes
    → AllSafe inside (before_images writes f)
unfolding before_images
before_images-AllSafe inside [] f h = tt
before_images-AllSafe inside ((name, image) ∷ rest) f h =
    (h.0, before_images-AllSafe inside rest f h.1)

pub before_images-AllThoughts :
    (is_thought : String → Bool) (writes : Dict Image) (f : Dict String)
    → AllThoughts is_thought writes
    → AllThoughts is_thought (before_images writes f)
unfolding before_images
before_images-AllThoughts is_thought [] f h = tt
before_images-AllThoughts is_thought ((name, image) ∷ rest) f h =
    (h.0, before_images-AllThoughts is_thought rest f h.1)

-- writing the before images back gives the files as they were
pub applied-before_images :
    (k : String) (writes : Dict Image) (f : Dict String)
    → applied (before_images writes f) f k ≡ lookup k f
applied-before_images k writes f = ground (arith, lookup-before_images k writes f)

-- more entries in front keep a dict of images within
Within-cons :
    (name : String) (image : Image) (images before : Dict Image)
    → Within images before
    → Within images ((name, image) ∷ before)
unfolding lookup
Within-cons name image [] before h = tt
Within-cons name image ((k, i) ∷ images) before h =
    (ground (arith, h.0), Within-cons name image images before h.1)

pub Within-refl : (before : Dict Image) → Within before before
unfolding lookup
Within-refl [] = tt
Within-refl ((name, image) ∷ rest) =
    (ground (arith, eq_iff name name), Within-cons name image rest rest (Within-refl rest))

pub Within-before_images :
    (writes : Dict Image) (f : Dict String) → Within writes (before_images writes f)
unfolding lookup before_images
Within-before_images [] f = tt
Within-before_images ((name, image) ∷ rest) f = (
  ground (arith, eq_iff name name),
  Within-cons name (lookup name f) rest (before_images rest f) (Within-before_images rest f),
)
