-- ===== src/Transactions/Journal.antt =====
-- `_load_journal` of src/fava_trails/transactions.py, and the document that `persist_governance`
-- writes for it.
use fava_trails.Base.{
  String, ◌≡◌, refl, Bool, true, not, ◌&&◌, Option, none, some, [], ◌∷◌, if◌then◌else◌,
}
use fava_trails.Base.Dict.{Dict, lookup}
use fava_trails.Base.Result.{Result, ok, err, ◌>>=◌}
use fava_trails.Base.Text.{concat, has_infix}
use fava_trails.Base.Value.{Value, null, str, dict, end, field, entries, fields_of}
use fava_trails.Transactions.Disk.{
  Image, TransactionError, invalid_journal, unsafe_path, invalid_image,
}

-- `name` resolves below the root, which the file system decides, and lies below a thoughts folder
abbrev pub is_safe : (String → Bool) → String → Bool
is_safe inside name = inside name && has_infix "/thoughts/" (concat ("/" ∷ name ∷ []))

image_of : Value → Result TransactionError Image
image_of null = ok none
image_of (str s) = ok (some s)
image_of _ = err invalid_image

module _ (inside : String → Bool) where
  check_images : Dict Value → Result TransactionError (Dict Image)
  unfolding image_of
  check_images [] = ok []
  check_images ((name, v) ∷ rest) =
      let others = check_images rest in
      if not (is_safe inside name)
      then err unsafe_path
      else do image ← image_of v; images ← others; ok ((name, image) ∷ images)

  load_document : Value → Result TransactionError (Dict Image)
  unfolding check_images
  load_document (dict fs) = elim (lookup "before" (entries fs)) [
    | some (dict before) ↦ check_images (entries before)
    | _ ↦ err invalid_journal
  ]
  load_document _ = err invalid_journal

  -- a missing journal file is an empty journal
  unfoldable pub load_journal : Option Value → Result TransactionError (Dict Image)
  unfolding load_document
  load_journal none = ok []
  load_journal (some document) = load_document document

value_of : Image → Value
value_of none = null
value_of (some s) = str s

values_of : Dict Image → Dict Value
unfolding value_of
values_of [] = []
values_of ((name, image) ∷ rest) = (name, value_of image) ∷ values_of rest

-- `{"before": before}`
unfoldable pub dump_journal : Dict Image → Value
unfolding values_of
dump_journal before = dict (field "before" (dict (fields_of (values_of before))) end)

abbrev pub AllSafe : (String → Bool) → Dict Image → Type 0
AllSafe inside [] = Unit
AllSafe inside ((name, _) ∷ rest) = (is_safe inside name ≡ true) × AllSafe inside rest

check_images-values_of :
    (inside : String → Bool) (before : Dict Image)
    → AllSafe inside before
    → check_images inside (entries (fields_of (values_of before))) ≡ ok before
unfolding check_images values_of entries fields_of
check_images-values_of inside [] h = refl
check_images-values_of inside ((name, none) ∷ rest) h =
    rw (h.0) (rw (check_images-values_of inside rest h.1) refl)
check_images-values_of inside ((name, some s) ∷ rest) h =
    rw (h.0) (rw (check_images-values_of inside rest h.1) refl)

-- What was dumped is loaded again, where every path is safe.
pub load_journal-dump_journal :
    (inside : String → Bool) (before : Dict Image)
    → AllSafe inside before
    → load_journal inside (some (dump_journal before)) ≡ ok before
unfolding load_journal dump_journal entries lookup
load_journal-dump_journal inside before h = check_images-values_of inside before h
