-- ===== src/Governance/Reading.antt =====
-- `read_snapshot` of src/fava_trails/governance.py, over `snapshot_texts` of
-- src/fava_trails/transactions.py: everything on the way that raises, and what the records are.
use mathlib.Core.Path.{subst}
use fava_trails.Base.{
  String, ◌≡◌, refl, ap, ◌∙◌, Bool, true, false, not, ◌&&◌, Option, none, some, [], ◌∷◌, arith, ◌⊎◌,
  eq_iff, if◌then◌else◌, is_some, inl, inr,
}
use fava_trails.Base.Dict.{Dict, IsDict, lookup}
use fava_trails.Base.Result.{Result, ok, err, ◌>>=◌, ◌>>◌, raise_if, >>=-eq-ok}
use fava_trails.Models.Thought.{ThoughtRecord}
use fava_trails.Transactions.Disk.{
  Disk, Image, TransactionError, transaction_in_progress, undecodable_text,
}
use fava_trails.Transactions.Journal.{load_journal}
use fava_trails.Transactions.Snapshot.{
  snapshot, snapshot_texts, reading, ok_of, lookup-snapshot, snapshot-IsDict,
}
use fava_trails.Governance.Index.{
  RecordSnapshot, parse_records, parse_records-lenient, record_index, relative,
}

abbrev Call : Type 0 → Type 0
Call A = Result TransactionError A

module _ (inside is_thought undecodable : String → Bool) where
  -- `path.read_bytes().decode("utf-8")` raises for some file that the glob finds and that has no
  -- before image
  unfoldable pub has_undecodable : Dict Image → Dict String → Bool
  has_undecodable before [] = false
  has_undecodable before ((name, _) ∷ files) =
      if is_thought name && not (is_some (lookup name before)) && undecodable name
      then true
      else has_undecodable before files

  decoded : Disk → Call (Dict String) → Call (Dict String)
  unfolding has_undecodable
  decoded d texts = do
    before ← load_journal inside d.journal
    raise_if (has_undecodable before d.files) undecodable_text
    texts

  -- `snapshot_texts` with its exceptions; `locked` where a writer holds the lock of the repository
  unfoldable pub texts_or_error : Bool → Disk → Call (Dict String)
  unfolding snapshot_texts decoded
  texts_or_error locked d = elim (snapshot_texts inside is_thought locked d) [
    | none ↦ err transaction_in_progress
    | some texts ↦ decoded d texts
  ]

  module _ (parse : String → Call ThoughtRecord) (trails_dir : String) where
    unfoldable pub read_snapshot : Bool → Bool → Disk → Call RecordSnapshot
    unfolding texts_or_error parse_records record_index relative
    read_snapshot strict locked d = do
      texts ← texts_or_error locked d
      records ← parse_records parse strict texts
      ok (record {
        texts = texts;
        records = records;
        by_id = record_index (relative trails_dir records);
      })

-- the record of a text, if there is a text and it parses
abbrev pub parsed : (String → Call ThoughtRecord) → Option String → Option ThoughtRecord
parsed parse none = none
parsed parse (some text) = ok_of (parse text)

ok-eq : {A : Type 0} (a b : A) → Path (Call A) (ok a) (ok b) → a ≡ b
ok-eq a b h = ground arith

parse_records-cons :
    (parse : String → Call ThoughtRecord) (path text : String) (texts : Dict String)
    (r : ThoughtRecord) (records : Dict ThoughtRecord)
    → parse text ≡ ok r
    → parse_records parse false ((path, text) ∷ texts) ≡ ok records
    → (others : Dict ThoughtRecord) × (parse_records parse false texts ≡ ok others)
      × ((path, r) ∷ others ≡ records)
unfolding parse_records
parse_records-cons parse path text texts r records p h =
    let a =
      >>=-eq-ok (parse_records parse false texts) (λ others. ok ((path, r) ∷ others))
        (rw (p, parse_records) at h) in
    (a.0, a.1, ok-eq ((path, r) ∷ a.0) records a.2)

parse_records-skip :
    (parse : String → Call ThoughtRecord) (path text : String) (texts : Dict String)
    (e : TransactionError) (records : Dict ThoughtRecord)
    → parse text ≡ err e
    → parse_records parse false ((path, text) ∷ texts) ≡ ok records
    → parse_records parse false texts ≡ ok records
unfolding parse_records
parse_records-skip parse path text texts e records p h = rw (p, parse_records) at h

Result-cases :
    (x : Call ThoughtRecord)
    → ((r : ThoughtRecord) × (x ≡ ok r)) ⊎ ((e : TransactionError) × (x ≡ err e))
Result-cases (ok r) = inl (r, refl)
Result-cases (err e) = inr (e, refl)

lookup-parse_records :
    (parse : String → Call ThoughtRecord) (k : String) (texts : Dict String)
    (records : Dict ThoughtRecord)
    → IsDict texts
    → parse_records parse false texts ≡ ok records
    → lookup k records ≡ parsed parse (lookup k texts)
unfolding lookup
lookup-parse_records parse k [] records u h =
    subst (λ r. lookup k r ≡ none) (ok-eq [] records (unfold parse_records in h)) refl
lookup-parse_records parse k ((path, text) ∷ texts) records u h = elim (Result-cases (parse text)) [
  | inl p ↦
      let a = parse_records-cons parse path text texts p.0 records p.1 h in
      let rest = lookup-parse_records parse k texts a.0 u.1 a.1 in
      subst (λ r. lookup k r ≡ parsed parse (lookup k ((path, text) ∷ texts))) a.2
        (ground (arith, rest, p.1))
  | inr p ↦
      let rest =
        lookup-parse_records parse k texts records u.1
          (parse_records-skip parse path text texts p.0 records p.1 h) in
      ground (arith, rest, p.1, u.0, eq_iff path k)
]

module _ (inside is_thought undecodable : String → Bool) where
  texts_or_error-returns :
      (d : Disk) (before : Dict Image) (texts : Dict String)
      → load_journal inside d.journal ≡ ok before
      → has_undecodable inside is_thought undecodable before d.files ≡ false
      → snapshot inside is_thought d ≡ ok texts
      → texts_or_error inside is_thought undecodable false d ≡ ok texts
  unfolding texts_or_error snapshot_texts
  texts_or_error-returns d before texts load fine h = rw (load, fine, h) refl

  pub read_snapshot_lenient :
      (parse : String → Call ThoughtRecord) (trails_dir : String) (d : Disk) (before : Dict Image)
      (path : String)
      → load_journal inside d.journal ≡ ok before
      → has_undecodable inside is_thought undecodable before d.files ≡ false
      → IsDict before
      → IsDict d.files
      → (s : RecordSnapshot) × (read_snapshot inside is_thought undecodable parse trails_dir false
            false d
          ≡ ok s)
        × (lookup path s.records ≡ parsed parse (reading is_thought before d.files path))
        × (s.by_id ≡ record_index (relative trails_dir s.records))
  unfolding read_snapshot
  read_snapshot_lenient parse trails_dir d before path load fine unique files =
      let t = snapshot-IsDict inside is_thought d before load in
      let shown = lookup-snapshot inside is_thought d before path load unique files in
      let e = texts_or_error-returns d before t.0 load fine t.1 in
      let r = parse_records-lenient parse t.0 in
      let there : lookup path t.0 ≡ reading is_thought before d.files path =
        ground (arith, shown, t.1) in
      (
        record { texts = t.0; records = r.0; by_id = record_index (relative trails_dir r.0) },
        rw (e, r.1) refl,
        lookup-parse_records parse path t.0 r.0 t.2 r.1 ∙ ap (parsed parse) there,
        refl,
      )
