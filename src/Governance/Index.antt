-- ===== src/Governance/Index.antt =====
-- `record_index` and `_parse_records` of src/fava_trails/governance.py. The index wants paths that
-- are relative to the trails directory.
use fava_trails.Base.{
  ℕ, ◌≤◌, String, ◌≡◌, refl, Bool, true, false, inl, inr, none, some, List, [], ◌∷◌, arith, ◌==◌,
  eq_iff, if◌then◌else◌, contains, length, keep, All, is_some, Bool-cases, or_else,
}
use fava_trails.Base.Dict.{Dict, lookup, insert, remove, lookup-insert, lookup-remove}
use fava_trails.Base.Result.{Result, ok, err, ◌>>=◌}
use fava_trails.Base.Text.{concat, before_first, strip_prefix}
use fava_trails.Models.Thought.{ThoughtRecord, thought_id_of}

-- `f"{scope}:{record.thought_id}"`
unfoldable pub qualified : String → ThoughtRecord → String
qualified path r = concat (before_first "/thoughts/" path ∷ ":" ∷ thought_id_of r ∷ [])

-- the index and the ids met twice, while the loop runs
abbrev pub Progress : Type 0
Progress = Dict ThoughtRecord × List String

note : String × ThoughtRecord → Progress → Progress
note (path, r) (index, duplicates) =
    let id = thought_id_of r in
    let index' = insert (qualified path r) r index in
    (insert id r index', if is_some (lookup id index') then id ∷ duplicates else duplicates)

collect : Dict ThoughtRecord → Progress → Progress
collect [] s = s
collect (e ∷ rest) s = collect rest (note e s)

pop_all : List String → Dict ThoughtRecord → Dict ThoughtRecord
pop_all [] index = index
pop_all (id ∷ ids) index = pop_all ids (remove id index)

unfoldable pub record_index : Dict ThoughtRecord → Dict ThoughtRecord
unfolding collect note pop_all qualified
record_index records =
    let (index, duplicates) = collect records ([], []) in pop_all duplicates index

-- the records that have this id
abbrev pub count_id : String → Dict ThoughtRecord → ℕ
count_id id records = length (keep (λ e. thought_id_of e.1 == id) records)

-- No scope-qualified key is spelled like the id.
abbrev pub IsPlainId : String → Dict ThoughtRecord → Type 0
IsPlainId id records = All (λ e. (qualified e.0 e.1 == id) ≡ false) records

module _ (id : String) where
  lookup-pop_all :
      (ids : List String) (index : Dict ThoughtRecord)
      → lookup id (pop_all ids index) ≡ (if contains id ids then none else lookup id index)
  unfolding pop_all
  lookup-pop_all [] index = refl
  lookup-pop_all (j ∷ ids) index = ground (
    arith,
    lookup-pop_all ids (remove j index),
    lookup-remove j id index,
    eq_iff j id,
    eq_iff id j,
  )

  -- one round: what was indexed or met twice stays so, and the record's own id is indexed
  note-contains :
      (e : String × ThoughtRecord) (s : Progress)
      → contains id s.1 ≡ true
      → contains id (note e s).1 ≡ true
  unfolding note
  note-contains (path, r) (index, dup) h = ground (arith, h)

  note-is_some :
      (e : String × ThoughtRecord) (s : Progress)
      → is_some (lookup id s.0) ≡ true
      → is_some (lookup id (note e s).0) ≡ true
  unfolding note
  note-is_some (path, r) (index, dup) h = ground (
    arith,
    lookup-insert (thought_id_of r) id r (insert (qualified path r) r index),
    lookup-insert (qualified path r) id r index,
  )

  note-indexes :
      (e : String × ThoughtRecord) (s : Progress)
      → (thought_id_of e.1 == id) ≡ true
      → is_some (lookup id (note e s).0) ≡ true
  unfolding note
  note-indexes (path, r) (index, dup) h =
      ground (arith, lookup-insert (thought_id_of r) id r (insert (qualified path r) r index))

  note-duplicate :
      (e : String × ThoughtRecord) (s : Progress)
      → (thought_id_of e.1 == id) ≡ true
      → is_some (lookup id s.0) ≡ true
      → contains id (note e s).1 ≡ true
  unfolding note
  note-duplicate (path, r) (index, dup) e h =
      let same : thought_id_of r ≡ id = (eq_iff (thought_id_of r) id).0 e in
      rw same (ground (arith, lookup-insert (qualified path r) id r index, eq_iff id id))

  -- the whole loop
  contains-collect :
      (records : Dict ThoughtRecord) (s : Progress)
      → contains id s.1 ≡ true
      → contains id (collect records s).1 ≡ true
  unfolding collect
  contains-collect [] s h = h
  contains-collect (e ∷ rest) s h = contains-collect rest (note e s) (note-contains e s h)

  seen-collect :
      (records : Dict ThoughtRecord) (s : Progress)
      → is_some (lookup id s.0) ≡ true
      → 1 ≤ count_id id records
      → contains id (collect records s).1 ≡ true
  unfolding collect
  seen-collect [] s h n = absurd (omega arith)
  seen-collect (e ∷ rest) s h n = elim (Bool-cases (thought_id_of e.1 == id)) [
    | inl same ↦ contains-collect rest (note e s) (note-duplicate e s same h)
    | inr other ↦ seen-collect rest (note e s) (note-is_some e s h) (ground (arith, other))
  ]

  twice-collect :
      (records : Dict ThoughtRecord) (s : Progress)
      → 2 ≤ count_id id records
      → contains id (collect records s).1 ≡ true
  unfolding collect
  twice-collect [] s n = absurd (omega arith)
  twice-collect (e ∷ rest) s n = elim (Bool-cases (thought_id_of e.1 == id)) [
    | inl same ↦ seen-collect rest (note e s) (note-indexes e s same) (ground (arith, same))
    | inr other ↦ twice-collect rest (note e s) (ground (arith, other))
  ]

  -- every record found under the id has the id, where no qualified key is spelled like it
  note-owned :
      (e : String × ThoughtRecord) (s : Progress)
      → (qualified e.0 e.1 == id) ≡ false
      → ((r : ThoughtRecord) → lookup id s.0 ≡ some r → thought_id_of r ≡ id)
      → (r : ThoughtRecord) → lookup id (note e s).0 ≡ some r
      → thought_id_of r ≡ id
  unfolding note
  note-owned (path, x) (index, dup) q own r h = ground (
    arith,
    lookup-insert (thought_id_of x) id x (insert (qualified path x) x index),
    lookup-insert (qualified path x) id x index,
    own r,
    eq_iff (thought_id_of x) id,
  )

  collect-owned :
      (records : Dict ThoughtRecord) (s : Progress)
      → IsPlainId id records
      → ((r : ThoughtRecord) → lookup id s.0 ≡ some r → thought_id_of r ≡ id)
      → (r : ThoughtRecord) → lookup id (collect records s).0 ≡ some r
      → thought_id_of r ≡ id
  unfolding collect
  collect-owned [] s q own r h = own r h
  collect-owned (e ∷ rest) s q own r h =
      collect-owned rest (note e s) q.1 (note-owned e s q.0 own) r h

-- An id that two records carry is no key of the index: a backlink by that id retires nothing.
pub ambiguous_id-record_index :
    (id : String) (records : Dict ThoughtRecord)
    → 2 ≤ count_id id records
    → lookup id (record_index records) ≡ none
unfolding record_index
ambiguous_id-record_index id records n =
    rw (lookup-pop_all id) (rw (twice-collect id records ([], []) n) refl)

-- What the index finds under a plain id is a record of that id, and no other record has the id.
pub unique_id-record_index :
    (id : String) (records : Dict ThoughtRecord) (r : ThoughtRecord)
    → IsPlainId id records
    → lookup id (record_index records) ≡ some r
    → (thought_id_of r ≡ id) × (count_id id records ≤ 1)
unfolding record_index lookup
unique_id-record_index id records r q h =
    let s = collect records ([], []) in
    let kept = lookup-pop_all id s.1 s.0 in
    (
      collect-owned id records ([], []) q (λ x e. cc) r (ground (arith, kept, h)),
      ground (arith, kept, h, twice-collect id records ([], [])),
    )

-- `path.relative_to(trails_dir)` of all paths
unfoldable pub relative : String → Dict ThoughtRecord → Dict ThoughtRecord
relative trails_dir [] = []
relative trails_dir ((path, r) ∷ rest) =
    (or_else (strip_prefix (concat (trails_dir ∷ "/" ∷ [])) path) path, r)
    ∷ relative trails_dir rest

-- `_parse_records`: a file that does not parse is left out, or raises when `strict`
unfoldable pub parse_records :
    {E : Type 0}
    → (String → Result E ThoughtRecord)
    → Bool
    → Dict String
    → Result E (Dict ThoughtRecord)
parse_records parse strict [] = ok []
parse_records parse strict ((path, text) ∷ texts) =
    let rest = parse_records parse strict texts in
    elim (parse text) [
      | ok r ↦ do others ← rest; ok ((path, r) ∷ others)
      | err e ↦ if strict then err e else rest
    ]

-- One captured read view.
pub record RecordSnapshot : Type 0 where
  pub texts : Dict String
  pub records : Dict ThoughtRecord
  pub by_id : Dict ThoughtRecord

module _ {E : Type 0} (parse : String → Result E ThoughtRecord) where
  pub parse_records-lenient :
      (texts : Dict String) → (rs : Dict ThoughtRecord) × (parse_records parse false texts ≡ ok rs)
  unfolding parse_records
  parse_records-lenient [] = ([], refl)
  parse_records-lenient ((path, text) ∷ texts) =
      let (rs, e) = parse_records-lenient texts in go (parse text) refl rs e
    where
      go :
          (p : Result E ThoughtRecord)
          → parse text ≡ p
          → (rs : Dict ThoughtRecord) → parse_records parse false texts ≡ ok rs
          → (qs : Dict ThoughtRecord) × (parse_records parse false ((path, text) ∷ texts) ≡ ok qs)
      go (ok r) h rs e = ((path, r) ∷ rs, rw (h, parse_records) (rw e refl))
      go (err x) h rs e = (rs, rw (h, parse_records) e)
