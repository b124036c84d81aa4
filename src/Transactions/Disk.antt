-- ===== src/Transactions/Disk.antt =====
-- What the governance transactions read and write, and how their steps may end
-- (src/fava_trails/transactions.py).
use fava_trails.Base.{String, Option, none, some, List, [], ◌∷◌}
use fava_trails.Base.Dict.{Dict, insert, remove}
use fava_trails.Base.Result.{Result, ok, err}
use fava_trails.Base.Value.{Value}

-- What the version control was told to commit.
pub record Commit : Type 0 where
  pub message : String
  pub paths : List String

-- The files by their names relative to the repository's root, in the order in which a glob meets
-- them; the JSON document of the journal file, if there is one; and the commits, last first.
pub record Disk : Type 0 where
  pub files : Dict String
  pub journal : Option Value
  pub commits : List Commit

-- a text to write, or `none` to delete
abbrev pub Image : Type 0
Image = Option String

-- `_replace` of a thought file, once it has taken effect
unfoldable pub replace_file : String → Image → Disk → Disk
replace_file name none d = record d { files = remove name d.files }
replace_file name (some text) d = record d { files = insert name text d.files }

unfoldable pub replace_journal : Option Value → Disk → Disk
replace_journal v d = record d { journal = v }

pub data TransactionError : Type 0 where
  -- raised by the operating system or by the version control, before or after the step took effect
  step_failed : TransactionError
  invalid_journal unsafe_path invalid_image thought_changed : TransactionError
  -- raised by the trail's methods around the transactions
  not_found ambiguous_id malformed_thought obvious_secret invalid_namespace invalid_scope :
      TransactionError
  invalid_confidence invalid_relationship : TransactionError
  content_frozen content_superseded tombstoned_thought changed_in_review : TransactionError
  hook_rejected hook_failed : TransactionError
  predecessor_missing predecessor_replaced : TransactionError
  -- raised by the reads
  transaction_in_progress undecodable_text : TransactionError

-- How one step ends: it is done, or it raises with or without its effect.
pub data Outcome : Type 0 where
  done raised raised_late : Outcome

-- The outcomes of the steps to come. A process whose schedule is used up is killed there.
abbrev pub Schedule : Type 0
Schedule = List Outcome

-- How a call ends. `broken` is an exception that escapes from an exception handler.
pub data Exit (A : Type 0) : Type 0 where
  returned : A → Exit A
  failed : TransactionError → Exit A
  broken : Exit A
  killed : Exit A

pub record World : Type 0 where
  pub disk : Disk
  pub schedule : Schedule

abbrev pub Run : Type 0 → Type 0
Run A = World → Exit A × World

module _ {A : Type 0} where
  abbrev pub pure : A → Run A
  pure a w = (returned a, w)

  abbrev pub raise : TransactionError → Run A
  raise e w = (failed e, w)

infixl 5 ◌>>=◌ ◌>>◌
abbrev pub ◌>>=◌ : {A B : Type 0} → Run A → (A → Run B) → Run B
◌>>=◌ m f w =
    let (r, w') = m w in
    elim r [
      | returned a ↦ f a w'
      | failed e ↦ (failed e, w')
      | broken ↦ (broken, w')
      | killed ↦ (killed, w')
    ]

abbrev pub ◌>>◌ : {A B : Type 0} → Run A → Run B → Run B
m >> k = m >>= λ _. k

unfoldable pub run_step : (Disk → Disk) → Disk → Schedule → Exit (Unit {0}) × World
run_step effect d [] = (killed, record { disk = d; schedule = [] })
run_step effect d (done ∷ s) = (returned tt, record { disk = effect d; schedule = s })
run_step effect d (raised ∷ s) = (failed step_failed, record { disk = d; schedule = s })
run_step effect d (raised_late ∷ s) = (failed step_failed, record { disk = effect d; schedule = s })

-- one step with an effect on the disk
unfoldable pub step : (Disk → Disk) → Run (Unit {0})
unfolding run_step
step effect w = run_step effect w.disk w.schedule

-- reads the disk
abbrev pub gets : {A : Type 0} → (Disk → A) → Run A
gets f w = (returned (f w.disk), w)

abbrev pub lift : {A : Type 0} → Result TransactionError A → Run A
lift (ok a) w = (returned a, w)
lift (err e) w = (failed e, w)
