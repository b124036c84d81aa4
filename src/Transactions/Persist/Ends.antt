-- ===== src/Transactions/Persist/Ends.antt =====
-- What holds when a run ends, by the way in which it ended.
use fava_trails.Base.{[], ◌∷◌}
use fava_trails.Transactions.Disk.{
  Disk, Exit, returned, failed, broken, killed, World, Run, Schedule, Outcome, done, raised,
  raised_late, step, run_step, ◌>>=◌,
}

-- `Q` where it returned, `F` where the exception came out of no handler, and else `O`.
abbrev pub Ends :
    {A : Type 0}
    → (World → Type 0)
    → (World → Type 0)
    → (A → World → Type 0)
    → Exit A × World
    → Type 0
Ends F O Q (returned a, w) = Q a w
Ends F O Q (failed _, w) = F w
Ends F O Q (broken, w) = O w
Ends F O Q (killed, w) = O w

module _ {A B : Type 0} (F O : World → Type 0) (Q : A → World → Type 0)
    (R : B → World → Type 0) where
  continue :
      (r : Exit A × World) (k : A → Run B)
      → Ends F O Q r
      → ((a : A) (w : World) → Q a w → Ends F O R (k a w))
      → Ends F O R (elim r.0 [
        | returned a ↦ k a r.1
        | failed e ↦ (failed e, r.1)
        | broken ↦ (broken, r.1)
        | killed ↦ (killed, r.1)
      ])
  continue (returned a, w) k h f = f a w h
  continue (failed e, w) k h f = h
  continue (broken, w) k h f = h
  continue (killed, w) k h f = h

  pub Ends-bind :
      (m : Run A) (k : A → Run B) (w : World)
      → Ends F O Q (m w)
      → ((a : A) (w' : World) → Q a w' → Ends F O R (k a w'))
      → Ends F O R ((m >>= k) w)
  Ends-bind m k w h f = continue (m w) k h f

-- Consequence.
pub Ends-weaken :
    {A : Type 0} (F F' O O' : World → Type 0) (Q Q' : A → World → Type 0) (r : Exit A × World)
    → Ends F O Q r
    → ((w : World) → F w → F' w)
    → ((w : World) → O w → O' w)
    → ((a : A) (w : World) → Q a w → Q' a w)
    → Ends F' O' Q' r
Ends-weaken F F' O O' Q Q' (returned a, w) h f o q = q a w h
Ends-weaken F F' O O' Q Q' (failed e, w) h f o q = f w h
Ends-weaken F F' O O' Q Q' (broken, w) h f o q = o w h
Ends-weaken F F' O O' Q Q' (killed, w) h f o q = o w h

-- What is known of the schedule stays known of the rest of it.
pub record IsKept (S : Schedule → Type 0) : Type 0 where
  pub rest : (o : Outcome) (s : Schedule) → S (o ∷ s) → S s

module _ (S : Schedule → Type 0) (kept : IsKept S) where
  -- One step: it is killed or raises without its effect, or raises or returns with it.
  pub Ends-step :
      (F O : World → Type 0) (Q : Unit {0} → World → Type 0) (effect : Disk → Disk) (w : World)
      → S w.schedule
      → (S [] → O (record { disk = w.disk; schedule = [] }))
      → ((s : Schedule) → S s → F (record { disk = w.disk; schedule = s }))
      → ((s : Schedule) → S (raised_late ∷ s) → F (record { disk = effect w.disk; schedule = s }))
      → ((s : Schedule) → S s → Q tt (record { disk = effect w.disk; schedule = s }))
      → Ends F O Q (step effect w)
  unfolding step
  Ends-step F O Q effect w known o f l q = go w.schedule known
    where
      go : (s : Schedule) → S s → Ends F O Q (run_step effect w.disk s)
      go [] h = o h
      go (done ∷ s) h = q s (kept.rest done s h)
      go (raised ∷ s) h = f s (kept.rest raised s h)
      go (raised_late ∷ s) h = l s h
