-- ===== src/Client/Commands.antt =====
-- The commands that threads give to a client's moves, and lemmas on the store of handles.
use on_step_adapter.Base.{
  ℕ, zero, suc, ◌≡◌, refl, false, Option, none, some, List, [], ◌∷◌, ◌++◌, length, ◌==◌, arith,
  if◌then◌else◌,
}
use on_step_adapter.Outcome.{raised, other_error}
use on_step_adapter.Stop.{IndiStopResult}
use on_step_adapter.Motion.{MotionHandle, Ending, record_stop}
use on_step_adapter.Client.{
  Motions, handle_at, change_at, start_motion, finish_motion, signal_done, emergency_stop,
}

-- What the threads of an application do to a client's moves, each at a time; a worker ends its
-- move and then sets its event; an emergency stop asks first, and records the result with the
-- handle that it found, later, when others may have acted.
pub data Command (R : Type 0) : Type 0 where
  begin ask : Command R
  end : ℕ → Ending R → Command R
  signal : ℕ → Command R
  note : ℕ → IndiStopResult → Command R

module _ {R : Type 0} where
  unfoldable pub exec : Command R → Motions R → Motions R
  exec begin m = (start_motion m).1
  exec ask m = (emergency_stop false (raised other_error) m).1
  exec (end i e) m = finish_motion i e m
  exec (signal i) m = signal_done i m
  exec (note i r) m = record m { handles = change_at (record_stop r) i m.handles }

  unfoldable pub run : List (Command R) → Motions R → Motions R
  run [] m = m
  run (c ∷ l) m = run l (exec c m)

  abbrev pub no_motions : Motions R
  no_motions = record { handles = []; motion = none }

  pub handle_at-append :
      (l : List (MotionHandle R)) (h : MotionHandle R) (i : ℕ)
      → handle_at (l ++ h ∷ []) i ≡ (if i == length l then some h else handle_at l i)
  unfolding handle_at
  handle_at-append [] h zero = refl
  handle_at-append [] h (suc i) = ground arith
  handle_at-append (k ∷ l) h zero = ground arith
  handle_at-append (k ∷ l) h (suc i) = ground (arith, handle_at-append l h i)

  abbrev on_option :
      (MotionHandle R → MotionHandle R) → Option (MotionHandle R) → Option (MotionHandle R)
  on_option f none = none
  on_option f (some h) = some (f h)

  pub handle_at-change_at :
      (f : MotionHandle R → MotionHandle R) (i j : ℕ) (l : List (MotionHandle R))
      → handle_at (change_at f j l) i
        ≡ (if i == j then on_option f (handle_at l i) else handle_at l i)
  unfolding handle_at change_at
  handle_at-change_at f i j [] = ground arith
  handle_at-change_at f zero zero (h ∷ l) = refl
  handle_at-change_at f zero (suc j) (h ∷ l) = ground arith
  handle_at-change_at f (suc i) zero (h ∷ l) = ground arith
  handle_at-change_at f (suc i) (suc j) (h ∷ l) = ground (arith, handle_at-change_at f i j l)

  pub length-change_at :
      (f : MotionHandle R → MotionHandle R) (j : ℕ) (l : List (MotionHandle R))
      → length (change_at f j l) ≡ length l
  unfolding change_at
  length-change_at f j [] = refl
  length-change_at f zero (h ∷ l) = refl
  length-change_at f (suc j) (h ∷ l) = ground (arith, length-change_at f j l)
