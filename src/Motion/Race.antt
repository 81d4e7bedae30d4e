-- ===== src/Motion/Race.antt =====
-- The worker that ends and the thread that stops it may come in either order.
use on_step_adapter.Base.{
  ◌&&◌, ◌≡◌, Bool, true, false, Option, none, some, arith, ℕ, ◌≤◌, get_or, is_some,
}
use on_step_adapter.Stop.{IndiStopResult}
use on_step_adapter.Motion.{
  MotionHandle, MotionError, running, succeeded, failed, stopped, motion_stopped, Ending, finish,
  record_stop, report, Stage, new_handle, clamp, set_done, request_stop, MotionState,
}
use on_step_adapter.Base.Int.{ℤ}
use on_step_adapter.Base.Text.{Text}

abbrev is_stopped_error : Option MotionError → Bool
is_stopped_error (some (motion_stopped s)) = true
is_stopped_error _ = false

-- Once a stop result is recorded, a stopped error carries one.
abbrev shows : Option IndiStopResult → Option MotionError → Bool
shows (some r) (some (motion_stopped none)) = false
shows _ _ = true

module _ {R : Type 0} where
  abbrev fraction_of : MotionHandle R → ℕ
  fraction_of h = get_or h.token.fraction 0

  -- While no stop result is recorded, the end of the worker and the recording of one commute: a
  -- stopped move shows its stop result whichever thread takes the lock first.
  finish-record_stop_comm :
      (h : MotionHandle R) (e : Ending R) (r : IndiStopResult)
      → h.stop_result ≡ none
      → h.error ≡ none
      → finish e (record_stop r h) ≡ record_stop r (finish e h)
  unfolding finish record_stop
  finish-record_stop_comm h e r none_yet clean = ground arith

abbrev is_running_state : MotionState → Bool
is_running_state running = true
is_running_state _ = false

-- The steps that threads take on one handle. The worker reports, ends the move once and then sets
-- the event; a thread that stops the move asks for it and, later, records the result.
pub data Step {R : Type 0} : MotionHandle R → MotionHandle R → Type 0 where
  reports :
      (h : MotionHandle R) (s : Option Stage) (f : Option ℤ) (t : Option Text)
      → h.state ≡ running
      → Step h (record h { token = report s f t h.token })
  ends : (h : MotionHandle R) (e : Ending R) → h.state ≡ running → Step h (finish e h)
  signals : (h : MotionHandle R) → is_running_state h.state ≡ false → Step h (set_done h)
  asks : (h : MotionHandle R) → Step h (request_stop h)
  records : (h : MotionHandle R) (r : IndiStopResult) → Step h (record_stop r h)

pub data Reach {R : Type 0} : MotionHandle R → Type 0 where
  fresh : Reach new_handle
  next : {h k : MotionHandle R} → Reach h → Step h k → Reach k

-- What holds of a handle between two steps.
pub record IsConsistent {R : Type 0} (h : MotionHandle R) : Type 0 where
  done_ended : (h.done && is_running_state h.state) ≡ false
  running_clean : h.state ≡ running → (h.error ≡ none) × (h.result ≡ none)
  succeeded_result : h.state ≡ succeeded → (is_some h.result ≡ true) × (h.error ≡ none)
  stopped_error : h.state ≡ stopped → is_stopped_error h.error ≡ true
  failed_error : h.state ≡ failed → (is_some h.error ≡ true) × (is_stopped_error h.error ≡ false)
  stop_shown : h.state ≡ stopped → shows h.stop_result h.error ≡ true
  fraction_capped : fraction_of h ≤ 1000

new_handle-IsConsistent : {R : Type 0} → IsConsistent (new_handle {R = R})
unfolding new_handle
new_handle-IsConsistent = ground arith

Step-IsConsistent : {R : Type 0} {h k : MotionHandle R} → Step h k → IsConsistent h → IsConsistent k
unfolding report finish set_done request_stop record_stop clamp
Step-IsConsistent (reports h s f t open_yet) c = ground arith
Step-IsConsistent (ends h e open_yet) c = ground arith
Step-IsConsistent (signals h ended) c = ground arith
Step-IsConsistent (asks h) c = ground arith
Step-IsConsistent (records h r) c = ground arith

-- Whatever the interleaving of the worker's reports, its end and the event that it sets behind
-- that, and of any number of requests to stop and stop results that are recorded: a handle whose
-- event is set is no longer running; while it runs it has no error and no result; a success has a
-- result and no error, a stopped move an error that is MotionStopped, a failed one another error;
-- a stopped move whose handle has a stop result shows one in its error; and the fraction is at
-- most 1.
pub Reach-IsConsistent : {R : Type 0} {h : MotionHandle R} → Reach h → IsConsistent h
Reach-IsConsistent fresh = new_handle-IsConsistent
Reach-IsConsistent (next r s) = Step-IsConsistent s (Reach-IsConsistent r)
