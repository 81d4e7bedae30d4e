-- ===== src/Motion.antt =====
-- onstep_adapter/indi_motion.py: the handle of a move that runs in a worker thread. Each method
-- is the state change that it makes under the handle's lock, and what it does outside of the lock
-- is a step of its own; `Step` interleaves them. `stop` is `request_stop`, the client's verified
-- stop, and `record_stop`, between which other threads act. The start and finish times and the
-- callback `on_finish` are not modelled. Fractions are in thousandths.
pub mod Race
use on_step_adapter.Base.{
  ℕ, Bool, true, false, ◌&&◌, Option, none, some, get_or, is_some, ltb, if◌then◌else◌,
}
use on_step_adapter.Base.Int.{ℤ, pos, ltb_ℤ, pos_part}
use on_step_adapter.Base.Text.{Text}
use on_step_adapter.Outcome.{Exc, Outcome, ok, raised, timeout_error}
use on_step_adapter.Stop.{IndiStopResult}

pub data MotionState : Type 0 where
  running succeeded failed stopped : MotionState

pub data Stage : Type 0 where
  starting preflight moving confirming_stop : Stage
  -- shown by `progress` for a move that ended
  stage_done stage_stopped : Stage

-- What a move ends with: its error is MotionStopped with its own `stop_result`, or another one.
pub data MotionError : Type 0 where
  motion_stopped : Option IndiStopResult → MotionError
  other : Exc → MotionError

pub record MotionToken : Type 0 where
  pub stop : Bool
  pub stage : Stage
  pub fraction : Option ℕ
  pub last_raw_status : Option Text

pub record MotionHandle (R : Type 0) : Type 0 where
  pub token : MotionToken
  pub done : Bool
  pub state : MotionState
  pub result : Option R
  pub error : Option MotionError
  pub stop_result : Option IndiStopResult

pub record MotionProgress : Type 0 where
  pub state : MotionState
  pub stage : Stage
  pub fraction : Option ℕ
  pub last_raw_status : Option Text
  pub error : Option MotionError

abbrev new_token : MotionToken
new_token = record { stop = false; stage = starting; fraction = none; last_raw_status = none }

-- max(0.0, min(1.0, fraction))
unfoldable pub clamp : ℤ → ℕ
clamp x = if ltb 1000 (pos_part x) then 1000 else pos_part x

-- `MotionToken.report`; an argument left out is `none`.
unfoldable pub report : Option Stage → Option ℤ → Option Text → MotionToken → MotionToken
report stage fraction raw t = record t {
  stage = get_or stage t.stage;
  fraction = elim fraction [ none ↦ t.fraction | some x ↦ some (clamp x) ];
  last_raw_status = elim raw [ none ↦ t.last_raw_status | some r ↦ some r ];
}

-- `MotionToken.check`, and `sleep` when the event is set.
unfoldable pub check : MotionToken → Option MotionError
check t = if t.stop then some (motion_stopped none) else none

-- A stopped error without a stop result takes the given one.
abbrev fill : Option IndiStopResult → Option MotionError → Option MotionError
fill r (some (motion_stopped none)) = some (motion_stopped r)
fill r e = e

-- How `run(token)` ended.
pub data Ending (R : Type 0) : Type 0 where
  returned : R → Ending R
  threw : MotionError → Ending R

-- What `wait` does once the timeout has passed or the move is done.
pub data Waited (R : Type 0) : Type 0 where
  still_running : Waited R
  throws : MotionError → Waited R
  returns : Option R → Waited R

module _ {R : Type 0} where
  -- `__init__`
  unfoldable pub new_handle : MotionHandle R
  new_handle = record {
    token = new_token;
    done = false;
    state = running;
    result = none;
    error = none;
    stop_result = none;
  }

  abbrev ended_state : Ending R → MotionState
  ended_state (returned r) = succeeded
  ended_state (threw (motion_stopped s)) = stopped
  ended_state (threw (other e)) = failed

  abbrev ended_error : Ending R → Option MotionError
  ended_error (returned r) = none
  ended_error (threw e) = some e

  abbrev ended_result : Ending R → Option R
  ended_result (returned r) = some r
  ended_result (threw e) = none

  -- The end of `_work` under the lock.
  unfoldable pub finish : Ending R → MotionHandle R → MotionHandle R
  finish e h = record h {
    state = ended_state e;
    result = ended_result e;
    error = fill h.stop_result (ended_error e);
  }

  -- `self._done.set()`, behind it.
  unfoldable pub set_done : MotionHandle R → MotionHandle R
  set_done h = record h { done = true }

  -- `_request_stop`
  unfoldable pub request_stop : MotionHandle R → MotionHandle R
  request_stop h = record h { token = record (h.token) { stop = true } }

  -- `_record_stop`
  unfoldable pub record_stop : IndiStopResult → MotionHandle R → MotionHandle R
  record_stop r h = record h { stop_result = some r; error = fill (some r) h.error }

  unfoldable progress : MotionHandle R → MotionProgress
  progress h = record {
    state = h.state;
    stage = elim h.state [ succeeded ↦ stage_done | stopped ↦ stage_stopped | _ ↦ h.token.stage ];
    fraction = elim h.state [
      | succeeded ↦ elim h.token.fraction [ none ↦ none | some x ↦ some 1000 ]
      | _ ↦ h.token.fraction
    ];
    last_raw_status = h.token.last_raw_status;
    error = h.error;
  }

  unfoldable wait : MotionHandle R → Waited R
  wait h = elim h.done [
    | false ↦ still_running
    | true ↦ elim h.error [ some e ↦ throws e | none ↦ returns h.result ]
  ]
