-- ===== src/Stop.antt =====
-- onstep_adapter/indi_stop.py: the verified stop. Both commands are tried, then the live status has
-- to show the mount stopped twice.

pub mod Polling
pub mod Evidence
use on_step_adapter.Base.{
  ℕ, zero, suc, ◌+◌, ◌-◌, Bool, true, false, ◌&&◌, not, Option, none, some, List, [], ◌∷◌, ◌++◌,
  String, leb, if◌then◌else◌,
}
use on_step_adapter.Base.Int.{ℤ}
use on_step_adapter.Base.Text.{Text}
use on_step_adapter.Outcome.{
  Exc, ok, raised, is_caught, out_of_fuel, connection_error, timeout_error,
}
use on_step_adapter.Gu.{Gu, decode_gu}
use on_step_adapter.Transport.{
  IndiProperty, Io, ◌>>=◌, return, gets, value_of, get_property, revision_of, wait_property,
}
use on_step_adapter.Requests.{issue_switch, is_alert, rounds}

pub data StopError : Type 0 where
  abort_failed tracking_off_failed status_failed : Exc → StopError
  stop_confirmation_timeout : StopError

pub record IndiStopResult : Type 0 where
  pub abort_accepted : Bool
  pub tracking_off_accepted : Bool
  pub stopped_confirmed : Bool
  pub consecutive_stopped_polls : ℕ
  pub last_raw_status : Option Text
  pub errors : List StopError

-- `decode_gu(raw) if raw else {}`, where a ValueError gives `{}` too.
unfoldable pub decoded_of : Option Text → Option Gu
decoded_of none = none
decoded_of (some []) = none
decoded_of (some (c ∷ t)) = decode_gu (c ∷ t)

abbrev pub status_text : IndiProperty → Option Text
status_text p = value_of p.values ":GU# return"

abbrev pub is_stopped_gu : Option Gu → Bool
is_stopped_gu none = false
is_stopped_gu (some g) = not g.tracking && not g.slewing && not g.park_failed

-- Whether one status update counts as a stopped poll.
unfoldable pub is_stopped : IndiProperty → Bool
is_stopped p = not (is_alert p.state) && is_stopped_gu (decoded_of (status_text p))

-- One of the two commands, in its `try`.
unfoldable pub attempt : (Exc → StopError) → Io ℤ → Io (Bool × List StopError)
attempt tag command w =
    let (r, w') = command w in
    elim r [
      | ok revision ↦ (ok (true, []), w')
      | raised e ↦ if is_caught e then (ok (false, tag e ∷ []), w') else (raised e, w')
    ]

-- What the confirmation loop leaves: the stopped polls, the last status and the errors so far.
abbrev pub Polled : Type 0
Polled = ℕ × Option Text × List StopError

-- `except (ConnectionError, TimeoutError)`
abbrev is_poll_error : Exc → Bool
is_poll_error (connection_error _) = true
is_poll_error (timeout_error _) = true
is_poll_error _ = false

unfoldable pub poll_stopped : ℕ → String → ℕ → ℤ → ℕ → Option Text → List StopError → Io Polled
poll_stopped zero device deadline revision polls raw errors w = (raised out_of_fuel, w)
poll_stopped (suc fuel) device deadline revision polls raw errors w = elim (leb 2 polls) [
  | true ↦ (ok (polls, raw, errors), w)
  | false ↦ elim (leb deadline w.now) [
    | true ↦ (ok (polls, raw, errors ++ stop_confirmation_timeout ∷ []), w)
    | false ↦
        let (r, w') = wait_property device "OnStep Status" (deadline - w.now) revision w in
        elim r [
          | raised e ↦
              if is_poll_error e
              then (ok (polls, raw, errors ++ status_failed e ∷ []), w')
              else (raised e, w')
          | ok p ↦
              poll_stopped fuel device deadline p.revision (if is_stopped p then suc polls else 0)
                (status_text p) errors w'
        ]
  ]
]

abbrev pub is_nil : List StopError → Bool
is_nil [] = true
is_nil (e ∷ errors) = false

unfoldable pub result_of : Bool → Bool → Polled → IndiStopResult
result_of abort off (polls, raw, errors) = record {
  abort_accepted = abort;
  tracking_off_accepted = off;
  stopped_confirmed = leb 2 polls && is_nil errors;
  consecutive_stopped_polls = polls;
  last_raw_status = raw;
  errors = errors;
}

unfoldable pub stop_mount_via_indi : String → ℕ → ℕ → Io IndiStopResult
unfolding result_of
stop_mount_via_indi device command_timeout confirmation_timeout = do
  (abort, abort_errors) ←
      attempt abort_failed (issue_switch device "TELESCOPE_ABORT_MOTION" "ABORT" command_timeout)
  (off, off_errors) ←
      attempt tracking_off_failed
        (issue_switch device "TELESCOPE_TRACK_STATE" "TRACK_OFF" command_timeout)
  start ← gets (λ w. w)
  polled ←
      poll_stopped (rounds start) device (start.now + confirmation_timeout)
        (revision_of (get_property device "OnStep Status" start)) 0 none
        (abort_errors ++ off_errors)
  return (result_of abort off polled)
