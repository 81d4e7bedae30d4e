-- ===== src/Tests/Moves.antt =====
-- Moves, tracking and the motion handle at concrete schedules.
use on_step_adapter.Base.{ℕ, ◌≡◌, refl, true, false, none, some, [], ◌∷◌, ltb}
use on_step_adapter.Base.Int.{pos}
use on_step_adapter.Outcome.{ok}
use on_step_adapter.Snapshot.{IndiMountSnapshot}
use on_step_adapter.Meridian.{classify_meridian}
use on_step_adapter.Transport.{
  World, Io, wait_property, wait_loop, round, latch, newer, get_property, lookup, value_of, arrive,
  record_vector, store, merged, update, set_value,
}
use on_step_adapter.Requests.{issue_switch, is_writable, send}
use on_step_adapter.Gu.{decode_gu, accepts, flags_of}
use on_step_adapter.Stop.{IndiStopResult}
use on_step_adapter.Status.{reports_error}
use on_step_adapter.Watch.{Watch}
use on_step_adapter.Tracking.{IndiTrackingResult, controller_managed, result_with}
use on_step_adapter.Home.{
  IndiPositionResult, is_home, go_home, ready, move_to_home, move_to_position, wait_status,
  read_update,
}
use on_step_adapter.Home.Arrival.{Arrived, go_home-Arrived}
use on_step_adapter.Motion.{
  MotionHandle, new_handle, threw, motion_stopped, moving, report, finish, set_done, request_stop,
  record_stop,
}
use on_step_adapter.Motion.Race.{
  fresh, next, reports, ends, asks, records, signals, IsConsistent, Reach-IsConsistent,
}
use on_step_adapter.Tests.{
  early, boundaries, switch_property, status_property, status_update, switch_update, still,
  still_home, world_with,
}

abbrev idle_view : IndiMountSnapshot
idle_view = record early { tracking = false }

abbrev watching : (World → IndiMountSnapshot) → Watch
watching view = record {
  observe = λ w. (ok (view w), w);
  meridian_status = λ w. (ok (classify_meridian (view w) boundaries), w);
  emergency_stop = λ w. (ok tt, w);
}

-- A switch that answers after 50 ms; the mount tracks from then on.
abbrev switching : World
switching =
    world_with (switch_property "TELESCOPE_TRACK_STATE" "TRACK_ON" ∷ [])
      ((50, switch_update "TELESCOPE_TRACK_STATE" "TRACK_ON") ∷ [])

abbrev tracking_later : World → IndiMountSnapshot
tracking_later w = record early { tracking = ltb 20 w.now; status_revision = pos w.now }

abbrev enabled : IndiTrackingResult
enabled =
    result_with controller_managed (tracking_later switching)
      (classify_meridian (tracking_later switching) boundaries) true true 2 early.raw_status none

-- A mount that takes the command and then shows HOME twice.
abbrev homing : World
homing =
    world_with
      (switch_property "TELESCOPE_HOME" "GO"
        ∷ switch_property "TELESCOPE_PARK" "PARK"
        ∷ status_property still (pos 1)
        ∷ [])
      ((100, status_update still_home) ∷ (200, status_update still_home) ∷ [])

abbrev reading : IndiMountSnapshot → Io IndiMountSnapshot
reading s w = (ok s, w)

abbrev arrived : IndiPositionResult
arrived = record {
  confirmed = true;
  final_raw_status = some still_home;
  error = none;
  stop_result = none;
}

arrived_run : (go_home "OnStep" (reading idle_view) false 500 false homing).0 ≡ ok arrived
unfolding reports_error go_home ready move_to_home move_to_position issue_switch wait_status
    read_update decode_gu accepts flags_of wait_property wait_loop round latch newer get_property
    lookup is_writable value_of send arrive record_vector store merged update set_value
arrived_run = refl

go_home-Arrived_example : Arrived is_home arrived
go_home-Arrived_example =
    go_home-Arrived "OnStep" (reading idle_view) false 500 false homing arrived arrived_run refl

abbrev stop_report : IndiStopResult
stop_report = record {
  abort_accepted = true;
  tracking_off_accepted = true;
  stopped_confirmed = true;
  consecutive_stopped_polls = 2;
  last_raw_status = some still;
  errors = [];
}

abbrev start_handle : MotionHandle ℕ
start_handle = record new_handle {
  token = report (some moving) none none (new_handle {R = ℕ}).token;
}

abbrev settled : MotionHandle ℕ
settled =
    set_done
      (finish (threw (motion_stopped none)) (record_stop stop_report (request_stop start_handle)))

Reach-IsConsistent_example : IsConsistent settled
unfolding new_handle request_stop record_stop finish
Reach-IsConsistent_example = Reach-IsConsistent (
    next
      (next
        (next
          (next (next fresh (reports new_handle (some moving) none none refl)) (asks start_handle))
          (records (request_stop start_handle) stop_report))
        (ends (record_stop stop_report (request_stop start_handle)) (threw (motion_stopped none))
          refl))
      (signals
        (finish (threw (motion_stopped none)) (record_stop stop_report (request_stop start_handle)))
        refl))
