-- ===== src/Tests/Wire.antt =====
-- The transport, the requests and the verified stop at concrete schedules.
use on_step_adapter.Base.{◌+◌, ◌≤◌, ◌≡◌, refl, true, some, none, [], ◌∷◌}
use on_step_adapter.Base.Int.{pos}
use on_step_adapter.Outcome.{ok, timeout_error}
use on_step_adapter.Transport.{
  value_of, update, set_value, IndiProperty, World, wait_property, newer, get_property, lookup,
  wait_loop, round, latch, arrive, record_vector, store, merged,
}
use on_step_adapter.Transport.Waiting.{IsFresh, wait_property-IsFresh}
use on_step_adapter.Requests.{issue_switch, is_writable, send}
use on_step_adapter.Stop.{
  IndiStopResult, stop_mount_via_indi, attempt, poll_stopped, is_stopped, decoded_of, result_of,
}
use on_step_adapter.Gu.{decode_gu, accepts, flags_of}
use on_step_adapter.Stop.Evidence.{
  StopReport, stop_mount_via_indi-StopReport, IsConfirmed, stop_mount_via_indi-IsConfirmed,
}
use on_step_adapter.Tests.{status_property, switch_property, status_update, still, world_with}

-- A mount whose two switches answer and which then shows twice that it stands still.
abbrev stopping : World
stopping =
    world_with
      (switch_property "TELESCOPE_ABORT_MOTION" "ABORT"
        ∷ switch_property "TELESCOPE_TRACK_STATE" "TRACK_OFF"
        ∷ status_property still (pos 1)
        ∷ [])
      ((100, status_update still) ∷ (200, status_update still) ∷ [])

-- The first send blocks for half a second and fails, the second one blocks for a fifth.
abbrev blocking : World
blocking = record stopping {
  send_faults = (500, some (timeout_error "timed out")) ∷ (200, none) ∷ [];
}

stop_mount_via_indi-StopReport_example :
    (r : IndiStopResult) × ((stop_mount_via_indi "OnStep" 3000 5000 blocking).0 ≡ ok r)
    × StopReport "OnStep"
        (3000 + 3000 + 5000)
        blocking
        r
        (stop_mount_via_indi "OnStep" 3000 5000 blocking).1
stop_mount_via_indi-StopReport_example =
    stop_mount_via_indi-StopReport "OnStep" 3000 5000 blocking refl

abbrev fresh_status : IndiProperty
fresh_status = record (status_property still (pos 11)) { received_at = 100 }

fresh_run : (wait_property "OnStep" "OnStep Status" 500 (pos 1) stopping).0 ≡ ok fresh_status
unfolding wait_property newer get_property lookup wait_loop round latch arrive record_vector store
    merged
fresh_run = refl

wait_property-IsFresh_example :
    IsFresh "OnStep" "OnStep Status"
      (pos 1)
      fresh_status
      (wait_property "OnStep" "OnStep Status" 500 (pos 1) stopping).1
    × ((wait_property "OnStep" "OnStep Status" 500 (pos 1) stopping).1.now ≤ 0 + 500)
wait_property-IsFresh_example =
    wait_property-IsFresh "OnStep" "OnStep Status" 500 (pos 1) stopping fresh_status fresh_run

abbrev stopped : IndiStopResult
stopped = record {
  abort_accepted = true;
  tracking_off_accepted = true;
  stopped_confirmed = true;
  consecutive_stopped_polls = 2;
  last_raw_status = some still;
  errors = [];
}

stopped_run : (stop_mount_via_indi "OnStep" 500 500 stopping).0 ≡ ok stopped
unfolding stop_mount_via_indi attempt issue_switch is_writable send poll_stopped is_stopped
    decoded_of decode_gu accepts flags_of result_of wait_property wait_loop round latch newer
    get_property lookup value_of arrive record_vector store merged update set_value
stopped_run = refl

stop_mount_via_indi-IsConfirmed_example : IsConfirmed stopped
stop_mount_via_indi-IsConfirmed_example =
    stop_mount_via_indi-IsConfirmed "OnStep" 500 500 stopping stopped refl stopped_run refl
