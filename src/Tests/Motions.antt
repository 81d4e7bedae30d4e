-- ===== src/Tests/Motions.antt =====
-- Axis moves and guide pulses at concrete schedules.
use on_step_adapter.Base.{
  arith, ◌≡◌, refl, Bool, true, false, none, some, [], ◌∷◌, ltb, leb, length, if◌then◌else◌,
}
use on_step_adapter.Base.Int.{ℤ, pos, negsuc, ◌+ℤ◌}
use on_step_adapter.Base.Text.{codes, str_eq}
use on_step_adapter.Outcome.{ok, raised, runtime_error}
use on_step_adapter.Gu.{east}
use on_step_adapter.Snapshot.{IndiMountSnapshot}
use on_step_adapter.Meridian.{classify_meridian}
use on_step_adapter.Transport.{
  pass, pass_until, number_kind, Request, new_switch, World, Io, wait_property, wait_loop, round,
  latch, newer, get_property, lookup, value_of, arrive, record_vector, store, merged, update,
  set_value,
}
use on_step_adapter.Requests.{set_switch, confirm, switched, issue_number, is_writable, send}
use on_step_adapter.Requests.Values.{issue_numbers}
use on_step_adapter.Watch.{Watch, sleep}
use on_step_adapter.Tracking.{controller_managed}
use on_step_adapter.Guiding.{preflight, chunks_of, split, guide_property}
use on_step_adapter.Guiding.{north}
use on_step_adapter.Guiding.Pulse.{
  IndiGuidePulseResult, pulse_towards, pulse_done, look, wait_idle, finish_chunk, one_chunk,
  all_chunks, conclude, pulse_result,
}
use on_step_adapter.Guiding.Completion.{pulse_towards_complete}
use on_step_adapter.Axis.{dec, IndiAxisMoveResult, check, MoveRequest, pause, judge_view, Start}
use on_step_adapter.Axis.Move.{
  drive_rounds, Bounds, drive_loop, settle_loop, drive, start_of, check_target, prepare,
  stop_on_failure, move_request,
}
use on_step_adapter.Axis.Move.{conclude as conclude_move}
use on_step_adapter.Axis.Fuel.{is_out, move_loops_end}
use on_step_adapter.Axis.Safety.{failed_move_request_stops}
use on_step_adapter.Tests.{
  early, boundaries, switch_property, switch_update, writable_property, value_update, world_with,
}

-- A mount that moves 20,000 µdeg to the north within 150 ms.
abbrev moving_view : World → IndiMountSnapshot
moving_view w = record early {
  tracking = false;
  dec_deg = some (if ltb w.now 150 then pos 0 else pos 20000);
  status_revision = pos w.now;
  coordinates_revision = pos w.now;
}

-- One that reports a limit from 150 ms on.
abbrev blocked_view : World → IndiMountSnapshot
blocked_view w = record (moving_view w) { at_limit = leb 150 w.now }

abbrev viewing : (World → IndiMountSnapshot) → Io IndiMountSnapshot
viewing view w = (ok (view w), w)

abbrev jogging : World
jogging =
    world_with
      (switch_property "ON_COORD_SET" "SLEW"
        ∷ switch_property "TELESCOPE_TRACK_STATE" "TRACK_OFF"
        ∷ writable_property number_kind "EQUATORIAL_EOD_COORD"
            (("RA", codes "0") ∷ ("DEC", codes "0") ∷ [])
        ∷ [])
      ((40, switch_update "ON_COORD_SET" "SLEW") ∷ [])

abbrev level : ℤ → ℤ → ℤ
level ha d = pos 45000000

abbrev bounds : Bounds
bounds = record { min_alt = pos 10000000; min_dec = negsuc 29999999; max_dec = pos 80000000 }

-- An emergency stop that is one request.
abbrev abort_request : Request
abort_request = new_switch "OnStep" "TELESCOPE_ABORT_MOTION" "ABORT"

abbrev aborting : Io (Unit {0})
aborting w = (ok tt, record w { sent = abort_request ∷ w.sent })

abbrev aborted : World → Bool
aborted w = elim w.sent [
  | [] ↦ false
  | new_switch d name e ∷ l ↦ str_eq name "TELESCOPE_ABORT_MOTION"
  | _ ∷ l ↦ false
]

abbrev jogged : IndiAxisMoveResult
jogged = record {
  axis = dec;
  requested_deg = pos 20000;
  measured_deg = pos 20000;
  initial_ra = pos 0;
  final_ra = pos 0;
  initial_dec_deg = pos 0;
  final_dec_deg = pos 20000;
  pier_side = east;
  stop_confirmed = true;
  samples = 1;
}

abbrev request : MoveRequest
request = record { axis = dec; offset = pos 20000; timeout = 1000; poll = 250 }

abbrev begun : Start
begun = record { view = blocked_view jogging; ra_hours = pos 0; dec_deg = pos 0; side = east }

begun_run : (prepare level bounds (viewing blocked_view) true request "OnStep" jogging).0 ≡ ok begun
unfolding prepare start_of check_target check set_switch confirm switched wait_property wait_loop
    round latch newer get_property lookup is_writable value_of send arrive record_vector store
    merged update set_value ◌+ℤ◌
begun_run = refl

blocked_run :
    (move_request level bounds (viewing blocked_view) aborting "OnStep" true request jogging).0
    ≡ raised (runtime_error "Local axis motion requires fresh unparked, stationary state")
unfolding move_request prepare start_of check_target check set_switch confirm switched
    stop_on_failure drive issue_numbers drive_loop pause judge_view wait_property wait_loop round
    latch newer get_property lookup is_writable value_of send arrive record_vector store merged
    update set_value ◌+ℤ◌
blocked_run = refl

failed_move_request_stops_example :
    aborted
      (move_request level bounds (viewing blocked_view) aborting "OnStep" true request jogging).1
    ≡ true
failed_move_request_stops_example =
    failed_move_request_stops aborted aborting (λ w. refl) level bounds (viewing blocked_view)
      "OnStep" true request jogging begun
      (runtime_error "Local axis motion requires fresh unparked, stationary state") begun_run
      blocked_run refl

move_loops_end_example :
    (is_out
        (drive_loop
          (viewing moving_view)
          true
          request
          begun
          1000
          (drive_rounds (viewing moving_view) true request begun)
          (pos 0)
          false
          0
          jogging).0
      ≡ false)
    × (is_out
          (settle_loop
            (viewing moving_view)
            true
            request
            begun
            5000
            36
            (pos 0)
            0
            begun.view
            jogging).0
        ≡ false)
move_loops_end_example =
    move_loops_end (viewing moving_view) true request begun (λ w. refl) (λ w. omega arith) (pos 0)
      begun.view jogging (omega arith)

-- A pulse to the north in two chunks.
abbrev guided : Watch
guided = record {
  observe = λ w. (ok (record early { status_revision = pos w.now }), w);
  meridian_status = λ w. (ok (classify_meridian early boundaries), w);
  emergency_stop = λ w. (ok tt, w);
}

abbrev guiding : World
guiding =
    world_with
      (writable_property number_kind "TELESCOPE_TIMED_GUIDE_NS"
          (("TIMED_GUIDE_N", codes "0") ∷ ("TIMED_GUIDE_S", codes "0") ∷ [])
        ∷ [])
      ((10, value_update number_kind "TELESCOPE_TIMED_GUIDE_NS" [])
        ∷ (250, value_update number_kind "TELESCOPE_TIMED_GUIDE_NS" [])
        ∷ [])

abbrev pulsed : IndiGuidePulseResult
pulsed = record {
  direction = north;
  requested_duration_ms = 300;
  chunks_requested = 2;
  chunks_completed = 2;
  command_accepted = true;
  pulse_completed = true;
  tracking_preserved = true;
  final_raw_status = early.raw_status;
  meridian_phase = (classify_meridian early boundaries).phase;
  error = none;
}

pulsed_run :
    (pulse_towards guided "OnStep" controller_managed 100 false 200 north 300 guiding).0 ≡ ok pulsed
unfolding pulse_towards chunks_of split all_chunks one_chunk finish_chunk wait_idle look preflight
    classify_meridian guide_property issue_number confirm pulse_done conclude pulse_result sleep
    wait_property wait_loop round latch newer get_property lookup is_writable value_of send arrive
    record_vector store merged update set_value pass pass_until
pulsed_run = refl

pulse_towards_complete_example :
    (pulsed.chunks_completed ≡ length (chunks_of 200 300)) × (pulsed.error ≡ none)
pulse_towards_complete_example =
    pulse_towards_complete guided "OnStep" controller_managed 100 false 200 north 300 guiding pulsed
      pulsed_run refl
