-- ===== src/Tests/Devices.antt =====
-- The supervisor, the route from PARK, the focuser and the virtual mount at concrete inputs.
use on_step_adapter.Base.{
  ℕ, ◌≡◌, refl, true, false, Option, none, some, List, [], ◌∷◌, arith, String,
}
use on_step_adapter.Base.Int.{ℤ, pos}
use on_step_adapter.Base.Text.{Text, codes}
use on_step_adapter.Outcome.{ok}
use on_step_adapter.Gu.{east}
use on_step_adapter.Snapshot.{IndiMountSnapshot}
use on_step_adapter.Meridian.{classify_meridian, IndiMeridianState}
use on_step_adapter.Transport.{
  World, Io, IndiProperty, Event, vector, ok_state, number_kind, writable, is_open, get_property,
  lookup, value_of, wait_property, wait_loop, round, latch, newer, arrive, record_vector, store,
  merged, update, set_value,
}
use on_step_adapter.Requests.{issue_number, issue_switch, is_writable, send}
use on_step_adapter.Stop.{IndiStopResult}
use on_step_adapter.Supervisor.{Supervisor, tick, notify}
use on_step_adapter.Supervisor.Pace.{IsPaced, tick_prompt}
use on_step_adapter.Status.{reports_error}
use on_step_adapter.Gu.{decode_gu, accepts, flags_of}
use on_step_adapter.Home.{
  IndiHomeRouteResult, home_confirmed, park_to_home, unpark, unpark_from, command_and_wait, ready,
  move_to_home, move_to_position, wait_status, read_update,
}
use on_step_adapter.Focuser.{
  IndiFocuserMoveResult, get_status, move_absolute, blockers_of, integer_of, outside, move_to,
  move_loop, judge_position,
}
use on_step_adapter.Focuser.Travel.{InTravel, move_absolute_reached}
use on_step_adapter.Mock.{VirtualMount, Pose, idle, radec}
use on_step_adapter.Mock.Commands.{
  IsSound, run, run-IsSound, Command, unpark_command, goto_command, fault_command,
}
use on_step_adapter.Tests.{
  late, early, boundaries, world_with, switch_property, status_property, status_update, still,
  still_home,
}

abbrev stop_report : IndiStopResult
stop_report = record {
  abort_accepted = true;
  tracking_off_accepted = true;
  stopped_confirmed = true;
  consecutive_stopped_polls = 2;
  last_raw_status = some still;
  errors = [];
}

abbrev supervisor : Supervisor
supervisor = record {
  last_phase = none;
  last_stop_at = 0;
  latest = none;
  last_stop_result = none;
  last_error = none;
}

abbrev seeing_late : Io IndiMountSnapshot
seeing_late w = (ok late, w)

abbrev silent : IndiMeridianState → Io (Unit {0})
silent m w = (ok tt, w)

abbrev stopping : Io IndiStopResult
stopping w = (ok stop_report, w)

abbrev five_seconds : World
five_seconds = record (world_with [] []) { now = 5000 }

tick_prompt_example :
    IsPaced seeing_late boundaries silent stopping supervisor five_seconds
      (tick seeing_late boundaries silent stopping supervisor five_seconds).1
      (tick seeing_late boundaries silent stopping supervisor five_seconds).2
unfolding notify classify_meridian
tick_prompt_example =
    tick_prompt seeing_late boundaries silent stopping supervisor five_seconds late refl refl refl

-- A parked mount that leaves PARK, stays still and then finds HOME.
abbrev routing : World
routing =
    world_with
      (switch_property "TELESCOPE_PARK" "UNPARK"
        ∷ switch_property "TELESCOPE_HOME" "GO"
        ∷ status_property (codes "nNPW060") (pos 1)
        ∷ [])
      ((100, status_update still)
        ∷ (200, status_update still_home)
        ∷ (300, status_update still_home)
        ∷ [])

abbrev reading_parked : Io IndiMountSnapshot
reading_parked w = (ok (record early { parked = true; tracking = false }), w)

abbrev at_home : IndiHomeRouteResult
at_home = record {
  authority_established = true;
  stage = home_confirmed;
  final_raw_status = some still_home;
  error = none;
  stop_result = none;
}

at_home_run : (park_to_home "OnStep" reading_parked 500 500 routing).0 ≡ ok at_home
unfolding reports_error park_to_home unpark unpark_from command_and_wait ready move_to_home
    move_to_position issue_switch is_writable send wait_status read_update decode_gu accepts
    flags_of wait_property wait_loop round latch newer get_property lookup value_of arrive
    record_vector store merged update set_value
at_home_run = refl

-- A focuser at 40 of 100 that moves to 60; texts are read by their first code point.
abbrev number_property : String → String → ℕ → IndiProperty
number_property name element value = record {
  device = "OnStep";
  name = name;
  kind = number_kind;
  state = ok_state;
  permission = writable;
  values = (element, value ∷ []) ∷ [];
  received_at = 0;
  revision = pos 1;
}

abbrev first_code : Text → Option ℤ
first_code [] = none
first_code (c ∷ t) = some (pos c)

abbrev position_update : ℕ → Event
position_update value = vector (record {
  device = some "OnStep";
  name = some "ABS_FOCUS_POSITION";
  kind = number_kind;
  state = some ok_state;
  permission = none;
  values = ("FOCUS_ABSOLUTE_POSITION", value ∷ []) ∷ [];
})

abbrev focuser : World
focuser =
    world_with
      (record (switch_property "CONNECTION" "CONNECT") { values = ("CONNECT", codes "On") ∷ [] }
        ∷ number_property "ABS_FOCUS_POSITION" "FOCUS_ABSOLUTE_POSITION" 40
        ∷ number_property "FOCUS_MAX" "FOCUS_MAX_VALUE" 100
        ∷ [])
      ((100, position_update 60) ∷ (200, position_update 60) ∷ [])

abbrev reached : IndiFocuserMoveResult
reached = record {
  target = pos 60;
  reached = true;
  final_position = some (pos 60);
  stop_confirmed = none;
  error = none;
}

reached_run :
    (move_absolute first_code "OnStep" (some (pos 80)) (pos 60) 500 focuser).0 ≡ ok reached
unfolding move_absolute get_status blockers_of is_open get_property lookup value_of integer_of
    outside move_to issue_number is_writable send wait_property wait_loop round latch newer arrive
    record_vector store merged update set_value move_loop judge_position
reached_run = refl

move_absolute_reached_example :
    (reached.final_position ≡ some (pos 60))
    × (reached.error ≡ none)
    × InTravel
        (pos 60)
        (get_status first_code "OnStep" (some (pos 80)) focuser).driver_maximum
        (some (pos 80))
move_absolute_reached_example =
    move_absolute_reached first_code "OnStep" (some (pos 80)) (pos 60) 500 focuser reached
      reached_run refl

abbrev pose : Pose
pose = record { ha_h = pos 0; dec_deg = pos 52000000; pier_side = east }

abbrev parked_mount : VirtualMount
parked_mount = record {
  config = record {
    home_pose = pose;
    park_pose = pose;
    abort_settle = 1450;
    arrival_tolerance = 100;
    auto_track_on_unpark = true;
    auto_track_on_goto_arrival = true;
  };
  ha_h = pos 0;
  dec_deg = pos 52000000;
  pier_side = east;
  parked = true;
  at_home = false;
  tracking = false;
  tracking_since = none;
  last_tracking_on = 0;
  motion = idle;
  target_kind = none;
  target_ra_h = 0;
  target_dec_deg = pos 0;
  stop_at = 0;
  manual_ns = pos 0;
  manual_we = pos 0;
  guiding_until = 0;
  guide_ha = pos 0;
  guide_dec = pos 0;
  fault = none;
  events = [];
}

parked_mount-IsSound : IsSound parked_mount
parked_mount-IsSound = ground arith

abbrev commands : List (ℕ × Command)
commands =
    (10, unpark_command)
    ∷ (20, goto_command radec (pos 0) (pos 10000000))
    ∷ (30, fault_command (some "LIMIT"))
    ∷ []

run-IsSound_example : IsSound (run commands parked_mount)
run-IsSound_example = run-IsSound commands parked_mount parked_mount-IsSound
