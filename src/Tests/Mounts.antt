-- ===== src/Tests/Mounts.antt =====
-- The mount on the serial connection at concrete replies of the controller.
use on_step_adapter.Serial.Status.{decode_onstep_status, of_letters, read_flags, tokens_of}
use on_step_adapter.Serial.Protection.{counterweight_safety_state, counterweight_up}
use on_step_adapter.Mount.State.{
  get_state, get_state_by, inspect_status, mount_state_from_decoded, MountState, DisableResult,
  disable_tracking_verified, disable_verified_by, attempts_loop, attempt_once, poll_loop,
}
use on_step_adapter.Mount.Preflight.{
  motion_safety_preflight, take_sample, blockers_of, conditions_of, get_position, judge_sample,
  read_hour_angle, read_onstep_axis_position, read_pier_side, weight_of,
}
use on_step_adapter.Mount.Readiness.{
  raise_if_not_astronomy_ready, location_readiness, read_onstep_site, require, time_readiness,
  judge_site, limit_readiness,
}
use on_step_adapter.Mount.Authority.{
  raise_if_locked, authority_reasons, live_reasons, mechanical_position_authority,
}
use on_step_adapter.Mount.Target.{
  check_target_safe, preflight_if, check_here, check_limits, effective_max_altitude_at,
  effective_min_altitude, require_preflight, smart_max_altitude_at,
}
use on_step_adapter.Base.{arith, [], ◌∷◌, none, some, false, true, ◌≡◌, refl, List, String}
use on_step_adapter.Base.Int.{pos, negsuc, ◌-ℤ◌, ◌+ℤ◌, mod_ℤ}
use on_step_adapter.Base.Text.{codes}
use on_step_adapter.Bus.{
  Answer, replies, send, raw_send, exchange, write_bypass, bypass, send_fixed,
}
use on_step_adapter.Mount.Stopped.{IsBlind, closed_disable_confirms}
use on_step_adapter.Mount.Clock.{is_starved}
use on_step_adapter.Mount.Ends.{status_calls_end}
use on_step_adapter.Mount.{
  Mount, OnStepSafetyConfig, Sky, ClockChecks, returned, send_text, fixed_reply, bypass_lock,
}
use on_step_adapter.Mount.Routes.{goto, judge_slew, prepare_goto, set_target}
use on_step_adapter.Mount.Slew.{ra_command, dec_command, goto-IsCleared}
use on_step_adapter.Mount.Gate.{IsCleared}

abbrev pub plain_sky : Sky
plain_sky = record {
  hour_angle = λ t ra dec. pos 15000000;
  altitude = λ t ra dec. pos 45000000;
  azimuth = λ t ra dec. pos 180000000;
  horizon = none;
  distance_m = λ a b c d. 0;
  parse_ra = λ t. some (pos 60000000);
  parse_dec = λ t. some (pos 20000000);
  parse_degrees = λ t. some (pos 50000000);
  number = λ t. none;
  format_ra = λ x. codes "04:00:00";
  format_dec = λ x. codes "+20*00:00";
}

abbrev pub rig : OnStepSafetyConfig
rig = record {
  observer_lat = pos 50000000;
  observer_lon = pos 8000000;
  min_alt_deg = pos 20000000;
  max_alt_deg = pos 85000000;
  ha_east_limit = negsuc 89999999;
  ha_west_limit = pos 30000000;
  dec_min_deg = negsuc 29999999;
  dec_max_deg = pos 90000000;
  meridian_margin_deg = pos 3000000;
  has_horizon_path = false;
  require_home_confirmation = true;
  require_onstep_limits = false;
  allow_broad_onstep_limits = false;
  trusted_time_source = true;
  using_runtime_time = false;
  location_warning_threshold_m = 100;
  mechanical_axis1_min_deg = none;
  mechanical_axis1_max_deg = none;
  mechanical_axis2_min_deg = none;
  mechanical_axis2_max_deg = none;
  home_park_settle_ms = 15000;
  safe_overhead_corridors = [];
}

abbrev pub right_clocks : ClockChecks
right_clocks = record {
  system_valid = true;
  onstep_warning = false;
  onstep_available = true;
  fresh_boot = false;
  sidereal_ok = true;
  sidereal_reason = none;
}

abbrev pub reply : String → Answer
reply t = record { took = 20; locked = false; result = replies (codes t) }

-- A mount at HOME that is confirmed, and what the controller will answer.
abbrev pub mount_with : List Answer → Mount
mount_with l = record {
  bus = record { is_open = true; now = 0; answers = l; sent = [] };
  horizon_deg = some (pos 10000000);
  overhead_deg = some (pos 80000000);
  clocks = right_clocks;
  safety_lock = none;
  home_confirmed = true;
  park_pose_confirmed = false;
  trust_invalidations = [];
  last_status = [];
  last_decoded_status = none;
  at_mechanical_home = false;
  mechanical_axis_position = none;
  initial_pier_side = none;
  postflip_pier_side = none;
  flip_completed = false;
  tracking_explicitly_requested = false;
  suppress_unrequested_tracking_guard = false;
}

-- The site, the status, the side, both axes, the position, the sidereal time, and the goto.
abbrev pub ready_mount : Mount
ready_mount = mount_with (
    reply "50*00#"
    ∷ reply "-8*00#"
    ∷ reply "nNp#"
    ∷ reply "W#"
    ∷ reply "0#"
    ∷ reply "0#"
    ∷ reply "04:00:00#"
    ∷ reply "+20*00:00#"
    ∷ reply "04:00:00#"
    ∷ reply "1#"
    ∷ reply "1#"
    ∷ reply "0#"
    ∷ [])

goto_run :
    goto plain_sky rig (pos 60000000) (pos 20000000) false ready_mount
    ≡ (returned true, (goto plain_sky rig (pos 60000000) (pos 20000000) false ready_mount).1)
unfolding goto check_target_safe raise_if_locked raise_if_not_astronomy_ready location_readiness
    read_onstep_site send_text send raw_send exchange require time_readiness judge_site
    limit_readiness ◌-ℤ◌ preflight_if motion_safety_preflight take_sample mod_ℤ ◌+ℤ◌
    authority_reasons live_reasons mechanical_position_authority blockers_of conditions_of
    get_position judge_sample read_hour_angle read_onstep_axis_position read_pier_side weight_of
    judge_slew prepare_goto set_target get_state get_state_by inspect_status
    mount_state_from_decoded check_here check_limits effective_max_altitude_at
    effective_min_altitude require_preflight smart_max_altitude_at counterweight_safety_state
    counterweight_up decode_onstep_status of_letters read_flags tokens_of
goto_run = refl

goto-IsCleared_example :
    (at : Mount) × IsCleared plain_sky rig "goto"
      (pos 60000000)
      (pos 20000000)
      (pos 0)
      ready_mount
      at
    × ((goto plain_sky rig (pos 60000000) (pos 20000000) false ready_mount).1.bus.sent
        ≡ codes ":MS#"
          ∷ dec_command plain_sky (pos 20000000)
          ∷ ra_command plain_sky (pos 60000000)
          ∷ at.bus.sent)
goto-IsCleared_example =
    goto-IsCleared plain_sky rig (pos 60000000) (pos 20000000) false true ready_mount goto_run

-- The end of a tracking: the stop, the command, and a status without tracking.
abbrev stopping_mount : Mount
stopping_mount = record (mount_with (reply "" ∷ reply "0" ∷ reply "nNp#" ∷ [])) {
  tracking_explicitly_requested = true;
}

abbrev ended : DisableResult
ended = record {
  confirmed = true;
  replies = codes "0" ∷ [];
  polls = record { attempt = 1; saw_tracking = false } ∷ [];
  final_state = MountState.unparked;
  status_overrode_ack = true;
}

stopping_run :
    disable_tracking_verified 8000 500 2 true stopping_mount
    ≡ (returned ended, (disable_tracking_verified 8000 500 2 true stopping_mount).1)
unfolding disable_tracking_verified disable_verified_by attempts_loop attempt_once poll_loop
    get_state get_state_by inspect_status mount_state_from_decoded send_text send raw_send exchange
    fixed_reply send_fixed bypass_lock write_bypass bypass decode_onstep_status read_flags tokens_of
    of_letters
stopping_run = refl

-- The same on a connection that is closed.
abbrev pub closed_mount : Mount
closed_mount = record (mount_with []) {
  bus = record { is_open = false; now = 0; answers = []; sent = [] };
}

closed_disable_confirms_example :
    IsBlind (disable_tracking_verified 8000 500 2 true closed_mount) closed_mount
closed_disable_confirms_example =
    closed_disable_confirms 8000 500 2 true closed_mount refl refl (omega arith)

status_calls_end_example :
    (is_starved (get_state stopping_mount).0 ≡ false)
    × (is_starved (disable_tracking_verified 8000 500 2 true stopping_mount).0 ≡ false)
status_calls_end_example = status_calls_end 8000 500 2 true stopping_mount
