-- ===== src/Tests/Locks.antt =====
-- Trust, locks and the guard of tracking of the mount on the serial connection at concrete replies.
use on_step_adapter.Serial.Status.{decode_onstep_status, of_letters, read_flags, tokens_of}
use on_step_adapter.Serial.Protection.{counterweight_safety_state, counterweight_up}
use on_step_adapter.Mount.State.{
  get_state, get_state_by, inspect_status, mount_state_from_decoded, MountState,
}
use on_step_adapter.Mount.Preflight.{
  motion_safety_preflight, take_sample, blockers_of, conditions_of, get_position, judge_sample,
  read_hour_angle, read_onstep_axis_position, read_pier_side, weight_of,
}
use on_step_adapter.Mount.Readiness.{
  raise_if_not_astronomy_ready, location_readiness, read_onstep_site, require, time_readiness,
  judge_site, limit_readiness,
}
use on_step_adapter.Mount.Authority.{
  raise_if_locked, authority_reasons, live_reasons, mechanical_position_authority, lock_limit,
  invalidate_home_authority, invalidate_mechanical_trust, confirm_home_position,
  apply_clock_safety_lock, with_reason, is_fault, motion_authority,
}
use on_step_adapter.Mount.Target.{
  check_target_safe, preflight_if, check_here, check_limits, effective_max_altitude_at,
  effective_min_altitude, require_preflight, smart_max_altitude_at, validate_target,
}
use on_step_adapter.Base.{[], ◌∷◌, none, some, false, true, ◌≡◌, refl, List}
use on_step_adapter.Base.Int.{pos, ◌-ℤ◌, ◌+ℤ◌, mod_ℤ}
use on_step_adapter.Base.Text.{codes}
use on_step_adapter.Bus.{send, raw_send, exchange}
use on_step_adapter.Mount.Trust.{
  clock_violation, Act, reading, invalidating, confirming_home, checking_clocks, act, acts,
  is_settled, acts-is_settled, inspect_status_revokes, allows_any, clock_lock_replaces_limit,
}
use on_step_adapter.Mount.Unpark.{unpark_closed}
use on_step_adapter.Mount.Runtime.{
  TrackingSafety, TrackingAction, HaLimitState, current_tracking_safety, tracking_safety_after,
  tracking_verdict, judge_tracking, validation_of, ha_limit_of,
}
use on_step_adapter.Mount.Verdict.{IsVerdict, current_tracking_safety_stop}
use on_step_adapter.Serial.Limits.{
  Limits, ProtectionStatus, Branch, operational_protection, active_limit, in_interval, judged,
}
use on_step_adapter.Mount.{Mount, returned, send_text, SafetySeverity}
use on_step_adapter.Mount.Routes.{judge_slew, prepare_goto, set_target}
use on_step_adapter.Mount.Parking.{unpark}
use on_step_adapter.Tests.Mounts.{
  closed_mount, plain_sky, rig, right_clocks, reply, mount_with, ready_mount,
}

-- A limit, a new confirmation of HOME, and a status without a limit.
abbrev doubts : List Act
doubts =
    reading (codes "nNpl")
    ∷ invalidating "manual_reposition_reported"
    ∷ confirming_home
    ∷ checking_clocks
    ∷ reading (codes "nNp")
    ∷ []

-- The same mount before HOME was ever confirmed.
abbrev new_mount : Mount
new_mount = record ready_mount { home_confirmed = false }

acts-is_settled_example : is_settled (acts rig doubts new_mount) ≡ true
unfolding acts act inspect_status decode_onstep_status read_flags tokens_of of_letters lock_limit
    invalidate_home_authority invalidate_mechanical_trust confirm_home_position
    apply_clock_safety_lock with_reason
acts-is_settled_example = acts-is_settled rig doubts new_mount refl refl

inspect_status_revokes_example :
    ((inspect_status (codes "nNpl") ready_mount).home_confirmed ≡ false)
    × ((inspect_status (codes "nNpl") ready_mount).park_pose_confirmed ≡ false)
    × (is_fault (mechanical_position_authority (inspect_status (codes "nNpl") ready_mount)).state
        ≡ true)
    × (allows_any (motion_authority true true true rig (inspect_status (codes "nNpl") ready_mount))
        ≡ false)
    × ((motion_authority true true true rig
          (inspect_status (codes "nNpl") ready_mount)).emergency_stop
        ≡ true)
unfolding decode_onstep_status read_flags
inspect_status_revokes_example =
    inspect_status_revokes rig true true true (codes "nNpl") ready_mount refl

-- A mount that a limit locked while the controller's clock warns.
abbrev limited_mount : Mount
limited_mount = record ready_mount {
  clocks = record right_clocks { onstep_warning = true };
  safety_lock =
      some (record {
        reason = "outside_limits";
        command = "goto";
        severity = SafetySeverity.limit_hit;
      });
}

clock_lock_replaces_limit_example :
    ((apply_clock_safety_lock rig limited_mount).safety_lock ≡ some clock_violation)
    × ((apply_clock_safety_lock rig (record (apply_clock_safety_lock rig limited_mount) {
      clocks = right_clocks;
    })).safety_lock
        ≡ none)
clock_lock_replaces_limit_example =
    clock_lock_replaces_limit rig limited_mount right_clocks refl refl refl

unpark_closed_example :
    ((unpark closed_mount).0 ≡ returned true)
    × ((unpark closed_mount).1.bus.sent ≡ closed_mount.bus.sent)
    × ((get_state (unpark closed_mount).1).0 ≡ returned MountState.unknown)
unpark_closed_example = unpark_closed closed_mount refl refl

-- A tracking that was asked for, five degrees above the meridian.
abbrev tracking_mount : Mount
tracking_mount =
    record (mount_with (
      reply "Np#"
      ∷ reply "W#"
      ∷ reply "0#"
      ∷ reply "0#"
      ∷ reply "04:00:00#"
      ∷ reply "+20*00:00#"
      ∷ reply "04:00:00#"
      ∷ reply "50*00#"
      ∷ reply "-8*00#"
      ∷ [])) { tracking_explicitly_requested = true }

abbrev no_limits : Limits
no_limits = record {
  meridian_east = none;
  meridian_west = none;
  axis1_max = none;
  dual_pier_enabled = false;
}

abbrev going_on : TrackingSafety
going_on = record {
  state = MountState.tracking;
  tracking = true;
  mechanical_safe = true;
  astronomical_target_safe = true;
  tracking_safe_now = true;
  tracking_stop_required = false;
  meridian_flip_recommended = false;
  tracking_action = TrackingAction.continue_tracking;
  ha_limit_state = HaLimitState.post_meridian_allowed;
  operational = record {
    applicable = true;
    status = ProtectionStatus.unprotected;
    active_branch = some Branch.preflip_pier_west_west_meridian;
    active_threshold = none;
    protected_to_requested_boundary = some false;
  };
  blockers = [];
}

tracking_run : current_tracking_safety plain_sky rig no_limits (pos 0) tracking_mount ≡ (
  returned going_on,
  (current_tracking_safety plain_sky rig no_limits (pos 0) tracking_mount).1,
)
unfolding current_tracking_safety tracking_safety_after tracking_verdict judge_tracking
    validation_of validate_target operational_protection active_limit in_interval judged ha_limit_of
    check_target_safe raise_if_locked raise_if_not_astronomy_ready location_readiness
    read_onstep_site send_text send raw_send exchange require time_readiness judge_site
    limit_readiness ◌-ℤ◌ preflight_if motion_safety_preflight take_sample mod_ℤ ◌+ℤ◌
    authority_reasons live_reasons mechanical_position_authority blockers_of conditions_of
    get_position judge_sample read_hour_angle read_onstep_axis_position read_pier_side weight_of
    judge_slew prepare_goto set_target get_state get_state_by inspect_status
    mount_state_from_decoded check_here check_limits effective_max_altitude_at
    effective_min_altitude require_preflight smart_max_altitude_at counterweight_safety_state
    counterweight_up decode_onstep_status of_letters read_flags tokens_of
tracking_run = refl

current_tracking_safety_stop_example :
    IsVerdict plain_sky rig no_limits
      (pos 0)
      tracking_mount
      (current_tracking_safety plain_sky rig no_limits (pos 0) tracking_mount).1
      going_on
current_tracking_safety_stop_example =
    current_tracking_safety_stop plain_sky rig no_limits (pos 0) tracking_mount tracking_run refl
