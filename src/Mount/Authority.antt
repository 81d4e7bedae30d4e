-- ===== src/Mount/Authority.antt =====
-- onstep_adapter/mount.py: the trust in the mechanical position, the lock, and the authority that
-- they give.
use on_step_adapter.Base.{
  Bool, true, false, ◌&&◌, ◌||◌, not, Option, none, some, List, [], ◌∷◌, ◌++◌, String, ◌==◌, any,
  is_some, if◌then◌else◌, keep_if, is_none,
}
use on_step_adapter.Base.Int.{pos}
use on_step_adapter.Base.Text.{Text, str_eq, codes}
use on_step_adapter.Serial.Status.{is_nonempty}
use on_step_adapter.Bus.{close}
use on_step_adapter.Mount.{
  Mount, OnStepSafetyConfig, SafetyViolation, SafetySeverity, limit_error, M, is_clock_reason,
  decoded, returned, threw,
}

-- `text.startswith(prefix)`
abbrev pub starts_with : Text → Text → Bool
starts_with [] t = true
starts_with (c ∷ p) [] = false
starts_with (c ∷ p) (d ∷ t) = c == d && starts_with p t

abbrev pub is_fault_text : String → Bool
is_fault_text r = str_eq r "onstep_park_failed" || str_eq r "onstep_at_limit"

unfoldable pub with_reason : String → List String → List String
with_reason r l = if any (str_eq r) l then l else l ++ r ∷ []

-- `_invalidate_mechanical_trust`
unfoldable pub invalidate_mechanical_trust : String → Mount → Mount
invalidate_mechanical_trust r m = record m {
  trust_invalidations = with_reason r m.trust_invalidations;
  home_confirmed = false;
  park_pose_confirmed = false;
}

-- The reasons of the position's authority: one from the list, or one that is found now.
pub data AuthorityReason : Type 0 where
  invalidation safety_locked : String → AuthorityReason
  onstep_park_failed onstep_at_limit home_reference_not_confirmed : AuthorityReason
  park_pose_not_confirmed : AuthorityReason

pub data AuthorityState : Type 0 where
  fault trusted park_confirmed unknown : AuthorityState

pub record PositionAuthority : Type 0 where
  pub state : AuthorityState
  pub reasons : List AuthorityReason

abbrev pub invalidations : List String → List AuthorityReason
invalidations [] = []
invalidations (r ∷ l) = invalidation r ∷ invalidations l

abbrev lock_reason : Option SafetyViolation → List AuthorityReason
lock_reason none = []
lock_reason (some v) = if is_clock_reason v.reason then [] else safety_locked v.reason ∷ []

abbrev pub flag : Bool → AuthorityReason → List AuthorityReason
flag true r = r ∷ []
flag false r = []

abbrev pub is_fault_reason : AuthorityReason → Bool
is_fault_reason (invalidation r) = is_fault_text r || starts_with (codes "safety_locked:") (codes r)
is_fault_reason (safety_locked r) = true
is_fault_reason onstep_park_failed = true
is_fault_reason onstep_at_limit = true
is_fault_reason _ = false

abbrev pub is_empty : List AuthorityReason → Bool
is_empty [] = true
is_empty (r ∷ l) = false

-- The reasons that are found now, after those of the list.
unfoldable pub live_reasons : Mount → List AuthorityReason
live_reasons m =
    lock_reason m.safety_lock
    ++ (flag (decoded (λ s. s.park_failed) m) onstep_park_failed
        ++ (flag (decoded (λ s. s.at_limit) m) onstep_at_limit
            ++ (flag (not m.home_confirmed) home_reference_not_confirmed
                ++ flag (decoded (λ s. s.parked) m && not m.park_pose_confirmed)
                    park_pose_not_confirmed)))

unfoldable pub authority_reasons : Mount → List AuthorityReason
authority_reasons m = invalidations m.trust_invalidations ++ live_reasons m

-- `_mechanical_position_authority`
unfoldable pub mechanical_position_authority : Mount → PositionAuthority
mechanical_position_authority m =
    let reasons = authority_reasons m in
    record {
      state =
          if any is_fault_reason reasons
          then fault
          else if is_empty reasons
          then trusted
          else if m.park_pose_confirmed && not m.home_confirmed
          then park_confirmed
          else unknown;
      reasons = reasons;
    }

-- `_mechanical_limits_readiness`, its `ready`
unfoldable pub mechanical_limits_ready : OnStepSafetyConfig → Bool
mechanical_limits_ready c =
    is_some c.mechanical_axis1_min_deg
    && is_some c.mechanical_axis1_max_deg
    && is_some c.mechanical_axis2_min_deg
    && is_some c.mechanical_axis2_max_deg

abbrev pub is_fault : AuthorityState → Bool
is_fault fault = true
is_fault _ = false

pub data MechanicalReason : Type 0 where
  onstep_status_unavailable mechanical_position_fault home_or_park_not_confirmed : MechanicalReason
  mechanical_axis_limits_missing : MechanicalReason

abbrev pub unless : Bool → MechanicalReason → List MechanicalReason
unless true r = []
unless false r = r ∷ []

abbrev status_usable : Mount → Bool
status_usable m = decoded (λ s. is_nonempty s.raw) m || is_nonempty m.last_status

-- `_mechanical_readiness`, its reasons
unfoldable pub mechanical_readiness : OnStepSafetyConfig → Mount → List MechanicalReason
mechanical_readiness c m =
    unless (status_usable m) onstep_status_unavailable
    ++ (unless (not (is_fault (mechanical_position_authority m).state)) mechanical_position_fault
        ++ (unless (m.home_confirmed || m.park_pose_confirmed) home_or_park_not_confirmed
            ++ unless (mechanical_limits_ready c) mechanical_axis_limits_missing))

abbrev is_ready : List MechanicalReason → Bool
is_ready [] = true
is_ready (r ∷ l) = false

abbrev pub is_hard_lock : Option SafetyViolation → Bool
is_hard_lock none = false
is_hard_lock (some v) = not (is_clock_reason v.reason)

pub record MotionAuthority : Type 0 where
  pub emergency_stop : Bool
  pub recovery_pulse : Bool
  pub terrestrial_low_rate_manual : Bool
  pub mechanical_manual : Bool
  pub tracking : Bool
  pub goto : Bool
  pub guide : Bool
  pub park : Bool
  pub unpark : Bool
  pub unpark_stop_tracking : Bool

-- `_motion_authority`, of the readiness of time, location and limits
unfoldable pub motion_authority : Bool → Bool → Bool → OnStepSafetyConfig → Mount → MotionAuthority
motion_authority time location limits c m =
    let blocked = is_hard_lock m.safety_lock in
    let anchor = (m.home_confirmed || m.park_pose_confirmed) && not blocked in
    let mechanical = is_ready (mechanical_readiness c m) && not blocked in
    let astronomy = mechanical && is_none m.safety_lock && time && location && limits in
    record {
      emergency_stop = true;
      recovery_pulse = anchor;
      terrestrial_low_rate_manual = mechanical;
      mechanical_manual = mechanical;
      tracking = astronomy;
      goto = astronomy;
      guide = astronomy;
      park = anchor;
      unpark = anchor;
      unpark_stop_tracking = anchor;
    }

abbrev unlocked_by : String → Option SafetyViolation → Option SafetyViolation
unlocked_by r none = none
unlocked_by r (some v) = if str_eq v.reason r then none else some v

unfoldable pub confirm_home_position : Mount → Mount
confirm_home_position m = record m {
  home_confirmed = true;
  mechanical_axis_position = some (pos 0, pos 0);
  trust_invalidations = keep_if is_fault_text m.trust_invalidations;
  safety_lock = unlocked_by "home_not_confirmed" m.safety_lock;
}

-- `invalidate_home_authority`
unfoldable pub invalidate_home_authority : String → Mount → Mount
invalidate_home_authority r m = invalidate_mechanical_trust r m

unfoldable pub clear_mechanical_confirmations : OnStepSafetyConfig → String → Mount → Mount
clear_mechanical_confirmations c r m =
    invalidate_mechanical_trust r (record m { home_confirmed = not c.require_home_confirmation })

unfoldable pub note_external_motion : String → Mount → Mount
note_external_motion r m =
    invalidate_mechanical_trust r
      (record m { at_mechanical_home = false; mechanical_axis_position = none })

unfoldable pub clear_safety_lock : Mount → Mount
clear_safety_lock m = record m { safety_lock = none }

unfoldable pub disconnect : Mount → Mount
disconnect m =
    let m' = invalidate_mechanical_trust "controller_disconnected" m in
    record m' { bus = close m'.bus }

-- `_lock_limit`
unfoldable pub lock_limit : String → String → Mount → Mount
lock_limit r command m = record m {
  safety_lock =
      some (record { reason = r; command = command; severity = SafetySeverity.limit_hit });
}

-- `_apply_clock_safety_lock`
unfoldable pub apply_clock_safety_lock : OnStepSafetyConfig → Mount → Mount
apply_clock_safety_lock c m =
    if not c.using_runtime_time && not m.clocks.system_valid
    then record m {
      safety_lock = some (record {
        reason = "system_clock_invalid";
        command = "clock_check";
        severity = SafetySeverity.unknown;
      });
    }
    else if m.clocks.onstep_warning
    then record m {
      safety_lock = some (record {
        reason = "onstep_clock_invalid";
        command = "clock_check";
        severity = SafetySeverity.unknown;
      });
    }
    else record m { safety_lock = if is_hard_lock m.safety_lock then m.safety_lock else none }

-- `_raise_if_locked`
unfoldable pub raise_if_locked : String → Bool → M (Unit {0})
raise_if_locked command allow_clock_lock m = elim m.safety_lock [
  | none ↦ (returned tt, m)
  | some v ↦
      if allow_clock_lock && is_clock_reason v.reason
      then (returned tt, m)
      else (threw (limit_error (record v { command = command })), m)
]
