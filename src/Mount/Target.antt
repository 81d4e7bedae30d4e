-- ===== src/Mount/Target.antt =====
-- onstep_adapter/mount.py: the limits of a target (with `OverheadCorridor.contains` of
-- onstep_adapter/safety.py), and `_check_target_safe`, which every motion on the sky asks first.
use on_step_adapter.Base.{
  Bool, true, false, Option, none, some, List, [], ◌∷◌, String, if◌then◌else◌,
}
use on_step_adapter.Base.Int.{ℤ, pos, ◌+ℤ◌, ◌-ℤ◌, mod_ℤ, abs, ltb_ℤ, leb_ℤ}
use on_step_adapter.Policy.{min_ℤ}
use on_step_adapter.Serial.Protection.{CounterweightState}
use on_step_adapter.Mount.{
  Mount, OnStepSafetyConfig, OverheadCorridor, Sky, SafetySeverity, SafetyViolation, safety_error,
  limit_error, returned, threw, M, ◌>>=◌, ◌>>◌, return, raise,
}
use on_step_adapter.Mount.Authority.{raise_if_locked}
use on_step_adapter.Mount.Readiness.{raise_if_not_astronomy_ready}
use on_step_adapter.Mount.Preflight.{Preflight, Blocker, motion_safety_preflight}

abbrev max_ℤ : ℤ → ℤ → ℤ
max_ℤ a b = if leb_ℤ a b then b else a

-- `OverheadCorridor.contains`
unfoldable pub contains : OverheadCorridor → ℤ → Bool
contains k az =
    let delta = pos (mod_ℤ ((az -ℤ k.az_center_deg) +ℤ pos 180000000) 360000000) -ℤ pos 180000000 in
    leb_ℤ (pos (abs delta)) k.az_half_width_deg

-- `_smart_max_altitude_at`: the first corridor that contains the azimuth, or the configuration.
unfoldable pub smart_max_altitude_at : ℤ → List OverheadCorridor → ℤ → ℤ
smart_max_altitude_at base [] az = base
smart_max_altitude_at base (k ∷ l) az =
    if contains k az then k.corridor_max_alt_deg else smart_max_altitude_at base l az

abbrev pub max_with : Option ℤ → ℤ → ℤ
max_with none x = x
max_with (some y) x = max_ℤ x y

abbrev pub min_with : Option ℤ → ℤ → ℤ
min_with none x = x
min_with (some y) x = min_ℤ x y

abbrev pub profile_at : Option (ℤ → ℤ) → ℤ → Option ℤ
profile_at none az = none
profile_at (some f) az = some (f az)

-- `_effective_min_altitude`
unfoldable pub effective_min_altitude : Sky → OnStepSafetyConfig → Mount → ℤ → ℤ
effective_min_altitude sky c m az =
    max_with (profile_at sky.horizon az) (max_with m.horizon_deg c.min_alt_deg)

-- `_effective_max_altitude_at`
unfoldable pub effective_max_altitude_at : OnStepSafetyConfig → Mount → ℤ → ℤ
effective_max_altitude_at c m az =
    min_with m.overhead_deg (smart_max_altitude_at c.max_alt_deg c.safe_overhead_corridors az)

-- `_effective_max_altitude`
unfoldable effective_max_altitude : OnStepSafetyConfig → Mount → ℤ
effective_max_altitude c m = min_with m.overhead_deg c.max_alt_deg

abbrev pub violation : String → String → SafetySeverity → SafetyViolation
violation reason command severity = record {
  reason = reason;
  command = command;
  severity = severity;
}

abbrev pub refuse : String → String → M (Unit {0})
refuse reason command = raise (safety_error (violation reason command SafetySeverity.blocked))

-- The six limits of a target at an hour angle, altitude and azimuth, in the order of the code.
unfoldable pub check_limits : Sky → OnStepSafetyConfig → String → ℤ → ℤ → ℤ → ℤ → ℤ → M (Unit {0})
check_limits sky c command margin dec ha alt az m =
    (if ltb_ℤ dec c.dec_min_deg
        then refuse "declination_min" command
        else if ltb_ℤ c.dec_max_deg dec
        then refuse "declination_max" command
        else if ltb_ℤ ha c.ha_east_limit
        then refuse "hour_angle_east" command
        else if leb_ℤ c.ha_west_limit ha
        then refuse "meridian_limit" command
        else if ltb_ℤ alt (effective_min_altitude sky c m az +ℤ margin)
        then refuse "below_horizon" command
        else if ltb_ℤ (effective_max_altitude_at c m az -ℤ margin) alt
        then refuse "overhead_limit" command
        else return tt)
      m

-- The spelling of a blocker in an error.
unfoldable pub reason_text : Blocker → String
reason_text Blocker.onstep_status_unavailable = "onstep_status_unavailable"
reason_text Blocker.logical_position_unavailable = "logical_position_unavailable"
reason_text Blocker.onstep_sidereal_time_unavailable = "onstep_sidereal_time_unavailable"
reason_text Blocker.mechanical_position_authority_untrusted =
    "mechanical_position_authority_untrusted"
reason_text Blocker.onstep_state_unknown = "onstep_state_unknown"
reason_text Blocker.onstep_park_failed = "onstep_park_failed"
reason_text Blocker.onstep_at_limit = "onstep_at_limit"
reason_text Blocker.pier_side_axis_inconsistent = "pier_side_axis_inconsistent"
reason_text Blocker.pier_side_unavailable = "pier_side_unavailable"
reason_text Blocker.hour_angle_unavailable = "hour_angle_unavailable"
reason_text Blocker.counterweight_hard_limit = "counterweight_hard_limit"
reason_text Blocker.mount_parked = "mount_parked"
reason_text Blocker.mount_already_slewing = "mount_already_slewing"
reason_text (Blocker.violation_reason r) = r
reason_text Blocker.tracking_not_astronomically_safe = "tracking_not_astronomically_safe"

abbrev first_blocker : List Blocker → String
first_blocker [] = "motion_preflight_failed"
first_blocker (b ∷ l) = reason_text b

abbrev severity_of : CounterweightState → SafetySeverity
severity_of CounterweightState.hard_limit_reached = SafetySeverity.limit_hit
severity_of _ = SafetySeverity.blocked

-- The preflight of a target that is to be moved to.
unfoldable pub require_preflight : String → Preflight → M (Unit {0})
require_preflight command p =
    if p.motion_refused
    then raise (
        safety_error (
          violation (first_blocker p.blockers) command
            (severity_of p.counterweight.counterweight_state)))
    else return tt

abbrev pub require_home : String → M (Unit {0})
require_home command m =
    if m.home_confirmed
    then (returned tt, m)
    else (threw (safety_error (violation "home_not_confirmed" command SafetySeverity.unknown)), m)

module _ (sky : Sky) (c : OnStepSafetyConfig) where
  -- The target against the limits, at the time of the clock then.
  unfoldable pub check_here : String → ℤ → ℤ → ℤ → M (Unit {0})
  check_here command ra dec margin m =
      check_limits sky c command margin dec (sky.hour_angle m.bus.now ra dec)
        (sky.altitude m.bus.now ra dec) (sky.azimuth m.bus.now ra dec) m

  unfoldable pub preflight_if : Bool → String → M (Unit {0})
  preflight_if true command = do p ← motion_safety_preflight sky c true; require_preflight command p
  preflight_if false command = return tt

  -- `_check_target_safe`
  unfoldable pub check_target_safe : String → ℤ → ℤ → ℤ → Bool → M (Unit {0})
  check_target_safe command ra dec margin preflight = do
    raise_if_locked command false
    require_home command
    raise_if_not_astronomy_ready sky c command
    preflight_if preflight command
    check_here command ra dec margin

  -- `validate_target`: the violation, or none where the target is allowed.
  unfoldable pub validate_target : ℤ → ℤ → ℤ → M (Option SafetyViolation)
  validate_target ra dec margin m =
      let (r, m1) = check_target_safe "validate" ra dec margin false m in
      elim r [
        | returned u ↦ (returned none, m1)
        | threw (safety_error v) ↦ (returned (some v), m1)
        | threw (limit_error v) ↦ (returned (some v), m1)
        | threw e ↦ (threw e, m1)
      ]
