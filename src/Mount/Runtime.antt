-- ===== src/Mount/Runtime.antt =====
-- onstep_adapter/mount.py: `current_tracking_safety`, the judgement of a running tracking, and
-- `tracking_guard_tick`, which acts on it. The limits of the firmware are those read before, and
-- the reports that are passed through are not repeated. The rounding of the hour angle to four
-- digits is not modelled.
use on_step_adapter.Base.{
  Bool, true, false, ◌&&◌, ◌||◌, not, Option, none, some, List, ◌++◌, if◌then◌else◌,
}
use on_step_adapter.Base.Int.{ℤ, pos, ◌-ℤ◌, leb_ℤ}
use on_step_adapter.Base.Text.{str_eq}
use on_step_adapter.Gu.{Side, east, west}
use on_step_adapter.Serial.Protection.{
  CounterweightState, normal, hard_limit_reached, approaching_limit,
}
use on_step_adapter.Serial.Limits.{Limits, Operation, OperationalProtection, operational_protection}
use on_step_adapter.Mount.{
  Mount, OnStepSafetyConfig, Sky, SafetyViolation, returned, threw, M, ◌>>=◌,
}
use on_step_adapter.Mount.State.{MountState, parked, slewing, tracking, disable_tracking}
use on_step_adapter.Mount.Preflight.{
  Preflight, Blocker, violation_reason, tracking_not_astronomically_safe, motion_safety_preflight,
  no_blockers, flag,
}
use on_step_adapter.Mount.Target.{validate_target}

pub data TrackingAction : Type 0 where
  not_tracking stop_tracking request_meridian_flip continue_tracking : TrackingAction

pub data HaLimitState : Type 0 where
  unknown_limit not_applicable_at_home west_stop_required east_stop_required : HaLimitState
  flip_recommended postflip_tracking_allowed post_meridian_allowed : HaLimitState
  pre_meridian_allowed : HaLimitState

pub record TrackingSafety : Type 0 where
  pub state : MountState
  pub tracking : Bool
  pub mechanical_safe : Bool
  pub astronomical_target_safe : Bool
  pub tracking_safe_now : Bool
  pub tracking_stop_required : Bool
  pub meridian_flip_recommended : Bool
  pub tracking_action : TrackingAction
  pub ha_limit_state : HaLimitState
  pub operational : OperationalProtection
  pub blockers : List Blocker

-- What `validate_target` said: not asked, allowed, or a violation.
pub data Validation : Type 0 where
  not_validated allowed : Validation
  violated : SafetyViolation → Validation

abbrev is_normal : CounterweightState → Bool
is_normal normal = true
is_normal _ = false

abbrev pub is_allowed : Validation → Bool
is_allowed allowed = true
is_allowed _ = false

-- A violation of the hour angle does not count while the counterweight is down.
abbrev pub is_excused : CounterweightState → Validation → Bool
is_excused weight (violated v) =
    (str_eq v.reason "hour_angle_east" || str_eq v.reason "meridian_limit") && is_normal weight
is_excused weight _ = false

abbrev blocker_of : Validation → Blocker
blocker_of (violated v) = violation_reason v.reason
blocker_of _ = tracking_not_astronomically_safe

abbrev pub same_side : Option Side → Option Side → Bool
same_side (some east) (some east) = true
same_side (some west) (some west) = true
same_side _ _ = false

abbrev postflip_confirmed : Mount → Option Side → Bool
postflip_confirmed m side = m.flip_completed && same_side side m.postflip_pier_side

unfoldable pub ha_limit_of : Bool → CounterweightState → Bool → ℤ → HaLimitState
ha_limit_of true weight postflip ha = not_applicable_at_home
ha_limit_of false hard_limit_reached postflip ha =
    if leb_ℤ (pos 0) ha then west_stop_required else east_stop_required
ha_limit_of false approaching_limit postflip ha = flip_recommended
ha_limit_of false weight postflip ha =
    if postflip
    then postflip_tracking_allowed
    else if leb_ℤ (pos 0) ha
    then post_meridian_allowed
    else pre_meridian_allowed

abbrev limit_state_of : Preflight → Bool → HaLimitState
limit_state_of p postflip = elim p.ha [
  | none ↦ unknown_limit
  | some h ↦ ha_limit_of p.at_home p.counterweight.counterweight_state postflip h
]

abbrev is_flip : HaLimitState → Bool
is_flip flip_recommended = true
is_flip _ = false

abbrev operation_of : MountState → Operation
operation_of parked = Operation.parked_state
operation_of tracking = Operation.tracking_state
operation_of slewing = Operation.slewing_state
operation_of _ = Operation.other_state

-- The judgement of a preflight, of the validation of its position and of the mount behind them.
unfoldable pub judge_tracking :
    OnStepSafetyConfig → Limits → Mount → Preflight → Validation → TrackingSafety
judge_tracking c limits m p v =
    let weight = p.counterweight.counterweight_state in
    let target_safe = is_allowed v || is_excused weight v || p.at_home in
    let blockers =
      p.blockers ++ flag (p.tracking && not p.at_home && not target_safe) (blocker_of v) in
    let limit = limit_state_of p (postflip_confirmed m p.pier_side) in
    let flip = p.tracking && is_flip limit in
    let stop =
      p.tracking_stop_required || (p.tracking && (not (no_blockers blockers) || not target_safe)) in
    record {
      state = p.state;
      tracking = p.tracking;
      mechanical_safe = p.mechanical_safe;
      astronomical_target_safe = target_safe;
      tracking_safe_now = p.tracking && p.mechanical_safe && target_safe && no_blockers blockers;
      tracking_stop_required = stop;
      meridian_flip_recommended = flip;
      tracking_action =
          if stop
          then stop_tracking
          else if flip
          then request_meridian_flip
          else if p.tracking
          then continue_tracking
          else not_tracking;
      ha_limit_state = limit;
      operational =
          operational_protection (operation_of p.state) p.at_home p.pier_side p.ha limits
            (c.ha_west_limit -ℤ c.meridian_margin_deg) c.ha_west_limit;
      blockers = blockers;
    }

module _ (sky : Sky) (c : OnStepSafetyConfig) (limits : Limits) where
  unfoldable pub validation_of : ℤ → Option (ℤ × ℤ) → M Validation
  validation_of margin none m = (returned not_validated, m)
  validation_of margin (some (ra, dec)) m =
      let (r, m1) = validate_target sky c ra dec margin m in
      elim r [
        | threw e ↦ (threw e, m1)
        | returned none ↦ (returned allowed, m1)
        | returned (some v) ↦ (returned (violated v), m1)
      ]

  unfoldable pub tracking_verdict : Preflight → Validation → M TrackingSafety
  tracking_verdict p v m = (returned (judge_tracking c limits m p v), m)

  -- The judgement behind a preflight.
  unfoldable pub tracking_safety_after : ℤ → Preflight → M TrackingSafety
  tracking_safety_after margin p = do
    v ← validation_of margin p.logical_position
    tracking_verdict p v

  unfoldable pub current_tracking_safety : ℤ → M TrackingSafety
  current_tracking_safety margin = do
    p ← motion_safety_preflight sky c false
    tracking_safety_after margin p

  -- `tracking_guard_tick`: the judgement, and `stop_sent`.
  unfoldable tracking_guard_tick : ℤ → M (TrackingSafety × Bool)
  tracking_guard_tick margin m =
      let (r, m1) = current_tracking_safety margin m in
      elim r [
        | threw e ↦ (threw e, m1)
        | returned s ↦ elim s.tracking_stop_required [
          | false ↦ (returned (s, false), m1)
          | true ↦
              let (q, m2) = disable_tracking m1 in
              elim q [ threw e ↦ (threw e, m2) | returned done ↦ (returned (s, done), m2) ]
        ]
      ]
