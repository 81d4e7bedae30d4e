-- ===== src/Serial/Limits.antt =====
-- onstep_adapter/mount.py: which limit of the firmware applies to a motion, and whether the
-- limits cover the path over the meridian. An hour angle is the angle that it is, in µdeg. Texts
-- of reasons and the numbers that a report repeats from its arguments are not modelled.
use on_step_adapter.Base.{
  Bool, true, false, ◌&&◌, ◌||◌, not, Option, none, some, List, [], ◌∷◌, ◌++◌, if◌then◌else◌,
}
use on_step_adapter.Base.Int.{ℤ, pos, ◌+ℤ◌, ◌-ℤ◌, ltb_ℤ, leb_ℤ}
use on_step_adapter.Gu.{Side, east, west}

pub data Operation : Type 0 where
  parked_state tracking_state slewing_state other_state : Operation

abbrev is_parked : Operation → Bool
is_parked parked_state = true
is_parked _ = false

abbrev is_moving : Operation → Bool
is_moving tracking_state = true
is_moving slewing_state = true
is_moving _ = false

-- What is read of `limits`; a threshold that is no number is none.
pub record Limits : Type 0 where
  pub meridian_east : Option ℤ
  pub meridian_west : Option ℤ
  pub axis1_max : Option ℤ
  pub dual_pier_enabled : Bool

-- `_ONSTEP_MERIDIAN_HALF_WIRE_MINUTE_H`
abbrev pub half_wire_minute : ℤ
half_wire_minute = pos 125000

pub data Branch : Type 0 where
  preflip_pier_west_west_meridian pier_east_east_meridian : Branch
  postflip_pier_east_dual_pier_west_ha_stop pier_side_axis1_max : Branch

pub data ProtectionStatus : Type 0 where
  not_applicable_mechanical_terminal_state not_applicable_not_moving unknown : ProtectionStatus
  protected unprotected : ProtectionStatus

pub record OperationalProtection : Type 0 where
  pub applicable : Bool
  pub status : ProtectionStatus
  pub active_branch : Option Branch
  pub active_threshold : Option ℤ
  pub protected_to_requested_boundary : Option Bool

-- Whether a threshold lies in the interval between the flip and the stop, half a minute on the wire
-- either way.
unfoldable pub in_interval : ℤ → ℤ → Option ℤ → Bool
in_interval flip stop none = false
in_interval flip stop (some t) =
    leb_ℤ (flip -ℤ half_wire_minute) t && leb_ℤ t (stop +ℤ half_wire_minute)

abbrev pub is_at_most : ℤ → Option ℤ → Bool
is_at_most stop none = false
is_at_most stop (some t) = leb_ℤ t stop

abbrev is_given : Option ℤ → Bool
is_given none = false
is_given (some t) = true

abbrev negated : Option ℤ → Option ℤ
negated none = none
negated (some t) = some (pos 0 -ℤ t)

unfoldable pub judged : Branch → Option ℤ → Bool → OperationalProtection
judged branch threshold fits = record {
  applicable = true;
  status = if fits then protected else unprotected;
  active_branch = some branch;
  active_threshold = threshold;
  protected_to_requested_boundary = some fits;
}

-- The branch that is active at a pier side and an hour angle.
unfoldable pub active_limit : Side → ℤ → Limits → ℤ → ℤ → OperationalProtection
active_limit west ha limits flip stop =
    if leb_ℤ (pos 0) ha
    then judged preflip_pier_west_west_meridian limits.meridian_west
        (in_interval flip stop limits.meridian_west)
    else judged pier_side_axis1_max limits.axis1_max (is_at_most stop limits.axis1_max)
active_limit east ha limits flip stop =
    if ltb_ℤ ha (pos 0)
    then judged pier_east_east_meridian (negated limits.meridian_east)
        (is_given limits.meridian_east)
    else if limits.dual_pier_enabled
    then judged postflip_pier_east_dual_pier_west_ha_stop limits.meridian_west
        (in_interval flip stop limits.meridian_west)
    else judged pier_side_axis1_max limits.axis1_max (is_at_most stop limits.axis1_max)

abbrev inapplicable : ProtectionStatus → OperationalProtection
inapplicable status = record {
  applicable = false;
  status = status;
  active_branch = none;
  active_threshold = none;
  protected_to_requested_boundary = none;
}

abbrev undecided : OperationalProtection
undecided = record {
  applicable = true;
  status = unknown;
  active_branch = none;
  active_threshold = none;
  protected_to_requested_boundary = some false;
}

-- `_evaluate_onstep_operational_protection`
unfoldable pub operational_protection :
    Operation → Bool → Option Side → Option ℤ → Limits → ℤ → ℤ → OperationalProtection
operational_protection state at_home side ha limits flip stop =
    if is_parked state || at_home
    then inapplicable not_applicable_mechanical_terminal_state
    else if not (is_moving state)
    then inapplicable not_applicable_not_moving
    else elim side [
      | none ↦ undecided
      | some s ↦ elim ha [ none ↦ undecided | some h ↦ active_limit s h limits flip stop ]
    ]

pub data PathBlocker : Type 0 where
  invalid_flip_stop_order : PathBlocker
  preflip_pier_west_meridian_limit_not_compatible : PathBlocker
  postflip_pier_east_dual_pier_stop_not_available : PathBlocker

pub record PathCoverage : Type 0 where
  pub app_policy_valid : Bool
  pub preflip_firmware_protected : Bool
  pub postflip_firmware_protected : Bool
  pub full_path_firmware_protected : Bool
  pub unattended_tracking_allowed : Bool
  pub blockers : List PathBlocker

-- `is True`
abbrev pub is_true : Option Bool → Bool
is_true (some true) = true
is_true _ = false

abbrev unless : Bool → PathBlocker → List PathBlocker
unless true b = []
unless false b = b ∷ []

-- `_evaluate_onstep_meridian_path_coverage`
unfoldable pub meridian_path_coverage : Limits → ℤ → ℤ → PathCoverage
meridian_path_coverage limits flip stop =
    let sample = (if ltb_ℤ (pos 0) flip then flip else pos 0) in
    let preflip =
      operational_protection tracking_state false (some west) (some sample) limits flip stop in
    let postflip =
      operational_protection tracking_state false (some east) (some flip) limits flip stop in
    let before = is_true preflip.protected_to_requested_boundary in
    let after = is_true postflip.protected_to_requested_boundary in
    let valid = leb_ℤ (pos 0) flip && ltb_ℤ flip stop in
    record {
      app_policy_valid = valid;
      preflip_firmware_protected = before;
      postflip_firmware_protected = after;
      full_path_firmware_protected = valid && before && after;
      unattended_tracking_allowed = false;
      blockers =
          unless valid invalid_flip_stop_order
          ++ unless before preflip_pier_west_meridian_limit_not_compatible
          ++ unless after postflip_pier_east_dual_pier_stop_not_available;
    }
