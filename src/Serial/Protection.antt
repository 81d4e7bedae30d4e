-- ===== src/Serial/Protection.antt =====
-- onstep_adapter/mount.py: the judgement of the limits. An hour angle is the angle that it is, in
-- µdeg, so that fifteen degrees to an hour is a change of unit.
use on_step_adapter.Base.{
  ◌*◌, Bool, true, false, ◌&&◌, not, Option, none, some, is_none, if◌then◌else◌,
}
use on_step_adapter.Base.Int.{ℤ, pos, negsuc, ◌-ℤ◌, abs, ltb_ℤ, leb_ℤ}
use on_step_adapter.Gu.{Side, east, west}
use on_step_adapter.Guiding.Correction.{round_div}

-- `_instrument_to_mount_axes`
pub record MountAxes : Type 0 where
  pub axis1_deg : ℤ
  pub axis2_deg : ℤ
  pub pier_side : Side

abbrev right_angle : ℤ
right_angle = pos 90000000

abbrev pub half_turn : ℤ
half_turn = pos 180000000

unfoldable pub instrument_to_mount_axes : ℤ → ℤ → ℤ → MountAxes
instrument_to_mount_axes axis1 axis2 observer_lat =
    if leb_ℤ (pos 0) observer_lat
    then (if ltb_ℤ right_angle axis2
        then record {
          axis1_deg = axis1 -ℤ half_turn;
          axis2_deg = half_turn -ℤ axis2;
          pier_side = west;
        }
        else record { axis1_deg = axis1; axis2_deg = axis2; pier_side = east })
    else if ltb_ℤ axis2 (pos 0 -ℤ right_angle)
    then record {
      axis1_deg = axis1 -ℤ half_turn;
      axis2_deg = (pos 0 -ℤ half_turn) -ℤ axis2;
      pier_side = west;
    }
    else record { axis1_deg = axis1; axis2_deg = axis2; pier_side = east }

pub data CounterweightState : Type 0 where
  normal unknown hard_limit_reached approaching_limit counterweight_up_allowed : CounterweightState

pub record CounterweightSafety : Type 0 where
  pub counterweight_state : CounterweightState
  pub counterweight_up : Option Bool
  pub operational_limit_margin_deg : Option ℤ
  pub limit_warning : Bool
  pub hard_limit_reached : Bool
  pub applicable : Bool

-- `round(margin_deg, 4)`: whole hundreds of µdeg, half to even.
unfoldable pub rounded : ℤ → ℤ
rounded (pos n) = pos (100 * round_div n 100)
rounded (negsuc n) = pos 0 -ℤ pos (100 * round_div (abs (negsuc n)) 100)

abbrev at_rest : Bool → CounterweightSafety
at_rest applies = record {
  counterweight_state = normal;
  counterweight_up = some false;
  operational_limit_margin_deg = none;
  limit_warning = false;
  hard_limit_reached = false;
  applicable = applies;
}

abbrev unknown_side : CounterweightSafety
unknown_side = record {
  counterweight_state = unknown;
  counterweight_up = none;
  operational_limit_margin_deg = none;
  limit_warning = false;
  hard_limit_reached = false;
  applicable = true;
}

-- The two branches with the counterweight up, by the distance that is left to the limit.
unfoldable pub counterweight_up : ℤ → ℤ → CounterweightSafety
counterweight_up margin warning_margin =
    let hard = leb_ℤ margin (pos 0) in
    let warning = not hard && leb_ℤ margin warning_margin in
    record {
      counterweight_state =
          if hard
          then CounterweightState.hard_limit_reached
          else if warning
          then approaching_limit
          else counterweight_up_allowed;
      counterweight_up = some true;
      operational_limit_margin_deg = some (rounded margin);
      limit_warning = warning;
      hard_limit_reached = hard;
      applicable = true;
    }

abbrev is_same : Side → Side → Bool
is_same east east = true
is_same west west = true
is_same _ _ = false

abbrev is_east : Side → Bool
is_east east = true
is_east west = false

abbrev or_west : Option Side → Side
or_west none = west
or_west (some s) = s

-- `_counterweight_safety_state`
unfoldable pub counterweight_safety_state :
    Option ℤ → Option Side → ℤ → ℤ → ℤ → Option Side → Bool → CounterweightSafety
counterweight_safety_state ha side east_limit west_limit warning_margin preflip true = at_rest false
counterweight_safety_state none side east_limit west_limit warning_margin preflip false =
    unknown_side
counterweight_safety_state (some ha) none east_limit west_limit warning_margin preflip false =
    unknown_side
counterweight_safety_state (some ha) (some side) east_limit west_limit warning_margin preflip
      false =
    if is_same side (or_west preflip) && leb_ℤ (pos 0) ha
    then counterweight_up (west_limit -ℤ ha) warning_margin
    else if is_none preflip && is_east side && leb_ℤ ha (pos 0)
    then counterweight_up (ha -ℤ east_limit) warning_margin
    else at_rest true
