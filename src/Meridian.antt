-- ===== src/Meridian.antt =====
-- onstep_adapter/indi_meridian.py, the classification of one observation against the policy.
-- Units are those of Policy: µdeg, and 1/3,600,000,000,000 s for durations.
pub mod Stops
pub mod Phases
use on_step_adapter.Base.{
  Bool, true, false, ◌&&◌, ◌||◌, not, Option, none, some, List, any, is_none, if◌then◌else◌,
}
use on_step_adapter.Base.Int.{ℤ, pos, ◌-ℤ◌, ltb_ℤ}
use on_step_adapter.Gu.{Side, east, west}
use on_step_adapter.Snapshot.{
  IndiMountSnapshot, Blocker, pier_side_conflict, indi_device_disconnected,
}
use on_step_adapter.Policy.{MeridianPolicy, sidereal_seconds}

pub data Phase : Type 0 where
  mechanical_terminal firmware_limit unknown_phase post_flip pre_meridian_allowed : Phase
  post_meridian_allowed flip_required_phase hard_stop : Phase

pub record IndiMeridianState : Type 0 where
  pub phase : Phase
  pub ha_deg : Option ℤ
  pub pier_side : Option Side
  pub flip_required : Bool
  pub tracking_stop_required : Bool
  pub seconds_to_flip_boundary : Option ℤ
  pub seconds_to_hard_stop : Option ℤ
  pub latest_safe_flip_start_seconds : Option ℤ
  pub limit_warning : Bool
  pub blockers : List Blocker

abbrev is_conflict : Blocker → Bool
is_conflict pier_side_conflict = true
is_conflict _ = false

abbrev is_disconnected : Blocker → Bool
is_disconnected indi_device_disconnected = true
is_disconnected _ = false

-- The guard of the branch `unknown`, without its tests for None.
unfoldable pub lacks_authority : IndiMountSnapshot → Bool
lacks_authority s =
    not s.status_live
    || not s.coordinates_live
    || not s.time_site_authority
    || any is_conflict s.blockers
    || any is_disconnected s.blockers

-- The states with no time to any boundary: mechanical terminal, firmware limit, unknown.
untimed : Phase → Bool → Bool → IndiMountSnapshot → IndiMeridianState
untimed p stop warning s = record {
  phase = p;
  ha_deg = s.ha_deg;
  pier_side = s.pier_side;
  flip_required = false;
  tracking_stop_required = stop;
  seconds_to_flip_boundary = none;
  seconds_to_hard_stop = none;
  latest_safe_flip_start_seconds = none;
  limit_warning = warning;
  blockers = s.blockers;
}

-- The ladder on the pier side and the hour angle: the phase, `flip` and whether the stop applies.
unfoldable pub side_phase : Side → ℤ → MeridianPolicy → Phase × Bool × Bool
side_phase west ha p = (post_flip, false, false)
side_phase east ha p =
    if ltb_ℤ ha (pos 0)
    then (pre_meridian_allowed, false, false)
    else if ltb_ℤ ha p.flip_request_deg
    then (post_meridian_allowed, false, false)
    else if ltb_ℤ ha p.hard_stop_deg
    then (flip_required_phase, true, false)
    else (hard_stop, true, true)

timed : Side → ℤ → IndiMountSnapshot → MeridianPolicy → IndiMeridianState
timed side ha s p =
    let (phase_now, flip, at_stop) = side_phase side ha p in
    let stop = at_stop && (s.tracking || s.slewing) in
    let to_stop = sidereal_seconds (p.hard_stop_deg -ℤ ha) in
    record {
      phase = phase_now;
      ha_deg = some ha;
      pier_side = some side;
      flip_required = flip;
      tracking_stop_required = stop;
      seconds_to_flip_boundary = some (sidereal_seconds (p.flip_request_deg -ℤ ha));
      seconds_to_hard_stop = some to_stop;
      latest_safe_flip_start_seconds =
          some (to_stop -ℤ p.flip_allowance_seconds -ℤ p.reserve_seconds);
      limit_warning = flip || stop;
      blockers = s.blockers;
    }

-- The part behind the guards; `ha_deg is None or pier_side is None` are the catch-all cases.
measured : Option ℤ → Option Side → IndiMountSnapshot → MeridianPolicy → IndiMeridianState
unfolding timed untimed
measured (some ha) (some side) s p = timed side ha s p
measured _ _ s p = untimed unknown_phase false false s

unfoldable pub classify_meridian : IndiMountSnapshot → MeridianPolicy → IndiMeridianState
unfolding measured timed untimed side_phase lacks_authority
classify_meridian s p =
    if s.parked || s.at_home
    then untimed mechanical_terminal false false s
    else if s.at_limit && s.status_live
    then untimed firmware_limit (s.tracking || s.slewing) true s
    else if lacks_authority s
    then untimed unknown_phase false false s
    else measured s.ha_deg s.pier_side s p
