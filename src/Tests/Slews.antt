-- ===== src/Tests/Slews.antt =====
-- Slews of the virtual mount.
use on_step_adapter.Base.{◌≡◌, refl, true, false, ◌&&◌, none, some, [], arith}
use on_step_adapter.Base.Int.{pos, negsuc, ◌-ℤ◌, ◌+ℤ◌, mod_ℤ}
use on_step_adapter.Gu.{west}
use on_step_adapter.Mock.{
  idle, slewing, home, park, Pose, VirtualMount, set_tracking, start_goto, is_guiding,
}
use on_step_adapter.Mock.Ticks.{
  Rates, tick, drift, advance, step_goto, goal, approach, is_there, land, wrap_hours, toward,
}
use on_step_adapter.Mock.Arrival.{IsAtHome, IsHoming, distance, run_ticks, home_in_time}

-- PARK is 38 degrees south of where the mount stands, HOME six hours east and at the pole.
abbrev pole : Pose
pole = record { ha_h = negsuc 89999999; dec_deg = pos 90000000; pier_side = west }

abbrev south : Pose
south = record { ha_h = pos 0; dec_deg = pos 52000000; pier_side = west }

abbrev free_mount : VirtualMount
free_mount = record {
  config = record {
    home_pose = pole;
    park_pose = south;
    abort_settle = 1450;
    arrival_tolerance = 100;
    auto_track_on_unpark = true;
    auto_track_on_goto_arrival = true;
  };
  ha_h = pos 0;
  dec_deg = pos 52000000;
  pier_side = west;
  parked = false;
  at_home = false;
  tracking = false;
  tracking_since = none;
  last_tracking_on = 0;
  motion = slewing;
  target_kind = some home;
  target_ra_h = 0;
  target_dec_deg = pos 0;
  stop_at = 0;
  manual_ns = pos 0;
  manual_we = pos 0;
  guiding_until = 0;
  guide_ha = pos 0;
  guide_dec = pos 0;
  fault = none;
  events = [];
}

-- Four degrees a second, a tick each half second.
abbrev rates : Rates
rates = record { sidereal = 2089; guiding = 1044; manual = 41780; slewing = 2000000; lst = pos 0 }

free_mount-IsHoming : IsHoming 0 free_mount
free_mount-IsHoming = record { slews = refl; aims = refl; untracked = refl; unguided = omega arith }

home_in_time_example : IsAtHome (run_ticks rates 500 45 0 free_mount)
unfolding distance wrap_hours mod_ℤ ◌-ℤ◌ ◌+ℤ◌
home_in_time_example = home_in_time rates 500 44 0 free_mount free_mount-IsHoming (omega arith)

-- Tracking that is switched on during a slew to PARK outlasts the arrival: the mount ends parked
-- and tracking.
abbrev parking : VirtualMount
parking =
    (set_tracking true 20
      (start_goto park 10 (pos 0) (pos 0)
        (record free_mount { motion = idle; target_kind = none })).1).1

parked_and_tracking : (tick rates 30 parking).1.parked && (tick rates 30 parking).1.tracking ≡ true
unfolding tick drift is_guiding advance step_goto goal approach is_there land set_tracking
    start_goto wrap_hours toward mod_ℤ ◌-ℤ◌ ◌+ℤ◌
parked_and_tracking = refl
