-- ===== src/Mock/Ticks.antt =====
-- onstep_mock/mount.py: the motion of the virtual mount, a tick at a time. What a tick moves at
-- each rate is a whole number of µdeg, and so is the sidereal time in the angle that it is.
use on_step_adapter.Base.{
  ℕ, min, Bool, true, false, ◌&&◌, Option, none, some, [], ◌∷◌, ◌++◌, leb, if◌then◌else◌,
}
use on_step_adapter.Base.Int.{ℤ, pos, negsuc, ◌+ℤ◌, ◌-ℤ◌, abs, scale, mod_ℤ, ltb_ℤ}
use on_step_adapter.Mock.{
  idle, slewing, stopping, manual, Target, radec, home, park, Pose, arrived, VirtualMount,
  is_guiding, set_tracking,
}

-- What one tick moves: with the stars, in a guide pulse, by hand and in a slew. The rate by hand is
-- that of `slew_rate`.
pub record Rates : Type 0 where
  pub sidereal : ℕ
  pub guiding : ℕ
  pub manual : ℕ
  pub slewing : ℕ
  pub lst : ℤ

-- `wrap_hours`
unfoldable pub wrap_hours : ℤ → ℤ
wrap_hours value = pos (mod_ℤ (value +ℤ pos 180000000) 360000000) -ℤ pos 180000000

-- `max(-90.0, min(90.0, d))`
unfoldable pub clamp_dec : ℤ → ℤ
clamp_dec d =
    if ltb_ℤ d (negsuc 89999999)
    then negsuc 89999999
    else if ltb_ℤ (pos 90000000) d
    then pos 90000000
    else d

-- n * a
abbrev times : ℕ → ℤ → ℤ
times n a = scale n a

-- `math.copysign(min(step, abs(err)), err)`
unfoldable pub toward : ℕ → ℤ → ℤ
toward step (pos n) = pos (min step n)
toward step (negsuc n) = pos 0 -ℤ pos (min step (abs (negsuc n)))

-- `_goal`
unfoldable pub goal : ℤ → VirtualMount → Pose
goal lst m = elim m.target_kind [
  | some home ↦ m.config.home_pose
  | some park ↦ m.config.park_pose
  | _ ↦ record {
    ha_h = wrap_hours (lst -ℤ pos m.target_ra_h);
    dec_deg = m.target_dec_deg;
    pier_side = m.pier_side;
  }
]

-- The target of a slew; one without a target counts as one to the sky.
abbrev kind_of : Option Target → Target
kind_of none = radec
kind_of (some kind) = kind

-- The arrival of a slew.
unfoldable pub land : Pose → ℕ → VirtualMount → VirtualMount
land pose now m =
    let kind = kind_of m.target_kind in
    let landed : VirtualMount = record m {
      ha_h = pose.ha_h;
      dec_deg = pose.dec_deg;
      pier_side = pose.pier_side;
      motion = idle;
      target_kind = none;
      events = m.events ++ arrived kind ∷ [];
    } in
    elim kind [
      | park ↦ record landed { parked = true }
      | home ↦ record landed { at_home = true }
      | radec ↦
          if m.config.auto_track_on_goto_arrival then (set_tracking true now landed).1 else landed
    ]

-- The step of each axis towards a pose.
unfoldable pub approach : Pose → ℕ → VirtualMount → VirtualMount
approach pose step m = record m {
  ha_h = wrap_hours (m.ha_h +ℤ toward step (wrap_hours (pose.ha_h -ℤ m.ha_h)));
  dec_deg = m.dec_deg +ℤ toward step (pose.dec_deg -ℤ m.dec_deg);
}

unfoldable pub is_there : Pose → VirtualMount → Bool
is_there pose m =
    leb (abs (wrap_hours (pose.ha_h -ℤ m.ha_h))) m.config.arrival_tolerance
    && leb (abs (pose.dec_deg -ℤ m.dec_deg)) m.config.arrival_tolerance

-- `_step_goto`
unfoldable pub step_goto : Rates → ℕ → VirtualMount → Bool × VirtualMount
step_goto r now m =
    let pose = goal r.lst m in
    let moved = approach pose r.slewing m in
    elim (is_there pose moved) [ true ↦ (true, land pose now moved) | false ↦ (false, moved) ]

-- The motion with the stars and in a guide pulse.
unfoldable pub drift : Rates → ℕ → VirtualMount → VirtualMount
drift r now m =
    let followed : VirtualMount =
      (if m.tracking then record m { ha_h = wrap_hours (m.ha_h +ℤ pos r.sidereal) } else m) in
    if is_guiding followed now
    then record followed {
      ha_h = wrap_hours (followed.ha_h +ℤ times r.guiding followed.guide_ha);
      dec_deg = clamp_dec (followed.dec_deg +ℤ times r.guiding followed.guide_dec);
    }
    else followed

-- The motion that is under way: whether a state changed, and the new state.
unfoldable pub advance : Rates → ℕ → VirtualMount → Bool × VirtualMount
advance r now m = elim m.motion [
  | idle ↦ (false, m)
  | stopping ↦ if leb m.stop_at now then (true, record m { motion = idle }) else (false, m)
  | manual ↦ (
    false,
    record m {
      dec_deg = clamp_dec (m.dec_deg +ℤ times r.manual m.manual_ns);
      ha_h = wrap_hours (m.ha_h +ℤ times r.manual m.manual_we);
    },
  )
  | slewing ↦ step_goto r now m
]

-- `tick`
unfoldable pub tick : Rates → ℕ → VirtualMount → Bool × VirtualMount
tick r now m = advance r now (drift r now m)
