-- ===== src/Mock.antt =====
-- onstep_mock/mount.py: the virtual mount behind the mock INDI server.
-- Hour angles and right ascensions are in units of 1/15,000,000 hour, which is one micro-degree
-- (µdeg) of angle; declinations are in µdeg, times in milliseconds. `guide_ha` and `guide_dec` hold
-- the guide rates as multiples of GUIDE_MULTIPLIER * SIDEREAL_DEG_PER_S.
pub mod Wire
pub mod Commands
pub mod Ticks
pub mod Arrival
use on_step_adapter.Base.{
  ℕ, zero, ◌+◌, ◌-◌, Bool, true, false, ◌&&◌, ◌||◌, not, Option, none, some, List, [], ◌∷◌, ◌++◌,
  ltb, if◌then◌else◌, String,
}
use on_step_adapter.Base.Int.{ℤ, pos, negsuc, mod_ℤ, leb_ℤ, ◌-ℤ◌}
use on_step_adapter.Base.Text.{Text, codes, str_eq}
use on_step_adapter.Gu.{Side, east}

pub data Motion : Type 0 where
  idle slewing stopping manual : Motion

pub data Target : Type 0 where
  radec home park : Target

pub record Pose : Type 0 where
  pub ha_h : ℤ
  pub dec_deg : ℤ
  pub pier_side : Side

-- The fields of `SimConfig` that the modelled commands read.
pub record SimConfig : Type 0 where
  pub home_pose : Pose
  pub park_pose : Pose
  pub abort_settle : ℕ  -- abort_settle_s / speed
  pub arrival_tolerance : ℕ
  pub auto_track_on_unpark : Bool
  pub auto_track_on_goto_arrival : Bool

pub data Event : Type 0 where
  unparked aborted : Event
  goto arrived : Target → Event

pub record VirtualMount : Type 0 where
  pub config : SimConfig
  pub ha_h : ℤ
  pub dec_deg : ℤ
  pub pier_side : Side
  pub parked : Bool
  pub at_home : Bool
  pub tracking : Bool
  pub tracking_since : Option ℕ
  pub last_tracking_on : ℕ
  pub motion : Motion
  pub target_kind : Option Target
  pub target_ra_h : ℕ
  pub target_dec_deg : ℤ
  pub stop_at : ℕ
  pub manual_ns : ℤ
  pub manual_we : ℤ
  pub guiding_until : ℕ
  pub guide_ha : ℤ
  pub guide_dec : ℤ
  pub fault : Option String
  pub events : List Event

-- Whether `self.fault` is true as a condition.
abbrev pub is_faulted : Option String → Bool
is_faulted none = false
is_faulted (some text) = not (str_eq text "")

abbrev pub is_idle : Motion → Bool
is_idle idle = true
is_idle _ = false

-- The property `slewing`.
unfoldable pub is_slewing : VirtualMount → Bool
is_slewing m = not (is_idle m.motion)

unfoldable pub is_guiding : VirtualMount → ℕ → Bool
is_guiding m now = ltb now m.guiding_until

abbrev pub is_limit_fault : Option String → Bool
is_limit_fault none = false
is_limit_fault (some text) = str_eq text "LIMIT"

abbrev pub is_east : Side → Bool
is_east east = true
is_east _ = false

-- The flags of `raw_gu`, in the order in which the method appends them.
unfoldable pub wire : Bool → Bool → Bool → Bool → Bool → Bool → Bool → Text
wire tracks moves parks homes guides limits easts =
    (if tracks then [] else b'n' ∷ [])
    ++ ((if moves then [] else b'N' ∷ [])
        ++ ((if parks then b'P' else b'p')
            ∷ ((if homes then b'H' ∷ [] else [])
                ++ ((if guides then b'G' ∷ [] else [])
                    ++ ((if limits then b'l' ∷ [] else [])
                        ++ (b'E' ∷ (if easts then b'T' else b'W') ∷ codes "060"))))))

unfoldable pub raw_gu : VirtualMount → ℕ → Text
unfolding is_slewing is_guiding
raw_gu m now =
    wire m.tracking (is_slewing m) m.parked m.at_home (is_guiding m now) (is_limit_fault m.fault)
      (is_east m.pier_side)

-- `set_tracking`; whether it was refused stands beside the new state, here and in what follows.
unfoldable pub set_tracking : Bool → ℕ → VirtualMount → Bool × VirtualMount
set_tracking on now m =
    if on && (m.parked || is_faulted m.fault)
    then (true, m)
    else if on && not m.tracking
    then (false, record m { tracking = true; tracking_since = some now; at_home = false })
    else if not on && m.tracking
    then (
      false,
      record m {
        tracking = false;
        last_tracking_on = elim m.tracking_since [
          | some since ↦ now - since
          | none ↦ m.last_tracking_on
        ];
        tracking_since = none;
      },
    )
    else (false, m)

unfoldable pub unpark : ℕ → VirtualMount → Bool × VirtualMount
unpark now m =
    if is_faulted m.fault
    then (true, m)
    else if not m.parked
    then (false, m)
    else let free : VirtualMount = record m {
      parked = false;
      events = m.events ++ unparked ∷ [];
    } in
      (false, if m.config.auto_track_on_unpark then (set_tracking true now free).1 else free)

abbrev is_park : Target → Bool
is_park park = true
is_park _ = false

abbrev is_radec : Target → Bool
is_radec radec = true
is_radec _ = false

-- `-90.0 <= dec_deg <= 90.0`
abbrev is_declination : ℤ → Bool
is_declination d = leb_ℤ (negsuc 89999999) d && leb_ℤ d (pos 90000000)

unfoldable pub start_goto : Target → ℕ → ℤ → ℤ → VirtualMount → Bool × VirtualMount
start_goto kind now ra dec m =
    if is_faulted m.fault
    then (true, m)
    else if not (is_park kind) && m.parked
    then (true, m)
    else if is_park kind && m.parked
    then (false, m)
    else if is_radec kind && not (is_declination dec)
    then (true, m)
    else let aimed : VirtualMount = record m {
      manual_ns = pos 0;
      manual_we = pos 0;
      target_kind = some kind;
      target_ra_h = mod_ℤ ra 360000000;
      target_dec_deg = dec;
      motion = slewing;
      at_home = false;
    } in
      let off = (set_tracking false now aimed).1 in
      (false, record off { events = off.events ++ goto kind ∷ [] })

abbrev pub is_manual : Motion → Bool
is_manual manual = true
is_manual _ = false

abbrev pub is_zero : ℤ → Bool
is_zero (pos zero) = true
is_zero _ = false

-- The axis "ns", or else "we".
unfoldable pub start_manual : Bool → ℤ → VirtualMount → Bool × VirtualMount
start_manual ns direction m =
    if is_faulted m.fault || m.parked
    then (true, m)
    else let pushed : VirtualMount =
        if ns then record m { manual_ns = direction } else record m { manual_we = direction } in
      if not (is_zero pushed.manual_ns) || not (is_zero pushed.manual_we)
      then (
        false,
        if is_idle pushed.motion || is_manual pushed.motion
            then record pushed { motion = manual; at_home = false }
            else pushed,
      )
      else if is_manual pushed.motion
      then (false, record pushed { motion = idle })
      else (false, pushed)

unfoldable pub guide : Bool → ℤ → ℕ → ℕ → VirtualMount → Bool × VirtualMount
guide ns direction ms now m = if is_faulted m.fault || m.parked then (true, m) else (
  false,
  record m {
    guide_ha = if ns then pos 0 else direction;
    guide_dec = if ns then direction else pos 0;
    guiding_until = now + ms;
  },
)

unfoldable pub abort : ℕ → VirtualMount → VirtualMount
unfolding is_slewing
abort now m =
    let quiet : VirtualMount = record m {
      manual_ns = pos 0;
      manual_we = pos 0;
      guiding_until = 0;
    } in
    let stopped : VirtualMount =
      if is_slewing m
      then record quiet {
        motion = stopping;
        target_kind = none;
        stop_at = now + m.config.abort_settle;
      }
      else quiet in
    record stopped { events = stopped.events ++ aborted ∷ [] }

unfoldable pub set_fault : Option String → ℕ → VirtualMount → VirtualMount
unfolding abort set_tracking
set_fault fault now m =
    let marked : VirtualMount = record m { fault = fault } in
    if is_faulted fault then (set_tracking false now (abort now marked)).1 else marked
