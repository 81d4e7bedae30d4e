-- ===== src/Mount/Preflight.antt =====
-- onstep_adapter/mount.py: `motion_safety_preflight`, the one fresh sample before a motion. Of the
-- report the context of the target, the raw texts and the times are not modelled.
use on_step_adapter.Base.{
  ℕ, Bool, true, false, ◌&&◌, ◌||◌, not, Option, none, some, List, [], ◌∷◌, ◌++◌, String, any,
  is_none, is_some, if◌then◌else◌, ◌==◌,
}
use on_step_adapter.Base.Int.{ℤ, pos, ◌+ℤ◌, ◌-ℤ◌, mod_ℤ}
use on_step_adapter.Base.Text.{Text, codes, strip}
use on_step_adapter.Outcome.{other_error}
use on_step_adapter.Gu.{Side, east, west}
use on_step_adapter.Serial.Protection.{
  CounterweightSafety, counterweight_safety_state, instrument_to_mount_axes,
}
use on_step_adapter.Mount.{
  Mount, OnStepSafetyConfig, Sky, failed, returned, threw, M, ◌>>=◌, ◌>>◌, return, attempt, gets,
  modify, send_text, decoded,
}
use on_step_adapter.Mount.Authority.{AuthorityState, trusted, mechanical_position_authority}
use on_step_adapter.Mount.State.{MountState, unknown, parked, slewing, tracking, get_state}

pub data Blocker : Type 0 where
  onstep_status_unavailable logical_position_unavailable : Blocker
  onstep_sidereal_time_unavailable mechanical_position_authority_untrusted : Blocker
  onstep_state_unknown onstep_park_failed onstep_at_limit pier_side_axis_inconsistent : Blocker
  pier_side_unavailable hour_angle_unavailable counterweight_hard_limit : Blocker
  mount_parked mount_already_slewing : Blocker
  -- the reason of a target's violation, and a target that was not validated
  violation_reason : String → Blocker
  tracking_not_astronomically_safe : Blocker

pub record Preflight : Type 0 where
  pub state : MountState
  pub tracking : Bool
  pub slewing : Bool
  pub parked : Bool
  pub at_home : Bool
  pub authority : AuthorityState
  pub mechanical_safe : Bool
  pub logical_position : Option (ℤ × ℤ)
  pub pier_side : Option Side
  pub pier_consistent : Bool
  pub ha : Option ℤ
  pub counterweight : CounterweightSafety
  pub capture_pause_required : Bool
  pub tracking_stop_required : Bool
  pub motion_refused : Bool
  pub blockers : List Blocker

abbrev pub is_unknown : MountState → Bool
is_unknown unknown = true
is_unknown _ = false

abbrev pub is_parked : MountState → Bool
is_parked parked = true
is_parked _ = false

abbrev pub is_slewing : MountState → Bool
is_slewing slewing = true
is_slewing _ = false

abbrev pub is_tracking : MountState → Bool
is_tracking tracking = true
is_tracking _ = false

abbrev pub is_trusted : AuthorityState → Bool
is_trusted trusted = true
is_trusted _ = false

abbrev upper : ℕ → ℕ
upper c = if c == b'e' then b'E' else if c == b'w' then b'W' else if c == b'n' then b'N' else c

abbrev one_letter : Text → Option Side
one_letter (c ∷ []) =
    if upper c == b'E' then some east else if upper c == b'W' then some west else none
one_letter _ = none

-- `read_pier_side`, its value
unfoldable pub read_pier_side : M (Option Side)
read_pier_side = do t ← send_text (codes ":Gm#"); return (one_letter (strip t))

-- One axis. An exception is no value; it closes the connection, so no further question is sent.
abbrev axis_value : Sky → Option Text → Option ℤ
axis_value sky none = none
axis_value sky (some t) = sky.number (strip t)

-- `read_onstep_axis_position`, both values
unfoldable pub read_onstep_axis_position : Sky → M (Option ℤ × Option ℤ)
read_onstep_axis_position sky = do
  a ← attempt (send_text (codes ":GX42#"))
  b ← attempt (send_text (codes ":GX43#"))
  return (axis_value sky a, axis_value sky b)

abbrev parsed : Option ℤ → M ℤ
parsed none m = (threw (failed other_error), m)
parsed (some x) m = (returned x, m)

-- `get_position`
unfoldable pub get_position : Sky → M (ℤ × ℤ)
get_position sky = do
  t ← send_text (codes ":GR#")
  ra ← parsed (sky.parse_ra t)
  u ← send_text (codes ":GD#")
  dec ← parsed (sky.parse_dec u)
  return (ra, dec)

-- ((lst - ra + 12.0) % 24.0) - 12.0
abbrev hours_between : ℤ → ℤ → ℤ
hours_between lst ra = pos (mod_ℤ ((lst -ℤ ra) +ℤ pos 180000000) 360000000) -ℤ pos 180000000

unfoldable pub read_hour_angle : Sky → ℤ → M ℤ
read_hour_angle sky ra = do
  t ← send_text (codes ":GS#")
  lst ← parsed (sky.parse_ra t)
  return (hours_between lst ra)

abbrev derived_side : OnStepSafetyConfig → Bool → Option ℤ → Option ℤ → Option Side
derived_side c true (some a) (some b) = some (instrument_to_mount_axes a b c.observer_lat).pier_side
derived_side c _ _ _ = none

-- The side that the controller names, or else the one that follows from the axes.
abbrev chosen_side : Option Side → Option Side → Option Side
chosen_side (some s) derived = some s
chosen_side none derived = derived

abbrev pub consistent : Option Side → Option Side → Bool
consistent (some east) (some west) = false
consistent (some west) (some east) = false
consistent _ _ = true

abbrev pub flag : Bool → Blocker → List Blocker
flag true b = b ∷ []
flag false b = []

abbrev pub is_mechanical : Blocker → Bool
is_mechanical onstep_sidereal_time_unavailable = false
is_mechanical mount_parked = false
is_mechanical mount_already_slewing = false
is_mechanical (violation_reason r) = false
is_mechanical tracking_not_astronomically_safe = false
is_mechanical _ = true

abbrev pub no_blockers : List Blocker → Bool
no_blockers [] = true
no_blockers (b ∷ l) = false

-- The conditions that are asked, in the order of the code.
pub record Conditions : Type 0 where
  pub no_state : Bool
  pub no_position : Bool
  pub no_sidereal : Bool
  pub untrusted : Bool
  pub unclear : Bool
  pub park_failure : Bool
  pub limit : Bool
  pub inconsistent : Bool
  pub no_side : Bool
  pub no_hour : Bool
  pub hard_limit : Bool
  pub down : Bool
  pub moving : Bool

unfoldable pub blockers_of : Conditions → List Blocker
blockers_of k =
    flag k.no_state onstep_status_unavailable
    ++ (flag k.no_position logical_position_unavailable
        ++ (flag k.no_sidereal onstep_sidereal_time_unavailable
            ++ (flag k.untrusted mechanical_position_authority_untrusted
                ++ (flag k.unclear onstep_state_unknown
                    ++ (flag k.park_failure onstep_park_failed
                        ++ (flag k.limit onstep_at_limit
                            ++ (flag k.inconsistent pier_side_axis_inconsistent
                                ++ (flag k.no_side pier_side_unavailable
                                    ++ (flag k.no_hour hour_angle_unavailable
                                        ++ (flag k.hard_limit counterweight_hard_limit
                                            ++ (flag k.down mount_parked
                                                ++ flag k.moving mount_already_slewing)))))))))))

-- What the sample read: the state, or none for an exception; both sides; the position; the hour
-- angle.
pub record Sample : Type 0 where
  pub read_state : Option MountState
  pub direct : Option Side
  pub derived : Option Side
  pub position : Option (ℤ × ℤ)
  pub hour : Option ℤ

abbrev pub state_of : Option MountState → MountState
state_of none = unknown
state_of (some s) = s

abbrev pub at_home_of : Mount → Bool
at_home_of m = decoded (λ k. k.at_home) m || m.at_mechanical_home

abbrev pub down_of : Mount → Sample → Bool
down_of m s = is_parked (state_of s.read_state) || decoded (λ k. k.parked) m

abbrev pub tracks_of : Mount → Sample → Bool
tracks_of m s = decoded (λ k. k.tracking) m || is_tracking (state_of s.read_state)

abbrev pub side_of : Sample → Option Side
side_of s = chosen_side s.direct s.derived

unfoldable pub weight_of : OnStepSafetyConfig → Mount → Option Side → Sample → CounterweightSafety
weight_of c m initial s =
    counterweight_safety_state s.hour (side_of s) c.ha_east_limit c.ha_west_limit
      c.meridian_margin_deg initial (down_of m s || at_home_of m)

unfoldable pub conditions_of : OnStepSafetyConfig → Bool → Mount → Option Side → Sample → Conditions
conditions_of c normal m initial s =
    let terminal = down_of m s || at_home_of m in
    record {
      no_state = is_none s.read_state;
      no_position = is_none s.position;
      no_sidereal = is_some s.position && is_none s.hour;
      untrusted = not (is_trusted (mechanical_position_authority m).state);
      unclear = is_unknown (state_of s.read_state);
      park_failure = decoded (λ k. k.park_failed) m;
      limit = decoded (λ k. k.at_limit) m;
      inconsistent = not (consistent s.direct s.derived);
      no_side = is_none (side_of s) && not terminal;
      no_hour = is_none s.hour && not terminal;
      hard_limit = (weight_of c m initial s).hard_limit_reached;
      down = normal && down_of m s;
      moving = normal && is_slewing (state_of s.read_state);
    }

-- The report on a sample, of the mount behind the read of the state, and of the pier side at the
-- start of the tracking.
unfoldable pub judge_sample : OnStepSafetyConfig → Bool → Mount → Option Side → Sample → Preflight
judge_sample c normal m initial s =
    let weight = weight_of c m initial s in
    let blockers = blockers_of (conditions_of c normal m initial s) in
    record {
      state = state_of s.read_state;
      tracking = tracks_of m s;
      slewing = decoded (λ k. k.slewing) m || is_slewing (state_of s.read_state);
      parked = down_of m s;
      at_home = at_home_of m;
      authority = (mechanical_position_authority m).state;
      mechanical_safe = not (any is_mechanical blockers);
      logical_position = s.position;
      pier_side = side_of s;
      pier_consistent = consistent s.direct s.derived;
      ha = s.hour;
      counterweight = weight;
      capture_pause_required = weight.hard_limit_reached;
      tracking_stop_required = tracks_of m s && weight.hard_limit_reached;
      motion_refused = not (no_blockers blockers);
      blockers = blockers;
    }

abbrev flat : Option (Option Side) → Option Side
flat none = none
flat (some s) = s

-- The side at the start of a tracking is kept when it was not known.
abbrev initial_of : Bool → Option Side → Option Side → Option Side
initial_of tracks (some s) side = some s
initial_of true none side = side
initial_of false none side = none

abbrev hour_of : Sky → Option (ℤ × ℤ) → M (Option ℤ)
hour_of sky none m = (returned none, m)
hour_of sky (some (ra, dec)) m = attempt (read_hour_angle sky ra) m

module _ (sky : Sky) (c : OnStepSafetyConfig) where
  -- The reads of a sample: the mount behind the state, the side at the start, and what was read.
  unfoldable pub take_sample : M (Mount × Option Side × Sample)
  take_sample = do
    state ← attempt get_state
    seen ← gets (λ m. m)
    side ← attempt read_pier_side
    axes ← read_onstep_axis_position sky
    let direct = flat side
    let derived = derived_side c seen.home_confirmed axes.0 axes.1
    let tracks = decoded (λ k. k.tracking) seen || is_tracking (state_of state)
    let initial = initial_of tracks seen.initial_pier_side (chosen_side direct derived)
    modify (λ m. record m { initial_pier_side = initial })
    position ← attempt (get_position sky)
    hour ← hour_of sky position
    return (
      seen,
      initial,
      record {
        read_state = state;
        direct = direct;
        derived = derived;
        position = position;
        hour = hour;
      },
    )

  unfoldable pub motion_safety_preflight : Bool → M Preflight
  motion_safety_preflight normal = do t ← take_sample; return (judge_sample c normal t.0 t.1 t.2)
