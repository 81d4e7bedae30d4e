-- ===== src/Tests.antt =====
-- The data that the concrete runs of the model share.
pub mod Boundaries
pub mod Captures
pub mod Wire
pub mod Moves
pub mod Devices
pub mod Readings
pub mod Motions
pub mod Sessions
pub mod Starts
pub mod Serials
pub mod Slews
pub mod Mounts
pub mod Locks
pub mod Ports
use on_step_adapter.Base.{
  ℕ, ◌+◌, ◌≤◌, ◌<◌, ◌≡◌, ◌↔◌, ◌⊎◌, refl, inl, inr, Bool, true, false, ◌||◌, Option, none, some,
  List, [], ◌∷◌, String, ltb, all, sum, length,
}
use on_step_adapter.Base.Int.{ℤ, pos, negsuc, ◌-ℤ◌, ◌≤ℤ◌}
use on_step_adapter.Base.Text.{Text, codes}
use on_step_adapter.Outcome.{Exc, Outcome, ok, raised, timeout_error}
use on_step_adapter.Gu.{Gu, Side, east, west, MotionState, tracking, decode_gu, flags_of, accepts}
use on_step_adapter.Gu.Format.{Coherent}
use on_step_adapter.Snapshot.{IndiMountSnapshot}
use on_step_adapter.Policy.{MeridianPolicy, sidereal_seconds}
use on_step_adapter.Meridian.{
  Phase, pre_meridian_allowed, hard_stop, IndiMeridianState, classify_meridian, lacks_authority,
}
use on_step_adapter.Meridian.Stops.{
  AtFirmwareLimit, PastHardStop, classify_meridian_stop_sound, classify_meridian_stop_complete,
}
use on_step_adapter.Transport.{
  Kind, switch_kind, text_kind, State, ok_state, idle, Permission, writable, read_only,
  IndiProperty, Vector, Event, vector, World,
}

-- A status property, a switch property and the vectors that update them.
abbrev pub status_property : Text → ℤ → IndiProperty
status_property text revision = record {
  device = "OnStep";
  name = "OnStep Status";
  kind = text_kind;
  state = ok_state;
  permission = read_only;
  values = (":GU# return", text) ∷ [];
  received_at = 0;
  revision = revision;
}

abbrev pub switch_property : String → String → IndiProperty
switch_property name element = record {
  device = "OnStep";
  name = name;
  kind = switch_kind;
  state = idle;
  permission = writable;
  values = (element, codes "Off") ∷ [];
  received_at = 0;
  revision = pos 1;
}

abbrev pub status_update : Text → Event
status_update text = vector (record {
  device = some "OnStep";
  name = some "OnStep Status";
  kind = text_kind;
  state = some ok_state;
  permission = none;
  values = (":GU# return", text) ∷ [];
})

abbrev pub switch_update : String → String → Event
switch_update name element = vector (record {
  device = some "OnStep";
  name = some name;
  kind = switch_kind;
  state = some ok_state;
  permission = none;
  values = (element, codes "On") ∷ [];
})

-- An unparked mount that stands still, and the same at HOME.
abbrev pub still : Text
still = codes "nNpET060"

abbrev pub still_home : Text
still_home = codes "nNpHET060"

-- A writable property and an update of it that reports success.
abbrev pub writable_property : Kind → String → List (String × Text) → IndiProperty
writable_property kind name values = record {
  device = "OnStep";
  name = name;
  kind = kind;
  state = idle;
  permission = writable;
  values = values;
  received_at = 0;
  revision = pos 1;
}

abbrev pub value_update : Kind → String → List (String × Text) → Event
value_update kind name values = vector (record {
  device = some "OnStep";
  name = some name;
  kind = kind;
  state = some ok_state;
  permission = none;
  values = values;
})

abbrev pub world_with : List IndiProperty → List (ℕ × Event) → World
world_with properties inbox = record {
  now = 0;
  properties = properties;
  closed = false;
  has_socket = true;
  failure = false;
  reader_alive = true;
  last_revision = 10;
  stop_requested = false;
  inbox = inbox;
  send_faults = [];
  sent = [];
}

-- One observation: east of the pier, tracking, with full evidence.
abbrev seen_at : ℤ → IndiMountSnapshot
seen_at ha = record {
  raw_status = some (codes "NpET060");
  motion_state = tracking;
  pier_side = some east;
  ra_hours = some (pos 0);
  dec_deg = some (pos 0);
  ha_deg = some ha;
  meridian_distance_deg = none;
  tracking = true;
  slewing = false;
  parked = false;
  at_home = false;
  at_limit = false;
  status_age_ms = some 0;
  coordinates_age_ms = some 0;
  status_live = true;
  coordinates_live = true;
  time_site_authority = true;
  home_authority = true;
  mechanical_safe = false;
  motion_refused = false;
  blockers = [];
  status_revision = pos 0;
  coordinates_revision = pos 0;
  guiding = false;
}

-- Boundaries at 2 and 4 degrees, below a guard at 5.
abbrev pub boundaries : MeridianPolicy
boundaries = record {
  firmware_guard_deg = pos 5000000;
  flip_request_deg = pos 2000000;
  hard_stop_deg = pos 4000000;
  seconds_flip_to_stop = sidereal_seconds (pos 2000000);
  max_exposure_seconds_at_flip = sidereal_seconds (pos 2000000);
  flip_allowance_seconds = pos 0;
  reserve_seconds = pos 0;
}

-- Before the meridian, and past the hard boundary.
abbrev pub early : IndiMountSnapshot
early = seen_at (negsuc 999999)

abbrev pub late : IndiMountSnapshot
late = seen_at (pos 4500000)
