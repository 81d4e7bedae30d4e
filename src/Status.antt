-- ===== src/Status.antt =====
-- onstep_adapter/indi_status.py: `IndiStatusReader`, which turns the property store into one
-- observation. Parameters are Python's `float` on a text (in millionths) and the local sidereal
-- time of `local_sidereal_hours` at a clock reading (in µdeg; `none` if the clock has no time
-- zone); the two callbacks are the values that they return.
pub mod Evidence
use on_step_adapter.Base.{
  ℕ, ◌-◌, Bool, true, false, ◌&&◌, ◌||◌, not, Option, none, some, List, [], ◌∷◌, ◌++◌, String, leb,
  is_none, if◌then◌else◌,
}
use on_step_adapter.Base.Int.{ℤ, pos, negsuc, ◌+ℤ◌, ◌-ℤ◌, scale, mod_ℤ, abs, leb_ℤ, ltb_ℤ}
use on_step_adapter.Base.Text.{Text, str_eq, is_text}
use on_step_adapter.Gu.{Gu, Side, east, west, MotionState, unknown}
use on_step_adapter.Policy.{Real, finite, non_finite}
use on_step_adapter.Snapshot.{
  Blocker, indi_device_disconnected, onstep_status_not_fresh, coordinates_not_fresh,
  onstep_status_alert, onstep_status_unavailable, onstep_limit_or_park_fault, onstep_reported_error,
  pier_side_conflict, pier_side_unknown, coordinates_invalid, time_site_authority_unestablished,
  hour_angle_unavailable, mechanical_terminal_state, home_authority_unestablished,
  IndiMountSnapshot, same_blocker,
}
use on_step_adapter.Transport.{
  IndiProperty, World, get_property, is_open, value_of, is_value, revision_of,
}
use on_step_adapter.Requests.{is_alert}
use on_step_adapter.Stop.{decoded_of, status_text}

-- `_initial_revisions`
abbrev pub Revisions : Type 0
Revisions = List (String × ℤ)

unfoldable pub first_seen : Revisions → String → Option ℤ
first_seen [] name = none
first_seen ((n, r) ∷ seen) name = if str_eq n name then some r else first_seen seen name

-- `_initial_revisions.setdefault(name, revision)`: the value, and the dictionary after it.
unfoldable pub set_default : Revisions → String → ℤ → ℤ × Revisions
unfolding first_seen
set_default seen name revision = elim (first_seen seen name) [
  | some r ↦ (r, seen)
  | none ↦ (revision, (name, revision) ∷ seen)
]

-- `_live`: whether the reading is live, its age, and the dictionary after the call.
unfoldable pub live : ℕ → ℕ → Revisions → String → Option IndiProperty → Bool × Option ℕ × Revisions
live max_age now seen name none = (false, none, seen)
live max_age now seen name (some p) =
    let (first, seen') = set_default seen name p.revision in
    let age = now - p.received_at in (ltb_ℤ first p.revision && leb age max_age, some age, seen')

-- A value in millionths that lies in the range, else none.
abbrev in_range : ℤ → ℤ → Option Real → Option ℤ
in_range low high none = none
in_range low high (some non_finite) = none
in_range low high (some (finite x)) = if leb_ℤ low x && leb_ℤ x high then some x else none

abbrev bind_text : (Text → Option Real) → Option Text → Option Real
bind_text float none = none
bind_text float (some t) = float t

-- `_number`
unfoldable pub number : (Text → Option Real) → Option IndiProperty → String → ℤ → ℤ → Option ℤ
number float none name low high = none
number float (some p) name low high = in_range low high (bind_text float (value_of p.values name))

abbrev pub half_turn : ℕ
half_turn = 180000000

abbrev pub full_turn : ℕ
full_turn = 360000000

-- ((lst - ra_hours + 12.0) % 24.0 - 12.0) * 15.0
unfoldable pub hour_angle : ℤ → ℤ → ℤ
hour_angle lst ra = pos (mod_ℤ (lst -ℤ ra +ℤ pos half_turn) full_turn) -ℤ pos half_turn

abbrev pub flag : Bool → Blocker → List Blocker
flag true b = b ∷ []
flag false b = []

without : Blocker → List Blocker → List Blocker
without b [] = []
without b (c ∷ l) = if same_blocker b c then without b l else c ∷ without b l

-- `tuple(dict.fromkeys(blockers))`
unfoldable pub from_keys : List Blocker → List Blocker
unfolding without
from_keys [] = []
from_keys (b ∷ l) = b ∷ without b (from_keys l)

abbrev pub holds : (Gu → Bool) → Option Gu → Bool
holds field none = false
holds field (some g) = field g

abbrev pub state_of : Option Gu → MotionState
state_of none = unknown
state_of (some g) = g.motion_state

abbrev pub side_of : Option Gu → Option Side
side_of none = none
side_of (some g) = g.pier_side

-- `values.get("Error", "None") not in {"None", "", "0"}`
unfoldable pub reports_error : IndiProperty → Bool
reports_error p = elim (value_of p.values "Error") [
  | none ↦ false
  | some t ↦ not (is_text t "None" || is_text t "" || is_text t "0")
]

abbrev pub is_connected : Option IndiProperty → Bool
is_connected none = false
is_connected (some p) = is_value p.values "CONNECT" "On"

abbrev pub test : (IndiProperty → Bool) → Option IndiProperty → Bool
test check none = false
test check (some p) = check p

-- The side that TELESCOPE_PIER_SIDE reports.
unfoldable pub reported_side : IndiProperty → Option Side
reported_side p =
    if is_value p.values "PIER_EAST" "On"
    then some east
    else if is_value p.values "PIER_WEST" "On"
    then some west
    else none

abbrev differs : Option Side → Option Side → Bool
differs (some east) (some west) = true
differs (some west) (some east) = true
differs _ _ = false

unfoldable pub conflicts : Bool → Option IndiProperty → Option Side → Bool
conflicts true (some p) side = differs (reported_side p) side
conflicts _ _ side = false

-- What `read` gathers before it decides: the four properties, judged.
pub record Inputs : Type 0 where
  pub connected : Bool
  pub status_live : Bool
  pub coordinates_live : Bool
  pub status_alert : Bool
  pub reported_error : Bool
  pub conflict : Bool
  pub decoded : Option Gu
  pub ra_hours : Option ℤ
  pub dec_deg : Option ℤ
  pub ha_deg : Option ℤ
  pub authority : Bool
  pub authority_home : Bool

unfoldable pub blockers_of : Inputs → List Blocker
blockers_of i = from_keys (
    flag (not i.connected) indi_device_disconnected
    ++ (flag (not i.status_live) onstep_status_not_fresh
        ++ (flag (not i.coordinates_live) coordinates_not_fresh
            ++ (flag i.status_alert onstep_status_alert
                ++ (flag (is_none i.decoded) onstep_status_unavailable
                    ++ (flag
                          (holds (λ g. g.at_limit) i.decoded
                            || holds (λ g. g.park_failed) i.decoded)
                          onstep_limit_or_park_fault
                        ++ (flag i.reported_error onstep_reported_error
                            ++ (flag i.conflict pier_side_conflict
                                ++ (flag (is_none (side_of i.decoded)) pier_side_unknown
                                    ++ (flag (is_none i.ra_hours || is_none i.dec_deg)
                                          coordinates_invalid
                                        ++ (flag (not i.authority) time_site_authority_unestablished
                                            ++ (flag (is_none i.ha_deg) hour_angle_unavailable
                                                ++ (flag
                                                      (holds (λ g. g.parked) i.decoded
                                                        || holds (λ g. g.at_home) i.decoded)
                                                      mechanical_terminal_state
                                                    ++ flag (not i.authority_home)
                                                        home_authority_unestablished)))))))))))))

abbrev distance : Option ℤ → Option ℕ
distance none = none
distance (some a) = some (abs a)

abbrev scaled : Option ℤ → Option ℤ
scaled none = none
scaled (some x) = some (scale 15 x)

-- The hour angle, where the baseline is accepted and the coordinates are live and valid.
unfoldable pub angle_of : Bool → Bool → Option ℤ → Option ℤ → Option ℤ
angle_of true true (some ra) (some lst) = some (hour_angle lst ra)
angle_of _ _ _ _ = none

unfoldable pub snapshot_of :
    Inputs → Option IndiProperty → Option IndiProperty → Option ℕ → Option ℕ → IndiMountSnapshot
snapshot_of i status coords status_age coords_age = record {
  raw_status = elim status [ none ↦ none | some p ↦ status_text p ];
  motion_state = state_of i.decoded;
  pier_side = side_of i.decoded;
  ra_hours = i.ra_hours;
  dec_deg = i.dec_deg;
  ha_deg = i.ha_deg;
  meridian_distance_deg = distance i.ha_deg;
  tracking = holds (λ g. g.tracking) i.decoded;
  slewing = holds (λ g. g.slewing) i.decoded;
  parked = holds (λ g. g.parked) i.decoded;
  at_home = holds (λ g. g.at_home) i.decoded;
  at_limit = holds (λ g. g.at_limit) i.decoded;
  status_age_ms = status_age;
  coordinates_age_ms = coords_age;
  status_live = i.status_live;
  coordinates_live = i.coordinates_live;
  time_site_authority = i.authority;
  home_authority = i.authority_home;
  mechanical_safe = false;
  motion_refused = true;
  blockers = blockers_of i;
  status_revision = revision_of status;
  coordinates_revision = revision_of coords;
  guiding = holds (λ g. g.guiding) i.decoded;
}

module _ (float : Text → Option Real) (lst : ℕ → Option ℤ) (device : String) (max_age : ℕ) where
  -- `read`: the snapshot, and `_initial_revisions` after it.
  unfoldable pub read : Bool → Bool → Revisions → World → IndiMountSnapshot × Revisions
  unfolding live number snapshot_of
  read authority authority_home seen w =
      let status = get_property device "OnStep Status" w in
      let coords = get_property device "EQUATORIAL_EOD_COORD" w in
      let pier = get_property device "TELESCOPE_PIER_SIDE" w in
      let (status_live, status_age, seen1) = live max_age w.now seen "OnStep Status" status in
      let (coords_live, coords_age, seen2) =
        live max_age w.now seen1 "EQUATORIAL_EOD_COORD" coords in
      let (pier_live, pier_age, seen3) = live max_age w.now seen2 "TELESCOPE_PIER_SIDE" pier in
      let decoded = decoded_of (elim status [ none ↦ none | some p ↦ status_text p ]) in
      let ra = scaled (number float coords "RA" (pos 0) (pos 24000000)) in
      let inputs : Inputs = record {
        connected = is_open w && is_connected (get_property device "CONNECTION" w);
        status_live = status_live;
        coordinates_live = coords_live;
        status_alert = test (λ p. is_alert p.state) status;
        reported_error = test reports_error status;
        conflict = conflicts pier_live pier (side_of decoded);
        decoded = decoded;
        ra_hours = ra;
        dec_deg = number float coords "DEC" (negsuc 89999999) (pos 90000000);
        ha_deg = angle_of authority coords_live ra (lst w.now);
        authority = authority;
        authority_home = authority_home;
      } in
      (snapshot_of inputs status coords status_age coords_age, seen3)
