-- ===== src/Axis.antt =====
-- onstep_adapter/indi_axis_motion.py: finite moves about one axis. Angles are in µdeg, and a
-- right ascension in the angle that it is; times in milliseconds. A tolerance is rounded down to
-- a whole µdeg, which no comparison with a whole number sees. `altitude` stands for the
-- trigonometry of `_projected_altitude`, which is on floats. The lock is the argument `busy`;
-- what the token is told about progress is not modelled, its stop is. An `assert` that fails
-- raises `other_error`.
pub mod Move
pub mod Arrival
pub mod Safety
pub mod Fuel
use on_step_adapter.Base.{
  ℕ, zero, suc, ◌+◌, ◌-◌, ◌*◌, ◌/◌, min, max, Bool, true, false, ◌&&◌, ◌||◌, not, Option, none,
  some, List, [], ◌∷◌, String, any, is_none, ltb, leb, if◌then◌else◌,
}
use on_step_adapter.Base.Int.{ℤ, pos, negsuc, ◌+ℤ◌, ◌-ℤ◌, abs, mod_ℤ, ltb_ℤ, leb_ℤ}
use on_step_adapter.Base.Text.{str_eq}
use on_step_adapter.Outcome.{
  Exc, Outcome, ok, raised, raise_if, value_error, runtime_error, timeout_error, motion_stopped,
  out_of_fuel, other_error,
}
use on_step_adapter.Gu.{Side, east, west}
use on_step_adapter.Policy.{Real, finite, non_finite}
use on_step_adapter.Snapshot.{
  Blocker, indi_device_disconnected, onstep_status_not_fresh, coordinates_not_fresh,
  onstep_status_alert, onstep_status_unavailable, onstep_limit_or_park_fault, onstep_reported_error,
  pier_side_conflict, pier_side_unknown, coordinates_invalid, IndiMountSnapshot,
}
use on_step_adapter.Transport.{Event, World, Io, ◌>>=◌, ◌>>◌, return, raise, when, arrive, at_time}
use on_step_adapter.Requests.{set_switch, issue_switch}
use on_step_adapter.Requests.Values.{issue_numbers}
use on_step_adapter.Status.{half_turn, full_turn}
use on_step_adapter.Watch.{meets}

pub data Axis : Type 0 where
  ra dec : Axis

abbrev pub is_ra : Axis → Bool
is_ra ra = true
is_ra dec = false

pub record IndiAxisMoveResult : Type 0 where
  pub axis : Axis
  pub requested_deg : ℤ
  pub measured_deg : ℤ
  pub initial_ra : ℤ
  pub final_ra : ℤ
  pub initial_dec_deg : ℤ
  pub final_dec_deg : ℤ
  pub pier_side : Side
  pub stop_confirmed : Bool
  pub samples : ℕ

-- `forbidden` of `_check`, without and with the coordinates.
abbrev is_forbidden : Bool → Blocker → Bool
is_forbidden fresh indi_device_disconnected = true
is_forbidden fresh onstep_status_not_fresh = true
is_forbidden fresh onstep_status_alert = true
is_forbidden fresh onstep_status_unavailable = true
is_forbidden fresh onstep_limit_or_park_fault = true
is_forbidden fresh onstep_reported_error = true
is_forbidden fresh pier_side_conflict = true
is_forbidden fresh pier_side_unknown = true
is_forbidden fresh coordinates_not_fresh = fresh
is_forbidden fresh coordinates_invalid = fresh
is_forbidden fresh _ = false

-- `_check`, for a mount that may or may not move already, with or without fresh coordinates.
unfoldable pub check : Bool → Bool → IndiMountSnapshot → Outcome (Unit {0})
check moving fresh s =
    if meets (is_forbidden fresh) s || not s.status_live || (fresh && not s.coordinates_live)
    then raised (runtime_error "Axis motion safety inputs unavailable")
    else if s.at_limit
        || s.parked
        || (s.tracking && not moving)
        || (s.slewing && not moving)
        || is_none s.pier_side
        || (fresh && (is_none s.ra_hours || is_none s.dec_deg))
    then raised (runtime_error "Local axis motion requires fresh unparked, stationary state")
    else ok tt

-- `_ra_axis_delta`: an hour angle grows as the right ascension falls.
unfoldable pub ra_axis_delta : ℤ → ℤ → ℤ
ra_axis_delta initial current =
    pos 0 -ℤ (pos (mod_ℤ (current -ℤ initial +ℤ pos half_turn) full_turn) -ℤ pos half_turn)

-- The axis and the offset of a request that `validate_request` lets pass, and its timeouts.
pub record MoveRequest : Type 0 where
  pub axis : Axis
  pub offset : ℤ
  pub timeout : ℕ
  pub poll : ℕ

abbrev max_axis_move : ℕ
max_axis_move = 10000000

-- The least whole number of µdeg that is not below 30 arcseconds.
abbrev min_axis_move : ℕ
min_axis_move = 8334

abbrev is_known_mode : String → Bool
is_known_mode mode =
    str_eq mode "terrestrial"
    || str_eq mode "sidereal"
    || str_eq mode "lunar"
    || str_eq mode "solar"

abbrev axis_of : String → Option Axis
axis_of name = if str_eq name "ra" then some ra else if str_eq name "dec" then some dec else none

-- A number in a range, or none; also for nan and the infinities.
abbrev pub within : ℕ → ℕ → Real → Option ℕ
within low high non_finite = none
within low high (finite (negsuc n)) = none
within low high (finite (pos n)) = if leb low n && leb n high then some n else none

abbrev offset_of : Real → Option ℤ
offset_of non_finite = none
offset_of (finite x) =
    if leb min_axis_move (abs x) && leb (abs x) max_axis_move then some x else none

-- `validate_request`
unfoldable pub validate_request : String → Real → Real → Real → String → Outcome MoveRequest
validate_request name offset timeout poll mode =
    if not (is_known_mode mode)
    then raised (value_error "Unsupported axis motion mode")
    else if not (str_eq mode "terrestrial")
    then raised (value_error "Finite axis jog currently supports mode='terrestrial' only")
    else elim (axis_of name) [
      | none ↦ raised (value_error "axis must be ra or dec")
      | some axis ↦ elim (offset_of offset) [
        | none ↦ raised (value_error "Axis move must be between 30 arcseconds and 10 degrees")
        | some x ↦ elim (within 1000 60000 timeout) [
          | none ↦ raised (value_error "Axis move timeout must be between 1 and 60 seconds")
          | some t ↦ elim (within 50 250 poll) [
            | none ↦ raised (value_error "Axis move poll interval must be 0.05..0.25 seconds")
            | some q ↦ ok (record { axis = axis; offset = x; timeout = t; poll = q })
          ]
        ]
      ]
    ]

abbrev pub arrival_tolerance : ℤ → ℕ
arrival_tolerance offset = min 50000 (max 2777 (abs offset / 10))

abbrev overrun_tolerance : ℤ → ℕ
overrun_tolerance offset = max 250000 (min 350000 (abs offset * 15 / 100))

-- `delta * (1 if offset_deg > 0 else -1)`
abbrev signed_by : ℤ → ℤ → ℤ
signed_by offset delta = if ltb_ℤ (pos 0) offset then delta else pos 0 -ℤ delta

unfoldable pub pause_until : Bool → ℕ → List (ℕ × Event) → World → Outcome (Unit {0}) × World
pause_until stoppable target [] w = elim (stoppable && w.stop_requested) [
  | true ↦ (raised motion_stopped, w)
  | false ↦ (ok tt, at_time target w)
]
pause_until stoppable target ((t, e) ∷ inbox) w = elim (stoppable && w.stop_requested) [
  | true ↦ (raised motion_stopped, w)
  | false ↦ elim (leb t target) [
    | true ↦
        pause_until stoppable target inbox
          (arrive e (record w { now = max w.now t; inbox = inbox }))
    | false ↦ (ok tt, at_time target w)
  ]
]

-- `time.sleep`, or the token's `sleep`, which wakes and raises as soon as a stop is requested.
unfoldable pub pause : Bool → ℕ → Io (Unit {0})
unfolding pause_until
pause stoppable d w = pause_until stoppable (w.now + d) w.inbox w

abbrev pub same_side : Option Side → Option Side → Bool
same_side (some east) (some east) = true
same_side (some west) (some west) = true
same_side none none = true
same_side _ _ = false

-- Where a move starts: the first observation with its coordinates.
pub record Start : Type 0 where
  pub view : IndiMountSnapshot
  pub ra_hours : ℤ
  pub dec_deg : ℤ
  pub side : Side

-- `delta`, of an observation that has coordinates.
unfoldable pub delta_of : Axis → Start → ℤ → ℤ → ℤ
delta_of ra b ra_hours dec_deg = ra_axis_delta b.ra_hours ra_hours
delta_of dec b ra_hours dec_deg = dec_deg -ℤ b.dec_deg

-- One new reading of the coordinates on the way: an error, or whether the target is reached.
unfoldable pub judge_motion : Axis → ℤ → Start → ℤ → ℤ → Outcome Bool
judge_motion axis offset b ra_hours dec_deg =
    let delta = delta_of axis b ra_hours dec_deg in
    let gone = signed_by offset delta in
    if ltb_ℤ gone (pos 0 -ℤ pos (arrival_tolerance offset))
      || ltb_ℤ (pos (abs offset + overrun_tolerance offset)) gone
    then raised (runtime_error "Axis move reversed or overran its finite target")
    else ok (
        leb (abs (delta -ℤ offset)) (arrival_tolerance offset)
        && (not (is_ra axis) || leb (abs (dec_deg -ℤ b.dec_deg)) 50000))

-- The coordinates of an observation; an `assert` fails where there is none.
abbrev pub coordinates_of : IndiMountSnapshot → Outcome (ℤ × ℤ)
coordinates_of s = elim s.ra_hours [
  | none ↦ raised other_error
  | some a ↦ elim s.dec_deg [ none ↦ raised other_error | some d ↦ ok (a, d) ]
]

-- What an observation on the way says.
pub data Verdict : Type 0 where
  arrived : Verdict
  -- the target is or was seen, and the mount still slews
  braking : Verdict
  stale moved : Verdict

-- The verdict of one observation, and whether it is a new reading of the coordinates.
unfoldable pub judge_view :
    Axis → ℤ → Start → Bool → ℤ → IndiMountSnapshot → Outcome (Bool × Verdict)
judge_view axis offset b seen revision s = elim (check true (not seen) s) [
  | raised e ↦ raised e
  | ok checked ↦
      if not (same_side s.pier_side (some b.side))
      then raised (runtime_error "Pier side changed during axis move")
      else if seen
      then ok (false, if s.slewing then braking else arrived)
      else if leb_ℤ s.coordinates_revision revision
      then ok (false, stale)
      else elim (coordinates_of s) [
        | raised e ↦ raised e
        | ok (ra_hours, dec_deg) ↦ elim (judge_motion axis offset b ra_hours dec_deg) [
          | raised e ↦ raised e
          | ok false ↦ ok (true, moved)
          | ok true ↦ ok (true, if s.slewing then braking else arrived)
        ]
      ]
]
