-- ===== src/Home.antt =====
-- onstep_adapter/indi_home.py: `IndiHomeRouter`. A method returns its result, the field
-- `authority_established` and the world; an exception leaves the field as it was at that point.
-- `stoppable` says whether the call has a MotionToken of its own; NO_STOP never stops.

pub mod Arrival
pub mod Route
use on_step_adapter.Base.{
  ℕ, zero, suc, ◌+◌, ◌-◌, ◌/◌, Bool, true, false, ◌&&◌, ◌||◌, not, Option, none, some, [], ◌∷◌,
  String, leb, ltb, length, if◌then◌else◌,
}
use on_step_adapter.Base.Int.{ℤ}
use on_step_adapter.Base.Text.{Text}
use on_step_adapter.Outcome.{
  Exc, Outcome, ok, raised, is_caught, runtime_error, timeout_error, value_error, motion_stopped,
  out_of_fuel,
}
use on_step_adapter.Gu.{Gu, decode_gu}
use on_step_adapter.Snapshot.{
  Blocker, indi_device_disconnected, onstep_status_alert, onstep_reported_error,
  onstep_limit_or_park_fault, IndiMountSnapshot,
}
use on_step_adapter.Transport.{IndiProperty, World, Io, get_property, revision_of, wait_property}
use on_step_adapter.Requests.{issue_switch, is_alert}
use on_step_adapter.Stop.{IndiStopResult, stop_mount_via_indi, status_text}
use on_step_adapter.Status.{reports_error}
use on_step_adapter.Watch.{meets}

pub data HomeError : Type 0 where
  not_ready : HomeError
  failed : Exc → HomeError
  -- the error, and that of the stop
  stop_failed : Exc → Exc → HomeError

pub record IndiPositionResult : Type 0 where
  pub confirmed : Bool
  pub final_raw_status : Option Text
  pub error : Option HomeError
  pub stop_result : Option IndiStopResult

pub data Stage : Type 0 where
  preflight unparked unpark_stage home_confirmed home : Stage

pub record IndiUnparkResult : Type 0 where
  pub unparked_confirmed : Bool
  pub stage : Stage
  pub final_raw_status : Option Text
  pub error : Option HomeError
  pub stop_result : Option IndiStopResult

pub record IndiHomeRouteResult : Type 0 where
  pub authority_established : Bool
  pub stage : Stage
  pub final_raw_status : Option Text
  pub error : Option HomeError
  pub stop_result : Option IndiStopResult

-- `result` and the field `authority_established` behind a call.
abbrev Routed : Type 0 → Type 0
Routed A = Outcome A × Bool × World

abbrev is_route_blocker : Blocker → Bool
is_route_blocker indi_device_disconnected = true
is_route_blocker onstep_status_alert = true
is_route_blocker onstep_reported_error = true
is_route_blocker onstep_limit_or_park_fault = true
is_route_blocker _ = false

-- `_ready`
unfoldable pub ready : IndiMountSnapshot → Bool
ready s = s.status_live && not s.at_limit && not (meets is_route_blocker s)

-- The three predicates that the routes wait for.
abbrev pub is_parked : Gu → Bool
is_parked g = g.parked && g.not_slewing && not g.tracking && not g.park_failed

abbrev pub is_home : Gu → Bool
is_home g = g.at_home && g.not_parked && g.not_slewing && not g.tracking && not g.park_failed

abbrev is_unparked : Gu → Bool
is_unparked g = g.not_parked && g.not_slewing && not g.park_failed

abbrev pub is_still : Gu → Bool
is_still g = g.not_parked && g.not_slewing && not g.tracking && not g.park_failed

abbrev is_timeout : Exc → Bool
is_timeout (timeout_error _) = true
is_timeout _ = false

unfoldable pub judge_update : IndiProperty → Option Gu → Outcome Gu
judge_update p none = raised (value_error "Compact OnStep :GU# status is required")
judge_update p (some g) =
    if is_alert p.state || reports_error p || g.park_failed || g.at_limit
    then raised (runtime_error "OnStep fault or limit during mechanical route")
    else ok g

-- What one status update says: a decoded status without a fault, or the exception.
unfoldable pub read_update : IndiProperty → Option Text → Outcome Gu
unfolding judge_update
read_update p none = raised (runtime_error "OnStep status is unavailable during mechanical route")
read_update p (some []) =
    raised (runtime_error "OnStep status is unavailable during mechanical route")
read_update p (some (c ∷ t)) = judge_update p (decode_gu (c ∷ t))

abbrev pub step_of : Bool → ℕ → ℕ
step_of stoppable remaining = if stoppable && ltb 100 remaining then 100 else remaining

module _ (device : String) (stoppable : Bool) (wanted : Gu → Bool) (polls deadline : ℕ) where
  -- `_wait_status`, with the last decoded status.
  unfoldable pub wait_status : ℕ → ℕ → ℤ → Option Gu → Io (Option Gu)
  wait_status zero stable revision last w = (raised out_of_fuel, w)
  wait_status (suc fuel) stable revision last w = elim (leb polls stable) [
    | true ↦ (ok last, w)
    | false ↦ elim (stoppable && w.stop_requested) [
      | true ↦ (raised motion_stopped, w)
      | false ↦ elim (leb deadline w.now) [
        | true ↦ (raised (timeout_error "OnStep did not confirm the mechanical route"), w)
        | false ↦
            let step = step_of stoppable (deadline - w.now) in
            let (r, w1) = wait_property device "OnStep Status" step revision w in
            elim r [
              | raised e ↦ elim (is_timeout e && ltb step (deadline - w.now)) [
                | true ↦ wait_status fuel stable revision last w1
                | false ↦ (raised e, w1)
              ]
              | ok p ↦ elim (read_update p (status_text p)) [
                | raised e ↦ (raised e, w1)
                | ok g ↦
                    wait_status fuel (if wanted g then suc stable else 0) p.revision (some g) w1
              ]
            ]
      ]
    ]
  ]

-- Enough rounds: each takes an event, or 100 ms, or is the last.
abbrev pub route_rounds : ℕ → World → ℕ
route_rounds timeout w = length w.inbox + (timeout / 100 + 3)

abbrev last_text : Option IndiProperty → Option Text
last_text none = none
last_text (some p) = status_text p

abbrev raw_of : Option Gu → Option Text
raw_of none = none
raw_of (some g) = some g.raw

-- The `except` block of a move: the mount is stopped.
unfoldable pub stop_after : String → Exc → Option Text → Io IndiPositionResult
stop_after device e raw w = elim (is_caught e) [
  | false ↦ (raised e, w)
  | true ↦
      let (r, w') = stop_mount_via_indi device 3000 5000 w in
      elim r [
        | ok stopped ↦ (
          ok (record {
            confirmed = false;
            final_raw_status = raw;
            error = some (failed e);
            stop_result = some stopped;
          }),
          w',
        )
        | raised x ↦
            if is_caught x
            then (
              ok (record {
                confirmed = false;
                final_raw_status = raw;
                error = some (stop_failed e x);
                stop_result = none;
              }),
              w',
            )
            else (raised x, w')
      ]
]

-- `_move_to_position`
unfoldable pub move_to_position :
    String → Bool → String → String → (Gu → Bool) → ℕ → Io IndiPositionResult
move_to_position device stoppable name element wanted timeout w =
    let current = get_property device "OnStep Status" w in
    let raw = last_text current in
    elim (stoppable && w.stop_requested) [
      | true ↦ (raised motion_stopped, w)
      | false ↦
          let (r, w1) = issue_switch device name element 3000 w in
          elim r [
            | raised e ↦ stop_after device e raw w1
            | ok revision ↦
                let (q, w2) =
                  wait_status device stoppable wanted 2 (w1.now + timeout) (route_rounds timeout w1)
                    0 (revision_of current) none w1 in
                elim q [
                  | raised e ↦ stop_after device e raw w2
                  | ok last ↦ (
                    ok (record {
                      confirmed = true;
                      final_raw_status = raw_of last;
                      error = none;
                      stop_result = none;
                    }),
                    w2,
                  )
                ]
          ]
    ]

abbrev refusal : IndiMountSnapshot → IndiPositionResult
refusal s = record {
  confirmed = false;
  final_raw_status = s.raw_status;
  error = some not_ready;
  stop_result = none;
}

-- `_move_to_home`: the authority follows the result; an exception leaves it.
unfoldable pub move_to_home : String → Bool → ℕ → Bool → World → Routed IndiPositionResult
move_to_home device stoppable timeout authority w =
    let (r, w1) = move_to_position device stoppable "TELESCOPE_HOME" "GO" is_home timeout w in
    elim r [ raised e ↦ (raised e, authority, w1) | ok result ↦ (ok result, result.confirmed, w1) ]

module _ (device : String) (reader : Io IndiMountSnapshot) (stoppable : Bool) (timeout : ℕ) where
  unfoldable pub go_home : Bool → World → Routed IndiPositionResult
  go_home authority w =
      let (r, w1) = reader w in
      elim r [
        | raised e ↦ (raised e, authority, w1)
        | ok s ↦ elim (not (ready s) || s.parked || s.slewing || s.tracking) [
          | true ↦ (ok (refusal s), authority, w1)
          | false ↦ move_to_home device stoppable timeout authority w1
        ]
      ]

  unfoldable pub park : Bool → World → Routed IndiPositionResult
  park authority w =
      let (r, w1) = reader w in
      elim r [
        | raised e ↦ (raised e, authority, w1)
        | ok s ↦ elim (not (ready s) || s.slewing || s.tracking) [
          | true ↦ (ok (refusal s), authority, w1)
          | false ↦ elim s.parked [
            | true ↦ (
              ok (record {
                confirmed = true;
                final_raw_status = s.raw_status;
                error = none;
                stop_result = none;
              }),
              false,
              w1,
            )
            | false ↦
                let (q, w2) =
                  move_to_position device stoppable "TELESCOPE_PARK" "PARK" is_parked timeout w1 in
                (q, false, w2)
          ]
        ]
      ]

-- The status text behind a wait that succeeded.
abbrev raw_or : Option Text → Option Gu → Option Text
raw_or raw none = raw
raw_or raw (some g) = some g.raw

-- `status["tracking"]`
abbrev tracks : Option Gu → Bool
tracks none = false
tracks (some g) = g.tracking

abbrev unpark_result : Bool → Stage → Option Text → IndiUnparkResult
unpark_result confirmed stage raw = record {
  unparked_confirmed = confirmed;
  stage = stage;
  final_raw_status = raw;
  error = none;
  stop_result = none;
}

-- The `except` block of `unpark`.
unfoldable pub unpark_stop : String → Exc → Option Text → Io IndiUnparkResult
unpark_stop device e raw w = elim (is_caught e) [
  | false ↦ (raised e, w)
  | true ↦
      let (r, w') = stop_mount_via_indi device 3000 5000 w in
      elim r [
        | ok stopped ↦ (
          ok (record (unpark_result false unpark_stage raw) {
            error = some (failed e);
            stop_result = some stopped;
          }),
          w',
        )
        | raised x ↦
            if is_caught x
            then (
              ok (record (unpark_result false unpark_stage raw) { error = some (stop_failed e x) }),
              w',
            )
            else (raised x, w')
      ]
]

-- A command and the status that has to follow it, one poll of it.
unfoldable pub command_and_wait : String → String → String → (Gu → Bool) → ℕ → Io (Option Gu)
command_and_wait device name element wanted timeout w =
    let after = revision_of (get_property device "OnStep Status" w) in
    let (r, w1) = issue_switch device name element 3000 w in
    elim r [
      | raised e ↦ (raised e, w1)
      | ok revision ↦
          wait_status device false wanted 1 (w1.now + timeout) (route_rounds timeout w1) 0 after
            none w1
    ]

module _ (device : String) (reader : Io IndiMountSnapshot) where
  -- The second half of `unpark`: tracking that resumed by itself is switched off.
  unfoldable pub untrack : ℕ → Option Text → Io IndiUnparkResult
  untrack timeout raw w =
      let (r, w1) =
        command_and_wait device "TELESCOPE_TRACK_STATE" "TRACK_OFF" is_still timeout w in
      elim r [
        | raised e ↦ unpark_stop device e raw w1
        | ok last ↦ (ok (unpark_result true unparked (raw_or raw last)), w1)
      ]

  unfoldable pub unpark_from : ℕ → Option Text → Io IndiUnparkResult
  unpark_from timeout raw w =
      let (r, w1) = command_and_wait device "TELESCOPE_PARK" "UNPARK" is_unparked timeout w in
      elim r [
        | raised e ↦ unpark_stop device e raw w1
        | ok last ↦ elim (tracks last) [
          | false ↦ (ok (unpark_result true unparked (raw_or raw last)), w1)
          | true ↦ untrack timeout (raw_or raw last) w1
        ]
      ]

  -- `unpark`: the authority is withdrawn before anything else.
  unfoldable pub unpark : ℕ → World → Routed IndiUnparkResult
  unpark timeout w =
      let (r, w1) = reader w in
      elim r [
        | raised e ↦ (raised e, false, w1)
        | ok s ↦ elim (not (ready s) || not s.parked || s.slewing) [
          | true ↦ (
            ok (record (unpark_result false preflight s.raw_status) { error = some not_ready }),
            false,
            w1,
          )
          | false ↦ let (q, w2) = unpark_from timeout s.raw_status w1 in (q, false, w2)
        ]
      ]

  unfoldable pub park_to_home : ℕ → ℕ → World → Routed IndiHomeRouteResult
  park_to_home unpark_timeout home_timeout w =
      let (r, authority, w1) = unpark unpark_timeout w in
      elim r [
        | raised e ↦ (raised e, authority, w1)
        | ok u ↦ elim u.unparked_confirmed [
          | false ↦ (
            ok (record {
              authority_established = false;
              stage = u.stage;
              final_raw_status = u.final_raw_status;
              error = u.error;
              stop_result = u.stop_result;
            }),
            authority,
            w1,
          )
          | true ↦
              let (q, established, w2) = move_to_home device false home_timeout authority w1 in
              elim q [
                | raised e ↦ (raised e, established, w2)
                | ok h ↦ (
                  ok (record {
                    authority_established = h.confirmed;
                    stage = if h.confirmed then home_confirmed else home;
                    final_raw_status = h.final_raw_status;
                    error = h.error;
                    stop_result = h.stop_result;
                  }),
                  established,
                  w2,
                )
              ]
        ]
      ]
