-- ===== src/Focuser.antt =====
-- onstep_adapter/indi_focuser.py: bounded moves of the focuser. `integer` stands for `float` on a
-- text followed by the tests for a finite whole number. The lock has no state; `cancelled` says
-- whether `_cancel_requested` is set, which `move_absolute` clears: in the model it is the world's
-- stop request, which other threads make.
pub mod Travel
use on_step_adapter.Base.{
  ℕ, zero, suc, ◌+◌, ◌-◌, ◌/◌, min, max, Bool, true, false, ◌&&◌, ◌||◌, not, Option, none, some,
  List, [], ◌∷◌, ◌++◌, String, ltb, leb, length, if◌then◌else◌,
}
use on_step_adapter.Base.Int.{ℤ, pos, ltb_ℤ, leb_ℤ}
use on_step_adapter.Base.Text.{Text}
use on_step_adapter.Outcome.{
  Exc, Outcome, ok, raised, is_caught, value_error, runtime_error, timeout_error, out_of_fuel,
}
use on_step_adapter.Transport.{
  IndiProperty, State, busy, World, Io, get_property, is_open, value_of, is_value, revision_of,
  wait_property,
}
use on_step_adapter.Requests.{issue_number, request_switch, is_alert, is_ok, rounds}
use on_step_adapter.Policy.{min_ℤ}

pub data FocuserBlocker : Type 0 where
  indi_device_disconnected focuser_position_unknown focuser_maximum_unknown : FocuserBlocker
  focuser_limit_conflicts_with_position focuser_configured_maximum_missing : FocuserBlocker
  focuser_position_exceeds_configuration focuser_position_stale : FocuserBlocker
  focuser_property_alert : FocuserBlocker

pub record IndiFocuserSnapshot : Type 0 where
  pub position : Option ℤ
  pub driver_maximum : Option ℤ
  pub configured_maximum : Option ℤ
  pub moving : Option Bool
  pub move_ready : Bool
  pub blockers : List FocuserBlocker

pub data FocuserError : Type 0 where
  refused : List FocuserBlocker → FocuserError
  failed : Exc → FocuserError

pub record IndiFocuserMoveResult : Type 0 where
  pub target : ℤ
  pub reached : Bool
  pub final_position : Option ℤ
  pub stop_confirmed : Option Bool
  pub error : Option FocuserError

abbrev pub flag : Bool → FocuserBlocker → List FocuserBlocker
flag true b = b ∷ []
flag false b = []

abbrev pub below : Option ℤ → ℤ → Bool
below none k = true
below (some x) k = ltb_ℤ x k

abbrev exceeds : Option ℤ → Option ℤ → Bool
exceeds (some x) (some limit) = ltb_ℤ limit x
exceeds _ _ = false

abbrev pub is_busy : State → Bool
is_busy busy = true
is_busy _ = false

abbrev pub holds : (IndiProperty → Bool) → Option IndiProperty → Bool
holds check none = false
holds check (some p) = check p

abbrev is_clear : List FocuserBlocker → Bool
is_clear [] = true
is_clear (b ∷ l) = false

abbrev pub is_moving : Option Bool → Bool
is_moving (some true) = true
is_moving _ = false

abbrev pub same_position : Option ℤ → Option ℤ → Bool
same_position (some a) (some b) = leb_ℤ a b && leb_ℤ b a
same_position none none = true
same_position _ _ = false

-- The blockers, of what the method reads: the connection, both properties as integers, the limit
-- of the configuration, whether the position is stale and whether one of the two properties is an
-- alert.
unfoldable pub blockers_of :
    Bool → Option ℤ → Option ℤ → Option ℤ → Bool → Bool → List FocuserBlocker
blockers_of connected position maximum configured stale alerts =
    flag (not connected) indi_device_disconnected
    ++ (flag (below position (pos 0)) focuser_position_unknown
        ++ (flag (below maximum (pos 1)) focuser_maximum_unknown
            ++ (flag (exceeds position maximum) focuser_limit_conflicts_with_position
                ++ (flag (same_position configured none) focuser_configured_maximum_missing
                    ++ (flag (exceeds position configured) focuser_position_exceeds_configuration
                        ++ (flag stale focuser_position_stale
                            ++ flag alerts focuser_property_alert))))))

module _ (integer : Text → Option ℤ) (device : String) (configured : Option ℤ) where
  -- `_integer`
  unfoldable pub integer_of : Option IndiProperty → String → Option ℤ
  integer_of none element = none
  integer_of (some p) element = elim (value_of p.values element) [
    | none ↦ none
    | some t ↦ integer t
  ]

  unfoldable pub get_status : World → IndiFocuserSnapshot
  get_status w =
      let connection = get_property device "CONNECTION" w in
      let position_prop = get_property device "ABS_FOCUS_POSITION" w in
      let max_prop = get_property device "FOCUS_MAX" w in
      let position = integer_of position_prop "FOCUS_ABSOLUTE_POSITION" in
      let maximum = integer_of max_prop "FOCUS_MAX_VALUE" in
      let found =
        blockers_of (is_open w && holds (λ p. is_value p.values "CONNECT" "On") connection) position
          maximum configured (not (holds (λ p. leb (w.now - p.received_at) 3000) position_prop))
          (holds (λ p. is_alert p.state) position_prop || holds (λ p. is_alert p.state) max_prop) in
      let moving : Option Bool = elim position_prop [
        | none ↦ none
        | some p ↦ some (is_busy p.state)
      ] in
      record {
        position = position;
        driver_maximum = maximum;
        configured_maximum = configured;
        moving = moving;
        move_ready = is_clear found && not (is_moving moving);
        blockers = found;
      }

  -- `_stop_unlocked`, its loop, from the polls and the position before.
  unfoldable pub stop_loop : ℕ → ℕ → ℤ → Option ℤ → ℕ → Io Bool
  stop_loop zero deadline revision previous stable w = (raised out_of_fuel, w)
  stop_loop (suc fuel) deadline revision previous stable w = elim (leb 2 stable) [
    | true ↦ (ok true, w)
    | false ↦ elim (leb deadline w.now) [
      | true ↦ (ok false, w)
      | false ↦
          let (r, w1) = wait_property device "ABS_FOCUS_POSITION" (deadline - w.now) revision w in
          elim r [
            | raised (timeout_error t) ↦ (ok false, w1)
            | raised e ↦ (raised e, w1)
            | ok p ↦ elim (integer_of (some p) "FOCUS_ABSOLUTE_POSITION") [
              | none ↦ (ok false, w1)
              | some x ↦ elim (is_alert p.state) [
                | true ↦ (ok false, w1)
                | false ↦
                    stop_loop fuel deadline p.revision (some x)
                      (if is_ok p.state && same_position (some x) previous then suc stable else 0)
                      w1
              ]
            ]
          ]
    ]
  ]

  unfoldable pub stop_unlocked : ℕ → Io Bool
  stop_unlocked timeout w =
      let revision = revision_of (get_property device "ABS_FOCUS_POSITION" w) in
      let (r, w1) = request_switch device "FOCUS_ABORT_MOTION" "ABORT" timeout w in
      elim r [
        | raised e ↦ (raised e, w1)
        | ok p ↦ stop_loop (suc (suc (rounds w1))) (w1.now + timeout) revision none 0 w1
      ]

  -- `stop`
  unfoldable pub stop : ℕ → Io Bool
  stop timeout w = stop_unlocked timeout (record w { stop_requested = true })

  -- What one update of a move says: an error, or whether the target is reached and acknowledged.
  unfoldable pub judge_position : ℤ → IndiProperty → Option ℤ → Option ℤ → Outcome (ℤ × Bool)
  judge_position target p none latest = raised (runtime_error "Focuser position update is invalid")
  judge_position target p (some x) latest =
      if is_alert p.state
      then raised (runtime_error "Focuser position update is invalid")
      else if below latest (if ltb_ℤ target x then x else target)
      then raised (runtime_error "Focuser limit became inconsistent during move")
      else ok (x, same_position (some x) (some target) && is_ok p.state)

  -- The loop of `move_absolute`, from the polls so far; it returns the final position.
  unfoldable pub move_loop : ℤ → ℕ → ℕ → ℤ → ℕ → Option ℤ → Io (Option ℤ)
  move_loop target deadline zero revision stable final w = (raised out_of_fuel, w)
  move_loop target deadline (suc fuel) revision stable final w = elim (leb 2 stable) [
    | true ↦ (ok final, w)
    | false ↦ elim w.stop_requested [
      | true ↦ (raised (runtime_error "Focuser move cancelled"), w)
      | false ↦ elim (leb deadline w.now) [
        | true ↦ (raised (timeout_error "Focuser target was not confirmed"), w)
        | false ↦
            let (r, w1) =
              wait_property device "ABS_FOCUS_POSITION" (min (deadline - w.now) 500) revision w in
            elim r [
              | raised (timeout_error t) ↦ move_loop target deadline fuel revision stable final w1
              | raised e ↦ (raised e, w1)
              | ok p ↦
                  elim (judge_position target p (integer_of (some p) "FOCUS_ABSOLUTE_POSITION")
                    (integer_of (get_property device "FOCUS_MAX" w1) "FOCUS_MAX_VALUE")) [
                      | raised e ↦ (raised e, w1)
                      | ok (x, there) ↦
                          move_loop target deadline fuel p.revision
                            (if there then suc stable else 0) (some x) w1
                    ]
            ]
      ]
    ]
  ]

  abbrev move_result :
      ℤ → Bool → Option ℤ → Option Bool → Option FocuserError → IndiFocuserMoveResult
  move_result target reached final stopped error = record {
    target = target;
    reached = reached;
    final_position = final;
    stop_confirmed = stopped;
    error = error;
  }

  -- The `except` block: a stop that fails counts as not confirmed.
  unfoldable pub give_up : ℤ → Exc → Io IndiFocuserMoveResult
  give_up target e w = elim (is_caught e) [
    | false ↦ (raised e, w)
    | true ↦
        let (r, w1) = stop_unlocked 5000 w in
        elim r [
          | ok stopped ↦ (ok (move_result target false none (some stopped) (some (failed e))), w1)
          | raised x ↦
              if is_caught x
              then (ok (move_result target false none (some false) (some (failed e))), w1)
              else (raised x, w1)
        ]
  ]

  -- Enough rounds: each takes an event, or 500 ms, or is the last.
  abbrev pub move_rounds : ℕ → World → ℕ
  move_rounds timeout w = length w.inbox + (timeout / 500 + 5)

  -- The `try` block.
  unfoldable pub move_to : ℤ → ℕ → Io IndiFocuserMoveResult
  move_to target timeout w =
      let revision = revision_of (get_property device "ABS_FOCUS_POSITION" w) in
      let (r, w1) =
        issue_number device "ABS_FOCUS_POSITION" "FOCUS_ABSOLUTE_POSITION" target 3000 w in
      elim r [
        | raised e ↦ give_up target e w1
        | ok sent ↦
            let (q, w2) =
              move_loop target (w1.now + timeout) (move_rounds timeout w1) revision 0 none w1 in
            elim q [
              | raised e ↦ give_up target e w2
              | ok final ↦ (ok (move_result target true final none none), w2)
            ]
      ]

  unfoldable pub outside : ℤ → Option ℤ → Option ℤ → Bool
  outside target (some driver) (some limit) =
      ltb_ℤ target (pos 0) || ltb_ℤ (min_ℤ driver limit) target
  outside _ _ _ = true

  -- `move_absolute` with a positive, finite timeout. The limits of a focuser that is ready are
  -- known.
  unfoldable pub move_absolute : ℤ → ℕ → Io IndiFocuserMoveResult
  move_absolute target timeout w =
      let w0 = record w { stop_requested = false } in
      let before = get_status w0 in
      elim before.move_ready [
        | false ↦ (
          ok (move_result target false before.position none (some (refused before.blockers))),
          w0,
        )
        | true ↦ elim (outside target before.driver_maximum before.configured_maximum) [
          | true ↦ (raised (value_error "Focuser target exceeds confirmed travel limits"), w0)
          | false ↦ elim (same_position (some target) before.position) [
            | true ↦ (ok (move_result target true (some target) none none), w0)
            | false ↦ move_to target timeout w0
          ]
        ]
      ]
