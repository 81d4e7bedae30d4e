-- ===== src/Mount/Routes.antt =====
-- onstep_adapter/mount.py: the moves on the sky (goto, sync, tracking) and the stop. The reports
-- keep what the callers decide by.
use on_step_adapter.Base.{
  ℕ, Bool, true, false, ◌&&◌, ◌||◌, not, none, ◌++◌, String, ltb, ◌==◌, is_some, if◌then◌else◌,
}
use on_step_adapter.Base.Int.{ℤ, pos, ◌+ℤ◌, ◌-ℤ◌, mod_ℤ, abs, ltb_ℤ}
use on_step_adapter.Base.Text.{Text, codes, has, is_text}
use on_step_adapter.Outcome.{runtime_error, timeout_error}
use on_step_adapter.Mount.{
  Mount, OnStepSafetyConfig, Sky, SafetySeverity, safety_error, limit_error, failed, returned,
  threw, M, ◌>>=◌, ◌>>◌, return, raise, gets, modify, send_text, fixed_reply, bypass_lock,
}
use on_step_adapter.Mount.Authority.{raise_if_locked, lock_limit}
use on_step_adapter.Mount.State.{
  MountState, unparked, at_limit, get_state, disable_tracking, unrequested,
}
use on_step_adapter.Mount.Preflight.{read_pier_side, get_position, is_parked, is_tracking}
use on_step_adapter.Mount.Target.{check_target_safe, violation, refuse}

-- `except TimeoutError as exc: raise RuntimeError(…)`
abbrev pub busy_as : {A : Type 0} → String → M A → M A
busy_as text m s =
    let (r, s') = m s in
    elim r [
      | returned a ↦ (returned a, s')
      | threw (failed (timeout_error t)) ↦ (threw (failed (runtime_error text)), s')
      | threw e ↦ (threw e, s')
    ]

-- `begin_meridian_tracking_session`, whether it has a side
unfoldable begin_meridian_tracking_session : M Bool
begin_meridian_tracking_session = do
  side ← read_pier_side
  modify (λ m.
      if is_some side
      then record m { initial_pier_side = side; postflip_pier_side = none; flip_completed = false }
      else m)
  return (is_some side)

abbrev requested : Mount → Mount
requested m = record m { tracking_explicitly_requested = true }

unfoldable begin_if : Bool → M (Unit {0})
begin_if true = do begun ← begin_meridian_tracking_session; return tt
begin_if false = return tt

-- A tracking that the controller accepted; the session is begun unless a flip is behind it.
unfoldable accept_tracking : Bool → M Bool
accept_tracking false = return false
accept_tracking true = do
  modify requested
  done ← gets (λ m. m.flip_completed)
  begin_if (not done)
  return true

abbrev pub not_away : MountState → Bool
not_away s = not (is_parked s || is_tracking s)

abbrev is_code : Text → Bool
is_code t = is_text t "4" || is_text t "6"

-- The error that a reply of `:MS#` stands for.
unfoldable pub slew_reason : Text → String
slew_reason t =
    if is_text t "1"
    then "below_horizon_limit"
    else if is_text t "2"
    then "no_object_selected"
    else if is_text t "4"
    then "position_unreachable"
    else if is_text t "5"
    then "not_aligned"
    else if is_text t "6"
    then "outside_limits"
    else "code"

abbrev slew_severity : Text → SafetySeverity
slew_severity t = if is_code t then SafetySeverity.limit_hit else SafetySeverity.blocked

abbrev forget_session : Mount → Mount
forget_session m = record m {
  initial_pier_side = none;
  postflip_pier_side = none;
  flip_completed = false;
}

-- The reply of `:MS#` to a goto: a limit locks the mount.
unfoldable pub judge_slew : Text → M Bool
judge_slew t m = if is_text t "0" then (returned true, m) else (
  threw (limit_error (violation (slew_reason t) "goto" (slew_severity t))),
  if is_code t then lock_limit (slew_reason t) "goto" m else m,
)

-- The guards of `recovery_offset` on the offsets, in µdeg on both axes; 1e-9 is below a unit.
unfoldable check_offset : ℤ → ℤ → ℕ → ℕ → M (Unit {0})
check_offset ra dec max_ra max_dec =
    if ltb max_ra (abs ra) || ltb max_dec (abs dec)
    then refuse "recovery_offset_too_large" "recovery_offset"
    else if abs ra == 0 && abs dec == 0
    then refuse "recovery_offset_empty" "recovery_offset"
    else return tt

unfoldable pub stopped_state : String → String → MountState → M MountState
stopped_state parked_reason command s = elim (is_parked s) [
  | true ↦ λ m. (threw (safety_error (violation parked_reason command SafetySeverity.blocked)), m)
  | false ↦ elim (is_tracking s) [
    | false ↦ return s
    | true ↦ λ m.
        let (r, m1) = disable_tracking m in
        elim r [
          | threw e ↦ (threw e, m1)
          | returned false ↦ (
            threw (
                safety_error
                  (violation "disable_tracking_required" command SafetySeverity.blocked)),
            m1,
          )
          | returned true ↦ (returned s, m1)
        ]
  ]
]

abbrev is_free : MountState → Bool
is_free unparked = true
is_free at_limit = true
is_free _ = false

unfoldable require_free : MountState → M (Unit {0})
require_free s =
    if is_free s then return tt else refuse "recovery_offset_state_invalid" "recovery_offset"

unfoldable again_if : Bool → MountState → M MountState
again_if true s = get_state
again_if false s = return s

abbrev clamp_dec : ℤ → ℤ
clamp_dec x =
    if ltb_ℤ (pos 90000000) x
    then pos 90000000
    else if ltb_ℤ x (pos 0 -ℤ pos 90000000)
    then pos 0 -ℤ pos 90000000
    else x

abbrev judge_offset : Text → M Bool
judge_offset t =
    if is_text t "0"
    then return true
    else raise
        (limit_error (violation "recovery_offset_rejected" "recovery_offset" (slew_severity t)))

-- The target's two coordinates, and a command on them.
unfoldable pub set_target : Sky → ℤ → ℤ → Text → M Text
set_target sky ra dec command = do
  a ← send_text (codes ":Sr" ++ (sky.format_ra ra ++ codes "#"))
  b ← send_text (codes ":Sd" ++ (sky.format_dec dec ++ codes "#"))
  send_text command

unfoldable pub prepare_goto : Bool → Mount → Mount
prepare_goto preserve_meridian_session m =
    record (if preserve_meridian_session then m else forget_session m) {
      at_mechanical_home = false;
    }

module _ (sky : Sky) (c : OnStepSafetyConfig) where
  unfoldable pub goto : ℤ → ℤ → Bool → M Bool
  goto ra dec preserve_meridian_session = do
    check_target_safe sky c "goto" ra dec (pos 0) true
    modify (prepare_goto preserve_meridian_session)
    t ← set_target sky ra dec (codes ":MS#")
    judge_slew t

  unfoldable pub sync : ℤ → ℤ → M Bool
  sync ra dec = do
    check_target_safe sky c "sync" ra dec (pos 0) true
    t ← set_target sky ra dec (codes ":CM#")
    return true

  unfoldable enable_tracking : M Bool
  enable_tracking = do
    at ← get_position sky
    check_target_safe sky c "enable_tracking" at.0 at.1 (pos 250000) true
    t ← busy_as "OnStep serial bus busy during enable_tracking" (fixed_reply (codes ":Te#") 1)
    accept_tracking (is_text t "1")

  unfoldable recovery_offset : ℤ → ℤ → ℕ → ℕ → M Bool
  recovery_offset ra dec max_ra max_dec = do
    s ← get_state
    first ← stopped_state "unpark_before_recovery_offset" "recovery_offset" s
    now ← again_if (is_tracking s) first
    require_free now
    check_offset ra dec max_ra max_dec
    at ← get_position sky
    t ← set_target sky (pos (mod_ℤ (at.0 +ℤ ra) 360000000)) (clamp_dec (at.1 +ℤ dec)) (codes ":MS#")
    judge_offset t

unfoldable enable_tracking_for_autonomous_watch : M Bool
enable_tracking_for_autonomous_watch = do
  raise_if_locked "enable_tracking_for_autonomous_watch" true
  t ←
      busy_as "OnStep serial bus busy during enable_tracking_for_autonomous_watch"
        (fixed_reply (codes ":Te#") 1)
  modify (λ m. if is_text t "1" then requested m else m)
  return (is_text t "1")

unfoldable is_slewing_now : M Bool
is_slewing_now = do t ← send_text (codes ":D#"); return (has b'|' t)

unfoldable pub stop : Mount → Mount
stop m = bypass_lock (codes ":Q#") (unrequested m)
