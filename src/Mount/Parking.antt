-- ===== src/Mount/Parking.antt =====
-- onstep_adapter/mount.py: the recovery from park and the mechanical routes to HOME and PARK. The
-- reports keep what the callers decide by.
use on_step_adapter.Base.{
  ℕ, suc, ◌+◌, ◌/◌, Bool, true, false, ◌&&◌, some, String, if◌then◌else◌, max,
}
use on_step_adapter.Base.Int.{pos}
use on_step_adapter.Base.Text.{Text, codes, is_text}
use on_step_adapter.Outcome.{timeout_error}
use on_step_adapter.Mount.{
  Mount, failed, returned, threw, M, ◌>>=◌, ◌>>◌, return, gets, modify, fixed_reply, no_reply,
  slept, decoded,
}
use on_step_adapter.Mount.Authority.{raise_if_locked}
use on_step_adapter.Mount.State.{
  MountState, unknown, parked, tracking, get_state, disable_tracking, wait_for_status_flag,
  unrequested,
}
use on_step_adapter.Mount.Routes.{busy_as, stopped_state, not_away}

abbrev unpark_reply : String → M Text
unpark_reply text = busy_as text (fixed_reply (codes ":hR#") 1)

unfoldable pub state_after : Bool → M Bool
state_after true = return false
state_after false = do modify (slept 200); s ← get_state; return (not_away s)

unfoldable pub unpark : M Bool
unpark = do
  raise_if_locked "unpark" true
  modify unrequested
  t ← unpark_reply "OnStep serial bus busy during unpark"
  state_after (is_text t "0")

-- The second look of a recovery, behind the end of a tracking.
unfoldable pub settle : MountState → M MountState
settle tracking = do done ← disable_tracking; modify (slept 200); get_state
settle s = return s

-- `recovery_unpark_stop_tracking`, its `ok`
unfoldable recovery_unpark_stop_tracking : M Bool
recovery_unpark_stop_tracking = do
  raise_if_locked "recovery_unpark_stop_tracking" true
  t ← unpark_reply "OnStep serial bus busy during recovery unpark"
  modify unrequested
  modify (slept 200)
  s ← get_state
  final ← settle s
  return (not_away final)

-- `return_home_mechanical`; `go_home` is its `ok`, which is true where it returns.
unfoldable return_home_mechanical : M Bool
return_home_mechanical = do
  raise_if_locked "return_home_mechanical" true
  s ← get_state
  stopped ← stopped_state "unpark_before_return_home" "return_home_mechanical" s
  busy_as "OnStep serial bus busy during return_home_mechanical" (no_reply (codes ":hC#"))
  return true

-- The rounds of a wait: each takes a pause.
abbrev wait_rounds : ℕ → ℕ → ℕ
wait_rounds timeout poll = suc (suc (timeout / max 1 poll))

abbrev wait_at_home : ℕ → ℕ → M (Bool × MountState)
wait_at_home timeout poll m =
    wait_for_status_flag (wait_rounds timeout poll) (λ k. k.at_home) true poll (m.bus.now + timeout)
      unknown m

abbrev arrived : Mount → Mount
arrived m = record m { at_mechanical_home = true; mechanical_axis_position = some (pos 0, pos 0) }

unfoldable unpark_to_home_stop_tracking : ℕ → ℕ → M Bool
unpark_to_home_stop_tracking timeout poll = do
  started ← recovery_unpark_stop_tracking
  commanded ← return_home_mechanical
  home ← wait_at_home timeout poll
  modify (λ m. if home.0 then arrived m else m)
  return (started && commanded && home.0)

abbrev parked_now : Mount → Mount
parked_now m = record (unrequested m) { at_mechanical_home = false }

-- `park`: a busy connection is a command that was not accepted.
unfoldable pub park : M Bool
park m =
    let (r, m1) = raise_if_locked "park" true m in
    elim r [
      | threw e ↦ (threw e, m1)
      | returned u ↦
          let (q, m2) = fixed_reply (codes ":hP#") 1 m1 in
          elim q [
            | threw (failed (timeout_error t)) ↦ (returned false, m2)
            | threw e ↦ (threw e, m2)
            | returned t ↦
                if is_text t "1" then (returned true, parked_now m2) else (returned false, m2)
          ]
    ]

abbrev end_tracking : MountState → M Bool
end_tracking tracking = disable_tracking
end_tracking s = return true

-- The way to HOME that `park_via_home` takes from any other place.
unfoldable home_first : Bool → MountState → ℕ → ℕ → M Bool
home_first true s timeout poll = return true
home_first false s timeout poll = do
  stopped ← end_tracking s
  commanded ← return_home_mechanical
  home ← wait_at_home timeout poll
  return home.0

unfoldable park_from_home : Bool → ℕ → ℕ → ℕ → M Bool
park_from_home false settle_ms timeout poll = return false
park_from_home true settle_ms timeout poll = do
  modify (slept settle_ms)
  accepted ← park
  deadline ← gets (λ m. m.bus.now + timeout)
  down ← wait_for_status_flag (wait_rounds timeout poll) (λ k. k.parked) false poll deadline unknown
  return down.0

unfoldable route_to_park : ℕ → ℕ → ℕ → MountState → M Bool
route_to_park timeout poll settle_ms parked = return true
route_to_park timeout poll settle_ms s = do
  here ← gets (decoded (λ k. k.at_home))
  home ← home_first here s timeout poll
  park_from_home home settle_ms timeout poll

-- `park_via_home`, its `ok`
unfoldable park_via_home : ℕ → ℕ → ℕ → M Bool
park_via_home timeout poll settle_ms = do s ← get_state; route_to_park timeout poll settle_ms s
