-- ===== src/Mount/Ends.antt =====
-- onstep_adapter/mount.py: reading the state, stopping the tracking and waiting for a flag end,
-- and the model's inner calls are those of the code.
use on_step_adapter.Base.{
  ℕ, zero, suc, ◌+◌, ◌*◌, ◌/◌, ◌≤◌, ◌<◌, Bool, true, false, ◌≡◌, refl, arith, inl, inr,
}
use on_step_adapter.Base.Text.{Text, codes}
use on_step_adapter.Serial.Status.{OnstepStatus}
use on_step_adapter.Mount.{Mount, M, out_of_fuel, threw, Run-cases, send_text, slept}
use on_step_adapter.Mount.Authority.{invalidate_mechanical_trust, lock_limit}
use on_step_adapter.Mount.State.{
  MountState, DisableResult, get_state_by, guarded_state, set_guard, disable_unrequested_tracking,
  get_state, disable_tracking_verified, wait_for_status_flag, inspect_status, disable_verified_by,
}
use on_step_adapter.Mount.Clock.{
  Ticks, is_starved, send_text_ends, get_state_by-Ticks, disable_verified_lem,
}

guarded_state-Ticks : Ticks guarded_state
unfolding guarded_state
guarded_state-Ticks = get_state_by-Ticks (λ m. (threw out_of_fuel, m)) (λ m. omega arith)

inner_lem :
    (m : Mount)
    → (m.bus.now ≤ (disable_verified_by guarded_state 8000 250 2 true m).1.bus.now)
      × (is_starved (disable_verified_by guarded_state 8000 250 2 true m).0 ≡ false)
inner_lem m = disable_verified_lem guarded_state guarded_state-Ticks 8000 250 2 true m

disable_unrequested_tracking_lem :
    (m : Mount)
    → (m.bus.now ≤ (disable_unrequested_tracking m).1.bus.now)
      × (is_starved (disable_unrequested_tracking m).0 ≡ false)
unfolding disable_unrequested_tracking
disable_unrequested_tracking_lem m = ground (arith, inner_lem (set_guard true m))

get_state-Ticks : Ticks get_state
unfolding get_state
get_state-Ticks =
    get_state_by-Ticks disable_unrequested_tracking (λ m. (disable_unrequested_tracking_lem m).0)

get_state_by_ends :
    (disable : M DisableResult) (m : Mount)
    → ((k : Mount) → is_starved (disable k).0 ≡ false)
    → is_starved (get_state_by disable m).0 ≡ false
unfolding get_state_by
get_state_by_ends disable m ends = elim (Run-cases (send_text (codes ":GU#") m)) [
  | inr (e, m1, h) ↦ ground (arith, send_text_ends (codes ":GU#") m)
  | inl (t, m1, h) ↦ ground (arith, ends (inspect_status t m1))
]

get_state_ends : (m : Mount) → is_starved (get_state m).0 ≡ false
unfolding get_state
get_state_ends m =
    get_state_by_ends disable_unrequested_tracking m (λ k. (disable_unrequested_tracking_lem k).1)

send_text_guard :
    (m : Mount)
    → (send_text (codes ":GU#") m).1.suppress_unrequested_tracking_guard
      ≡ m.suppress_unrequested_tracking_guard
unfolding send_text
send_text_guard m = refl

inspect_status_guard :
    (t : Text) (m : Mount)
    → (inspect_status t m).suppress_unrequested_tracking_guard
      ≡ m.suppress_unrequested_tracking_guard
unfolding inspect_status invalidate_mechanical_trust lock_limit
inspect_status_guard t m = ground arith

-- Behind the guard the state is read as the code reads it: tracking is not stopped again, so what
-- stands for a deeper call is not reached.
guarded_state-get_state :
    (m : Mount) → m.suppress_unrequested_tracking_guard ≡ true → guarded_state m ≡ get_state m
unfolding guarded_state get_state get_state_by
guarded_state-get_state m on = elim (Run-cases (send_text (codes ":GU#") m)) [
  | inr (e, m1, h) ↦ ground arith
  | inl (t, m1, h) ↦ ground (arith, send_text_guard m, inspect_status_guard t m1)
]

-- Reading the state, with the stop of a tracking that nobody asked for, and the verified stop of
-- tracking end, whatever the controller answers and however long it takes: the rounds that the
-- loops are given suffice.
pub status_calls_end :
    (timeout poll attempts : ℕ) (send_stop : Bool) (m : Mount)
    → (is_starved (get_state m).0 ≡ false)
      × (is_starved (disable_tracking_verified timeout poll attempts send_stop m).0 ≡ false)
unfolding disable_tracking_verified
status_calls_end timeout poll attempts send_stop m = (
  get_state_ends m,
  (disable_verified_lem get_state get_state-Ticks timeout poll attempts send_stop m).1,
)

more_time :
    (poll fuel deadline now now1 : ℕ)
    → deadline ≤ now + poll * suc fuel
    → now + poll ≤ now1
    → deadline ≤ now1 + poll * fuel
more_time poll fuel deadline now now1 h k = grind arith

wait_loop_ends :
    (fuel : ℕ) (flag : OnstepStatus → Bool) (is_home : Bool) (poll deadline : ℕ) (s : MountState)
    (m : Mount)
    → deadline ≤ m.bus.now + poll * fuel
    → is_starved (wait_for_status_flag (suc fuel) flag is_home poll deadline s m).0 ≡ false
unfolding wait_for_status_flag
wait_loop_ends zero flag is_home poll deadline s m late = ground arith
wait_loop_ends (suc fuel) flag is_home poll deadline s m late =
    elim (Run-cases (get_state (slept poll m))) [
      | inr (e, m1, h) ↦ ground (arith, get_state_ends (slept poll m))
      | inl (k, m1, h) ↦ ground (
        arith,
        get_state-Ticks (slept poll m),
        more_time poll fuel deadline m.bus.now m1.bus.now late,
        wait_loop_ends fuel flag is_home poll deadline k m1,
      )
    ]

enough : (timeout poll : ℕ) → 0 < poll → timeout ≤ poll * suc (timeout / poll)
enough timeout poll h = grind arith

-- The wait for a flag of the status ends, at HOME as in PARK, with any pause between the polls.
wait_for_status_flag_ends :
    (flag : OnstepStatus → Bool) (is_home : Bool) (timeout poll : ℕ) (s : MountState) (m : Mount)
    → 0 < poll
    → is_starved
        (wait_for_status_flag
          (suc (suc (timeout / poll)))
          flag
          is_home
          poll
          (m.bus.now + timeout)
          s
          m).0
      ≡ false
wait_for_status_flag_ends flag is_home timeout poll s m some_time =
    wait_loop_ends (suc (timeout / poll)) flag is_home poll (m.bus.now + timeout) s m
      (omega (arith, enough timeout poll some_time))
