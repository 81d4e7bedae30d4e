-- ===== src/Mount/Clock.antt =====
-- onstep_adapter/mount.py: the loops on the status end: the clock does not go back over a call, and
-- each round of a loop takes a pause.
use on_step_adapter.Base.{
  ℕ, zero, suc, ◌+◌, ◌*◌, ◌/◌, ◌≤◌, Bool, true, false, ◌≡◌, arith, inl, inr, max,
}
use on_step_adapter.Base.Text.{Text, codes}
use on_step_adapter.Bus.{send, raw_send, exchange, send_fixed, write_bypass, bypass}
use on_step_adapter.Mount.{
  Mount, out_of_fuel, Ending, threw, M, Run-cases, send_text, fixed_reply, bypass_lock, slept,
  decoded,
}
use on_step_adapter.Mount.Authority.{invalidate_mechanical_trust, lock_limit}
use on_step_adapter.Mount.State.{
  MountState, DisableResult, inspect_status, get_state_by, disable_reply, poll_loop, attempts_loop,
  disable_verified_by, poll_pause, seen_state, seen_error, with_reply, poll_rounds, no_attempts,
  attempt_once, stopped_if,
}

abbrev pub Ticks : {A : Type 0} → M A → Type 0
Ticks x = (m : Mount) → m.bus.now ≤ (x m).1.bus.now

abbrev pub is_starved : {A : Type 0} → Ending A → Bool
is_starved (threw out_of_fuel) = true
is_starved _ = false

send_text-Ticks : (cmd : Text) → Ticks (send_text cmd)
unfolding send_text send raw_send exchange
send_text-Ticks cmd m = ground arith

fixed_reply-Ticks : (cmd : Text) (size : ℕ) → Ticks (fixed_reply cmd size)
unfolding fixed_reply send_fixed exchange
fixed_reply-Ticks cmd size m = ground arith

bypass_lock-Ticks : (cmd : Text) (m : Mount) → m.bus.now ≤ (bypass_lock cmd m).bus.now
unfolding bypass_lock write_bypass bypass
bypass_lock-Ticks cmd m = ground arith

disable_reply-Ticks : Ticks disable_reply
disable_reply-Ticks m = ground (arith, fixed_reply-Ticks (codes ":Td#") 1 m)

inspect_status-now : (t : Text) (m : Mount) → (inspect_status t m).bus.now ≡ m.bus.now
unfolding inspect_status invalidate_mechanical_trust lock_limit
inspect_status-now t m = ground arith

pub get_state_by-Ticks : (disable : M DisableResult) → Ticks disable → Ticks (get_state_by disable)
unfolding get_state_by
get_state_by-Ticks disable ticks m = elim (Run-cases (send_text (codes ":GU#") m)) [
  | inr (e, m1, h) ↦ ground (arith, send_text-Ticks (codes ":GU#") m)
  | inl (t, m1, h) ↦ ground (
    arith,
    send_text-Ticks (codes ":GU#") m,
    inspect_status-now t m1,
    ticks (inspect_status t m1),
  )
]

stopped_if-Ticks : (on : Bool) (m : Mount) → m.bus.now ≤ (stopped_if on m).bus.now
stopped_if-Ticks true m = bypass_lock-Ticks (codes ":Q#") m
stopped_if-Ticks false m = omega arith

-- A reply of the port is no lack of fuel.
fixed_reply_ends :
    (cmd : Text) (size : ℕ) (m : Mount) → is_starved (fixed_reply cmd size m).0 ≡ false
unfolding fixed_reply
fixed_reply_ends cmd size m = ground arith

pub send_text_ends : (cmd : Text) (m : Mount) → is_starved (send_text cmd m).0 ≡ false
unfolding send_text
send_text_ends cmd m = ground arith

disable_reply_ends : (m : Mount) → is_starved (disable_reply m).0 ≡ false
disable_reply_ends m = elim (Run-cases (fixed_reply (codes ":Td#") 1 m)) [
  | inl (t, m1, h) ↦ ground arith
  | inr (e, m1, h) ↦ ground (arith, fixed_reply_ends (codes ":Td#") 1 m)
]

module _ (read : M MountState) (ticks : Ticks read) where
  poll_loop-Ticks :
      (fuel deadline poll number : ℕ) (d : DisableResult)
      → Ticks (poll_loop read fuel deadline poll number d)
  unfolding poll_loop
  poll_loop-Ticks zero deadline poll number d m = ground arith
  poll_loop-Ticks (suc fuel) deadline poll number d m = elim (Run-cases (read m)) [
    | inl (s, m1, h) ↦ ground (
      arith,
      ticks m,
      poll_loop-Ticks fuel deadline poll number
          (seen_state number s (decoded (λ k. k.tracking) m1) d) (slept (poll_pause poll) m1),
    )
    | inr (e, m1, h) ↦ ground (
      arith,
      ticks m,
      poll_loop-Ticks fuel deadline poll number (seen_error number d) (slept (poll_pause poll) m1),
    )
  ]

  -- Each round takes 50 ms at least.
  poll_loop_ends :
      (fuel deadline poll number : ℕ) (d : DisableResult) (m : Mount)
      → deadline ≤ m.bus.now + 50 * fuel
      → is_starved (poll_loop read (suc fuel) deadline poll number d m).0 ≡ false
  unfolding poll_loop
  poll_loop_ends zero deadline poll number d m late = ground arith
  poll_loop_ends (suc fuel) deadline poll number d m late = elim (Run-cases (read m)) [
    | inl (s, m1, h) ↦ ground (
      arith,
      ticks m,
      poll_loop_ends fuel deadline poll number
          (seen_state number s (decoded (λ k. k.tracking) m1) d) (slept (poll_pause poll) m1),
    )
    | inr (e, m1, h) ↦ ground (
      arith,
      ticks m,
      poll_loop_ends fuel deadline poll number (seen_error number d) (slept (poll_pause poll) m1),
    )
  ]

  polls_lem :
      (span poll number : ℕ) (d : DisableResult) (m : Mount)
      → (m.bus.now
          ≤ (poll_loop read (poll_rounds span) (m.bus.now + span) poll number d m).1.bus.now)
        × (is_starved (poll_loop read (poll_rounds span) (m.bus.now + span) poll number d m).0
            ≡ false)
  polls_lem span poll number d m = (
    poll_loop-Ticks (poll_rounds span) (m.bus.now + span) poll number d m,
    poll_loop_ends (suc (span / 50)) (m.bus.now + span) poll number d m (omega arith),
  )

  attempt_once_lem :
      (number span poll : ℕ) (send_stop : Bool) (d : DisableResult) (m : Mount)
      → (m.bus.now ≤ (attempt_once read number span poll send_stop d m).1.bus.now)
        × (is_starved (attempt_once read number span poll send_stop d m).0 ≡ false)
  unfolding attempt_once
  attempt_once_lem number span poll send_stop d m =
      elim (Run-cases (disable_reply (stopped_if send_stop m))) [
        | inr (e, m1, h) ↦ ground (
          arith,
          disable_reply-Ticks (stopped_if send_stop m),
          stopped_if-Ticks send_stop m,
          disable_reply_ends (stopped_if send_stop m),
        )
        | inl (t, m1, h) ↦ ground (
          arith,
          disable_reply-Ticks (stopped_if send_stop m),
          stopped_if-Ticks send_stop m,
          polls_lem span poll number (with_reply t d) m1,
        )
      ]

  attempts_loop_lem :
      (left number span poll : ℕ) (send_stop : Bool) (d : DisableResult) (m : Mount)
      → (m.bus.now ≤ (attempts_loop read left number span poll send_stop d m).1.bus.now)
        × (is_starved (attempts_loop read left number span poll send_stop d m).0 ≡ false)
  unfolding attempts_loop
  attempts_loop_lem zero number span poll send_stop d m = ground arith
  attempts_loop_lem (suc left) number span poll send_stop d m =
      elim (Run-cases (attempt_once read number span poll send_stop d m)) [
        | inr (e, m1, h) ↦ ground (arith, attempt_once_lem number span poll send_stop d m)
        | inl (d1, m1, h) ↦ ground (
          arith,
          attempt_once_lem number span poll send_stop d m,
          attempts_loop_lem left (suc number) span poll send_stop d1 m1,
        )
      ]

  pub disable_verified_lem :
      (timeout poll attempts : ℕ) (send_stop : Bool) (m : Mount)
      → (m.bus.now ≤ (disable_verified_by read timeout poll attempts send_stop m).1.bus.now)
        × (is_starved (disable_verified_by read timeout poll attempts send_stop m).0 ≡ false)
  unfolding disable_verified_by
  disable_verified_lem timeout poll attempts send_stop m =
      attempts_loop_lem (max 1 attempts) 1 (max poll (timeout / max 1 attempts)) poll send_stop
        no_attempts m
