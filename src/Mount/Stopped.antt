-- ===== src/Mount/Stopped.antt =====
-- onstep_adapter/mount.py: what the verified end of tracking has seen.
use on_step_adapter.Base.{
  [], ◌<◌, ℕ, zero, suc, ◌+◌, ◌/◌, Bool, true, false, ◌&&◌, ◌||◌, not, ◌≡◌, refl, arith, inl, inr,
  max,
}
use on_step_adapter.Base.Text.{codes}
use on_step_adapter.Bus.{send, raw_send, send_fixed, write_bypass}
use on_step_adapter.Base.Text.{is_text}
use on_step_adapter.Mount.{
  fixed_reply, bypass_lock, Mount, M, Ending, returned, threw, Run-cases, send_text, slept, decoded,
}
use on_step_adapter.Mount.State.{
  MountState, DisableResult, get_state_by, guarded_state, set_guard, disable_unrequested_tracking,
  get_state, disable_tracking_verified, inspect_status, poll_loop, seen_state, seen_error,
  poll_pause, poll_rounds, attempt_once, attempts_loop, disable_verified_by, no_attempts,
  with_reply, stopped_if, disable_reply, unrequested, mount_state_from_decoded,
}
use on_step_adapter.Mount.Preflight.{is_tracking, is_unknown}

-- The mount's last status shows no tracking, and none is asked for.
abbrev pub is_still : Mount → Bool
is_still m = not (decoded (λ k. k.tracking) m) && not m.tracking_explicitly_requested

-- A result that is confirmed is so.
abbrev is_right : Ending DisableResult × Mount → Bool
is_right (returned d, m) = not d.confirmed || is_still m
is_right (threw e, m) = true

module _ (read : M MountState) where
  poll_loop-right :
      (fuel deadline poll number : ℕ) (d : DisableResult) (m : Mount)
      → d.confirmed ≡ false
      → is_right (poll_loop read fuel deadline poll number d m) ≡ true
  unfolding poll_loop
  poll_loop-right zero deadline poll number d m h = ground arith
  poll_loop-right (suc fuel) deadline poll number d m h = elim (Run-cases (read m)) [
    | inl (s, m1, e) ↦ ground (
      arith,
      poll_loop-right fuel deadline poll number
          (seen_state number s (decoded (λ k. k.tracking) m1) d) (slept (poll_pause poll) m1),
    )
    | inr (x, m1, e) ↦ ground (
      arith,
      poll_loop-right fuel deadline poll number (seen_error number d) (slept (poll_pause poll) m1),
    )
  ]

  attempt_once-right :
      (number span poll : ℕ) (send_stop : Bool) (d : DisableResult) (m : Mount)
      → d.confirmed ≡ false
      → is_right (attempt_once read number span poll send_stop d m) ≡ true
  unfolding attempt_once
  attempt_once-right number span poll send_stop d m h =
      elim (Run-cases (disable_reply (stopped_if send_stop m))) [
        | inr (e, m1, q) ↦ ground arith
        | inl (t, m1, q) ↦ ground (
          arith,
          poll_loop-right (poll_rounds span) (m1.bus.now + span) poll number (with_reply t d) m1,
        )
      ]

  attempts_loop-right :
      (left number span poll : ℕ) (send_stop : Bool) (d : DisableResult) (m : Mount)
      → d.confirmed ≡ false
      → is_right (attempts_loop read left number span poll send_stop d m) ≡ true
  unfolding attempts_loop
  attempts_loop-right zero number span poll send_stop d m h = ground arith
  attempts_loop-right (suc left) number span poll send_stop d m h =
      elim (Run-cases (attempt_once read number span poll send_stop d m)) [
        | inr (e, m1, q) ↦ ground arith
        | inl (d1, m1, q) ↦ ground (
          arith,
          attempt_once-right number span poll send_stop d m,
          attempts_loop-right left (suc number) span poll send_stop d1 m1,
        )
      ]

  disable_verified-right :
      (timeout poll attempts : ℕ) (send_stop : Bool) (m : Mount)
      → is_right (disable_verified_by read timeout poll attempts send_stop m) ≡ true
  unfolding disable_verified_by
  disable_verified-right timeout poll attempts send_stop m =
      attempts_loop-right (max 1 attempts) 1 (max poll (timeout / max 1 attempts)) poll send_stop
        no_attempts m refl

-- If the verified end of tracking returns `ok`, then the status that the mount keeps, if there is
-- one, shows no tracking, and the request for tracking is withdrawn.
disable_tracking_verified_still :
    (timeout poll attempts : ℕ) (send_stop : Bool) (m : Mount) {d : DisableResult} {m1 : Mount}
    → disable_tracking_verified timeout poll attempts send_stop m ≡ (returned d, m1)
    → d.confirmed ≡ true
    → (decoded (λ k. k.tracking) m1 ≡ false) × (m1.tracking_explicitly_requested ≡ false)
unfolding disable_tracking_verified
disable_tracking_verified_still timeout poll attempts send_stop m h confirmed =
    let right = disable_verified-right get_state timeout poll attempts send_stop m in
    (ground arith, ground arith)

-- Reading the state on a closed connection.
pub closed_state :
    (m : Mount) → m.bus.is_open ≡ false → get_state m ≡ (returned MountState.unknown, m)
unfolding get_state get_state_by send_text send raw_send
closed_state m off = ground arith

closed_reply :
    (send_stop : Bool) (m : Mount)
    → m.bus.is_open ≡ false
    → disable_reply (stopped_if send_stop m) ≡ (returned [], m)
unfolding fixed_reply send_fixed bypass_lock write_bypass
closed_reply true m off = ground arith
closed_reply false m off = ground arith

-- A confirmation that saw no status, and changed nothing.
pub record IsBlind (r : Ending DisableResult × Mount) (m : Mount) : Type 0 where
  pub result : DisableResult
  pub ends : r ≡ (returned result, unrequested m)
  pub confirms : result.confirmed ≡ true
  pub knows_nothing : result.final_state ≡ MountState.unknown

closed_polls :
    (span poll number : ℕ) (d : DisableResult) (m : Mount)
    → m.bus.is_open ≡ false
    → decoded (λ k. k.tracking) m ≡ false
    → 0 < span
    → IsBlind (poll_loop get_state (poll_rounds span) (m.bus.now + span) poll number d m) m
unfolding poll_loop
closed_polls span poll number d m off idle some_time = record {
  result = record (seen_state number MountState.unknown false d) { confirmed = true };
  ends = ground (arith, closed_state m off);
  confirms = refl;
  knows_nothing = refl;
}

closed_attempt :
    (number span poll : ℕ) (send_stop : Bool) (d : DisableResult) (m : Mount)
    → m.bus.is_open ≡ false
    → decoded (λ k. k.tracking) m ≡ false
    → 0 < span
    → IsBlind (attempt_once get_state number span poll send_stop d m) m
unfolding attempt_once
closed_attempt number span poll send_stop d m off idle some_time =
    let polled = closed_polls span poll number (with_reply [] d) m off idle some_time in
    record {
      result = record (polled.result) {
        status_overrode_ack = polled.result.confirmed && not (is_text [] "1");
      };
      ends = ground (arith, closed_reply send_stop m off, polled.ends);
      confirms = polled.confirms;
      knows_nothing = polled.knows_nothing;
    }

closed_attempts :
    (left number span poll : ℕ) (send_stop : Bool) (d : DisableResult) (m : Mount)
    → m.bus.is_open ≡ false
    → decoded (λ k. k.tracking) m ≡ false
    → 0 < left
    → 0 < span
    → IsBlind (attempts_loop get_state left number span poll send_stop d m) m
unfolding attempts_loop
closed_attempts zero number span poll send_stop d m off idle some some_time = absurd (omega arith)
closed_attempts (suc left) number span poll send_stop d m off idle some some_time =
    let once = closed_attempt number span poll send_stop d m off idle some_time in
    record {
      result = once.result;
      ends = ground (arith, once.ends, once.confirms);
      confirms = once.confirms;
      knows_nothing = once.knows_nothing;
    }

-- On a closed connection, with a status that shows no tracking or none at all, the verified end of
-- tracking confirms: its result is `ok` with the state unknown, and the mount, its connection and
-- what was written are as before, but for the request for tracking, which is withdrawn.
pub closed_disable_confirms :
    (timeout poll attempts : ℕ) (send_stop : Bool) (m : Mount)
    → m.bus.is_open ≡ false
    → decoded (λ k. k.tracking) m ≡ false
    → 0 < poll
    → IsBlind (disable_tracking_verified timeout poll attempts send_stop m) m
unfolding disable_tracking_verified disable_verified_by
closed_disable_confirms timeout poll attempts send_stop m off idle some_time =
    closed_attempts (max 1 attempts) 1 (max poll (timeout / max 1 attempts)) poll send_stop
      no_attempts m off idle (omega arith) (omega (arith, some_time))

unrequested-right :
    (m : Mount) {d : DisableResult} {m1 : Mount}
    → disable_unrequested_tracking m ≡ (returned d, m1)
    → d.confirmed ≡ true
    → decoded (λ k. k.tracking) m1 ≡ false
unfolding disable_unrequested_tracking
unrequested-right m h confirmed =
    ground (arith, disable_verified-right guarded_state 8000 250 2 true (set_guard true m))

state_lem :
    (m : Mount)
    → decoded (λ k. k.tracking) m ≡ false
    → is_tracking (mount_state_from_decoded m) ≡ false
unfolding mount_state_from_decoded
state_lem m h = ground arith

-- A state that is read as neither tracking nor unknown is that of a mount whose last status shows
-- no tracking: a tracking that nobody asked for was stopped, and its end was seen.
get_state_still :
    (m : Mount) {s : MountState} {m1 : Mount}
    → get_state m ≡ (returned s, m1)
    → is_tracking s ≡ false
    → is_unknown s ≡ false
    → decoded (λ k. k.tracking) m1 ≡ false
unfolding get_state get_state_by
get_state_still m h idle known = elim (Run-cases (send_text (codes ":GU#") m)) [
  | inr (e, m1, q) ↦ absurd (ground arith)
  | inl (t, m1, q) ↦ elim (Run-cases (disable_unrequested_tracking (inspect_status t m1))) [
    | inr (e, m2, x) ↦ ground arith
    | inl (d, m2, x) ↦ ground (arith, unrequested-right (inspect_status t m1) x)
  ]
]
