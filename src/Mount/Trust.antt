-- ===== src/Mount/Trust.antt =====
-- onstep_adapter/mount.py: the authority of the mechanical position over any sequence of events,
-- and what a status that reports a limit leaves of it.
use on_step_adapter.Base.{
  Bool, true, false, ◌&&◌, ◌||◌, not, none, some, List, [], ◌∷◌, ◌++◌, ◌≡◌, refl, arith, any, all,
  all-keep_if, ◌⊎◌, inl, inr, String,
}
use on_step_adapter.Base.Text.{Text}
use on_step_adapter.Serial.Status.{decode_onstep_status}
use on_step_adapter.Mount.{
  Mount, OnStepSafetyConfig, decoded, ClockChecks, SafetyViolation, SafetySeverity,
}
use on_step_adapter.Mount.Authority.{
  AuthorityReason, invalidation, mechanical_position_authority, authority_reasons, live_reasons,
  invalidations, is_fault_reason, is_fault_text, is_fault, invalidate_mechanical_trust,
  confirm_home_position, invalidate_home_authority, clear_mechanical_confirmations,
  note_external_motion, clear_safety_lock, disconnect, lock_limit, apply_clock_safety_lock,
  is_hard_lock, MotionAuthority, motion_authority, mechanical_readiness,
}
use on_step_adapter.Mount.State.{inspect_status}
use on_step_adapter.Mount.Preflight.{is_trusted}

-- What happens to the trust: a status is read, or one of the methods is called.
pub data Act : Type 0 where
  reading : Text → Act
  locking : String → String → Act
  invalidating clearing moved_outside : String → Act
  confirming_home unlocking disconnecting checking_clocks : Act

unfoldable pub act : OnStepSafetyConfig → Act → Mount → Mount
act c (reading t) m = inspect_status t m
act c (locking r command) m = lock_limit r command m
act c (invalidating r) m = invalidate_home_authority r m
act c (clearing r) m = clear_mechanical_confirmations c r m
act c (moved_outside r) m = note_external_motion r m
act c confirming_home m = confirm_home_position m
act c unlocking m = clear_safety_lock m
act c disconnecting m = disconnect m
act c checking_clocks m = apply_clock_safety_lock c m

unfoldable pub acts : OnStepSafetyConfig → List Act → Mount → Mount
acts c [] m = m
acts c (a ∷ l) m = acts c l (act c a m)

-- With HOME confirmed, every reason on the list is a fault.
abbrev is_rooted : Mount → Bool
is_rooted m = not m.home_confirmed || all is_fault_text m.trust_invalidations

act-is_rooted :
    (c : OnStepSafetyConfig) (a : Act) (m : Mount)
    → is_rooted m ≡ true
    → is_rooted (act c a m) ≡ true
unfolding act inspect_status invalidate_mechanical_trust lock_limit invalidate_home_authority
    disconnect clear_mechanical_confirmations note_external_motion confirm_home_position
    clear_safety_lock apply_clock_safety_lock
act-is_rooted c (reading t) m h = ground arith
act-is_rooted c (locking r command) m h = h
act-is_rooted c (invalidating r) m h = refl
act-is_rooted c (clearing r) m h = refl
act-is_rooted c (moved_outside r) m h = refl
act-is_rooted c confirming_home m h = all-keep_if is_fault_text m.trust_invalidations
act-is_rooted c unlocking m h = h
act-is_rooted c disconnecting m h = refl
act-is_rooted c checking_clocks m h = ground arith

acts-is_rooted :
    (c : OnStepSafetyConfig) (l : List Act) (m : Mount)
    → is_rooted m ≡ true
    → is_rooted (acts c l m) ≡ true
unfolding acts
acts-is_rooted c [] m h = h
acts-is_rooted c (a ∷ l) m h = acts-is_rooted c l (act c a m) (act-is_rooted c a m h)

-- Trusted, faulty, or parked in a pose that nobody confirmed.
abbrev pub is_settled : Mount → Bool
is_settled m =
    is_trusted (mechanical_position_authority m).state
    || is_fault (mechanical_position_authority m).state
    || (decoded (λ k. k.parked) m && not m.park_pose_confirmed)

-- Faults alone are on the list: it makes a fault, or it is empty.
faults_lem :
    (l : List String) (k : List AuthorityReason)
    → all is_fault_text l ≡ true
    → (any is_fault_reason (invalidations l ++ k) ≡ true) ⊎ (invalidations l ++ k ≡ k)
faults_lem [] k h = inr refl
faults_lem (r ∷ l) k h = inl (ground arith)

settled_lem : (m : Mount) → is_rooted m ≡ true → m.home_confirmed ≡ true → is_settled m ≡ true
unfolding mechanical_position_authority authority_reasons live_reasons
settled_lem m h home = elim (faults_lem m.trust_invalidations (live_reasons m) (ground arith)) [
  | inl e ↦ rw e refl
  | inr e ↦ rw e (ground arith)
]

-- From a mount whose HOME is not confirmed, as the constructor makes one where the configuration
-- requires the confirmation, and over any sequence of statuses, calls and clock checks: when HOME
-- is confirmed at its end, no older doubt lingers. The position is trusted, or it is at fault, or
-- the mount is parked in a pose that nobody confirmed; it is never merely unknown.
pub acts-is_settled :
    (c : OnStepSafetyConfig) (l : List Act) (m : Mount)
    → m.home_confirmed ≡ false
    → (acts c l m).home_confirmed ≡ true
    → is_settled (acts c l m) ≡ true
acts-is_settled c l m open_yet home =
    settled_lem (acts c l m) (acts-is_rooted c l m (ground arith)) home

-- What the check puts into the lock for the controller's clock.
abbrev pub clock_violation : SafetyViolation
clock_violation = record {
  reason = "onstep_clock_invalid";
  command = "clock_check";
  severity = SafetySeverity.unknown;
}

-- Everything but the emergency stop.
abbrev pub allows_any : MotionAuthority → Bool
allows_any a =
    a.recovery_pulse || a.terrestrial_low_rate_manual || a.mechanical_manual || a.tracking || a.goto
    || a.guide || a.park || a.unpark || a.unpark_stop_tracking

or_true : (a b : Bool) → b ≡ true → (a || b) ≡ true
or_true true b h = refl
or_true false b h = h

-- A fault among the reasons that are found now.
any_after :
    (l : List String) (k : List AuthorityReason)
    → any is_fault_reason k ≡ true
    → any is_fault_reason (invalidations l ++ k) ≡ true
any_after [] k h = h
any_after (r ∷ l) k h =
    or_true (is_fault_reason (invalidation r)) (any is_fault_reason (invalidations l ++ k))
      (any_after l k h)

revoked_lem :
    (t : Text) (m : Mount)
    → ((decode_onstep_status t).at_limit || (decode_onstep_status t).park_failed) ≡ true
    → ((inspect_status t m).home_confirmed ≡ false)
      × ((inspect_status t m).park_pose_confirmed ≡ false)
      × ((inspect_status t m).last_decoded_status ≡ some (decode_onstep_status t))
unfolding inspect_status invalidate_mechanical_trust lock_limit
revoked_lem t m h = (ground arith, ground arith, ground arith)

live_lem :
    (m : Mount)
    → (decoded (λ k. k.at_limit) m || decoded (λ k. k.park_failed) m) ≡ true
    → any is_fault_reason (live_reasons m) ≡ true
unfolding live_reasons
live_lem m h = ground arith

fault_lem :
    (m : Mount)
    → (decoded (λ k. k.at_limit) m || decoded (λ k. k.park_failed) m) ≡ true
    → is_fault (mechanical_position_authority m).state ≡ true
unfolding mechanical_position_authority authority_reasons
fault_lem m h = rw (any_after m.trust_invalidations (live_reasons m) (live_lem m h)) refl

unready_lem :
    (time location limits : Bool) (c : OnStepSafetyConfig) (m : Mount)
    → m.home_confirmed ≡ false
    → m.park_pose_confirmed ≡ false
    → allows_any (motion_authority time location limits c m) ≡ false
unfolding motion_authority mechanical_readiness
unready_lem time location limits c m h k = ground arith

-- A status that reports a limit or a failed park withdraws every authority to move, whatever was
-- confirmed before: HOME and the pose in PARK are no longer confirmed, the position is at fault,
-- and of all motions only the emergency stop is left.
pub inspect_status_revokes :
    (c : OnStepSafetyConfig) (time location limits : Bool) (t : Text) (m : Mount)
    → ((decode_onstep_status t).at_limit || (decode_onstep_status t).park_failed) ≡ true
    → ((inspect_status t m).home_confirmed ≡ false)
      × ((inspect_status t m).park_pose_confirmed ≡ false)
      × (is_fault (mechanical_position_authority (inspect_status t m)).state ≡ true)
      × (allows_any (motion_authority time location limits c (inspect_status t m)) ≡ false)
      × ((motion_authority time location limits c (inspect_status t m)).emergency_stop ≡ true)
unfolding motion_authority
inspect_status_revokes c time location limits t m h =
    let (home, pose, seen) = revoked_lem t m h in
    (
      home,
      pose,
      fault_lem (inspect_status t m) (rw seen (ground arith)),
      unready_lem time location limits c (inspect_status t m) home pose,
      refl,
    )

-- The clocks' check takes the place of a limit's lock, and gives it up: with a limit's lock and a
-- controller whose clock warns, the lock becomes that of the controller's clock, and once the
-- clock does not warn any more the next check leaves no lock at all.
pub clock_lock_replaces_limit :
    (c : OnStepSafetyConfig) (m : Mount) (k : ClockChecks)
    → is_hard_lock m.safety_lock ≡ true
    → (m.clocks.system_valid && m.clocks.onstep_warning) ≡ true
    → (k.system_valid && not k.onstep_warning) ≡ true
    → ((apply_clock_safety_lock c m).safety_lock ≡ some clock_violation)
      × ((apply_clock_safety_lock c
            (record (apply_clock_safety_lock c m) { clocks = k })).safety_lock
          ≡ none)
unfolding apply_clock_safety_lock
clock_lock_replaces_limit c m k hard warns fine = (ground arith, ground arith)
