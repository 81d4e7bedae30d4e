-- ===== src/Axis/Fuel.antt =====
-- The rounds that the loops of a move are given suffice.
use on_step_adapter.Base.{
  ℕ, zero, suc, ◌+◌, ◌*◌, ◌/◌, ◌≤◌, ◌≡◌, inl, inr, Bool, true, false, ◌&&◌, not, List, [], ◌∷◌, max,
  arith, if◌then◌else◌,
}
use on_step_adapter.Base.Int.{ℤ}
use on_step_adapter.Outcome.{Outcome, ok, raised, out_of_fuel, Outcome-cases}
use on_step_adapter.Snapshot.{IndiMountSnapshot}
use on_step_adapter.Transport.{Event, World, Io, arrive}
use on_step_adapter.Axis.{
  Axis, judge_motion, check, MoveRequest, Start, judge_view, pause, pause_until,
}
use on_step_adapter.Axis.Move.{drive_loop, settle_loop, drive_rounds}

abbrev pub is_out : {A : Type 0} → Outcome A → Bool
is_out (raised out_of_fuel) = true
is_out _ = false

pause_until_late :
    (stoppable : Bool) (target : ℕ) (inbox : List (ℕ × Event)) (w : World)
    → is_out (pause_until stoppable target inbox w).0 ≡ false
unfolding pause_until
pause_until_late stoppable target [] w = ground arith
pause_until_late stoppable target ((t, e) ∷ inbox) w = ground (
  arith,
  pause_until_late stoppable target inbox
      (arrive e (record w { now = max w.now t; inbox = inbox })),
)

pause_until_ok :
    (stoppable : Bool) (target : ℕ) (inbox : List (ℕ × Event)) (w : World)
    → (pause_until stoppable target inbox w).0 ≡ ok tt
    → target ≤ (pause_until stoppable target inbox w).1.now
unfolding pause_until
pause_until_ok stoppable target [] w h = ground arith
pause_until_ok stoppable target ((t, e) ∷ inbox) w h = ground (
  arith,
  pause_until_ok stoppable target inbox (arrive e (record w { now = max w.now t; inbox = inbox })),
)

-- A pause that returns has taken its time; else a stop was requested.
pause_lem :
    (stoppable : Bool) (d : ℕ) (w : World)
    → (is_out (pause stoppable d w).0 ≡ false)
      × ((pause stoppable d w).0 ≡ ok tt → w.now + d ≤ (pause stoppable d w).1.now)
unfolding pause
pause_lem stoppable d w = (
  pause_until_late stoppable (w.now + d) w.inbox w,
  pause_until_ok stoppable (w.now + d) w.inbox w,
)

check_ends : (moving fresh : Bool) (s : IndiMountSnapshot) → is_out (check moving fresh s) ≡ false
unfolding check
check_ends moving fresh s = ground arith

judge_view_ends :
    (axis : Axis) (offset : ℤ) (b : Start) (seen : Bool) (revision : ℤ) (s : IndiMountSnapshot)
    → is_out (judge_view axis offset b seen revision s) ≡ false
unfolding judge_view judge_motion check
judge_view_ends axis offset b seen revision s = ground arith

module _ (observe : Io IndiMountSnapshot) (stoppable : Bool) (q : MoveRequest) (b : Start)
    (ends : (w : World) → is_out (observe w).0 ≡ false)
    (goes_on : (w : World) → w.now ≤ (observe w).1.now) where
  settle_loop_ends :
      (deadline n : ℕ) (revision : ℤ) (stopped : ℕ) (latest : IndiMountSnapshot) (w : World)
      → deadline ≤ w.now + 150 * n
      → is_out (settle_loop observe stoppable q b deadline (suc n) revision stopped latest w).0
        ≡ false
  unfolding settle_loop
  settle_loop_ends deadline zero revision stopped latest w h = ground (arith, h)
  settle_loop_ends deadline (suc n) revision stopped latest w h =
      let (p, w1) = pause stoppable (max q.poll 150) w in
      let (paused, late) = pause_lem stoppable (max q.poll 150) w in
      let (r, w2) = observe w1 in
      elim (Outcome-cases p) [
        | inr (e, z) ↦ ground (arith, paused)
        | inl (slept, z) ↦ elim (Outcome-cases r) [
          | inr (e, u) ↦ ground (arith, ends w1)
          | inl (s, u) ↦ elim (Outcome-cases (check true false s)) [
            | inr (e, v) ↦ ground (arith, check_ends true false s)
            | inl (checked, v) ↦
                let later : deadline ≤ w2.now + 150 * n = ground (arith, late z, goes_on w1, h) in
                ground (
                  arith,
                  settle_loop_ends deadline n revision stopped latest w2 later,
                  settle_loop_ends deadline n s.status_revision
                      (if not s.tracking && not s.slewing then suc stopped else 0) s w2 later,
                )
          ]
        ]
      ]

  drive_loop_ends :
      (deadline n : ℕ) (revision : ℤ) (seen : Bool) (count : ℕ) (w : World)
      → 50 ≤ q.poll
      → deadline ≤ w.now + 50 * n
      → is_out (drive_loop observe stoppable q b deadline (suc n) revision seen count w).0 ≡ false
  unfolding drive_loop
  drive_loop_ends deadline zero revision seen count w slow h = ground (arith, h)
  drive_loop_ends deadline (suc n) revision seen count w slow h =
      let (p, w1) = pause stoppable q.poll w in
      let (paused, late) = pause_lem stoppable q.poll w in
      let (r, w2) = observe w1 in
      elim (Outcome-cases p) [
        | inr (e, z) ↦ ground (arith, paused)
        | inl (slept, z) ↦ elim (Outcome-cases r) [
          | inr (e, u) ↦ ground (arith, ends w1)
          | inl (s, u) ↦
              let later : deadline ≤ w2.now + 50 * n =
                ground (arith, late z, goes_on w1, h, slow) in
              elim (Outcome-cases (judge_view q.axis q.offset b seen revision s)) [
                | inr (e, v) ↦ ground (arith, judge_view_ends q.axis q.offset b seen revision s)
                | inl ((counted, verdict), v) ↦
                    let count' : ℕ = if counted then suc count else count in
                    let revision' : ℤ = if counted then s.coordinates_revision else revision in
                    ground (
                      arith,
                      drive_loop_ends deadline n revision' true count' w2 slow later,
                      drive_loop_ends deadline n revision' seen count' w2 slow later,
                    )
              ]
        ]
      ]

  -- With observations that end and do not turn the clock back, and a poll of 50 ms or more, the
  -- rounds given suffice: the loop up to the arrival, within any timeout, and the loop that
  -- confirms the stop, within its five seconds, always come to a result or an error of the
  -- program.
  pub move_loops_end :
      (revision : ℤ) (latest : IndiMountSnapshot) (w : World)
      → 50 ≤ q.poll
      → (is_out
            (drive_loop observe stoppable q b
              (w.now + q.timeout)
              (drive_rounds observe stoppable q b)
              revision
              false
              0
              w).0
          ≡ false)
        × (is_out (settle_loop observe stoppable q b (w.now + 5000) 36 revision 0 latest w).0
            ≡ false)
  move_loops_end revision latest w slow =
      let more : drive_rounds observe stoppable q b ≡ suc (q.timeout / 50 + 2) = omega arith in
      (
        rw more (
            drive_loop_ends (w.now + q.timeout) (q.timeout / 50 + 2) revision false 0 w slow
              (omega arith)),
        settle_loop_ends (w.now + 5000) 35 revision 0 latest w (omega arith),
      )
