-- ===== src/Client/Exclusive.antt =====
-- One move at a time, whatever the threads do.
use on_step_adapter.Base.{
  Option-cases, ℕ, ◌≡◌, refl, inl, inr, true, false, not, some, List, [], ◌∷◌, arith,
}
use on_step_adapter.Motion.{MotionHandle, new_handle, finish, set_done, request_stop, record_stop}
use on_step_adapter.Client.{
  Motions, handle_at, change_at, is_running, active_motion, start_motion, finish_motion,
  signal_done, emergency_stop,
}
use on_step_adapter.Client.Commands.{
  Command, begin, ask, end, signal, note, exec, run, no_motions, handle_at-append,
  handle_at-change_at,
}

handle_at-nil : (R : Type 0) (i : ℕ) → is_running (handle_at {R = R} [] i) ≡ false
unfolding handle_at
handle_at-nil R i = refl

module _ {R : Type 0} where
  -- Only the client's own move may run.
  abbrev IsExclusive : Motions R → Type 0
  IsExclusive m = (i : ℕ) → is_running (handle_at m.handles i) ≡ true → m.motion ≡ some i

  is_running-change_at :
      (f : MotionHandle R → MotionHandle R) (i j : ℕ) (l : List (MotionHandle R))
      → ((h : MotionHandle R) → not (f h).done ≡ true → not h.done ≡ true)
      → is_running (handle_at (change_at f j l) i) ≡ true
      → is_running (handle_at l i) ≡ true
  is_running-change_at f i j l fewer run_i = elim (Option-cases (handle_at l i)) [
    | inl gone ↦ ground (arith, handle_at-change_at f i j l)
    | inr (h, z) ↦ ground (arith, handle_at-change_at f i j l, fewer h)
  ]

  start_motion-IsExclusive : (m : Motions R) → IsExclusive m → IsExclusive (start_motion m).1
  unfolding start_motion active_motion
  start_motion-IsExclusive m x i run_i =
      let fresh : MotionHandle R = new_handle in
      ground (arith, x i, handle_at-append m.handles fresh i)

  exec-IsExclusive : (c : Command R) (m : Motions R) → IsExclusive m → IsExclusive (exec c m)
  unfolding exec finish_motion signal_done emergency_stop finish set_done request_stop record_stop
  exec-IsExclusive begin m x i run_i = start_motion-IsExclusive m x i run_i
  exec-IsExclusive ask m x i run_i = elim (Option-cases (active_motion m)) [
    | inl q ↦ ground (arith, x i)
    | inr (j, q) ↦ ground (arith, x i, is_running-change_at request_stop i j m.handles (λ h r. r))
  ]
  exec-IsExclusive (end j e) m x i run_i =
      x i (is_running-change_at (finish e) i j m.handles (λ h k. k) run_i)
  exec-IsExclusive (signal j) m x i run_i =
      x i (is_running-change_at set_done i j m.handles (λ h k. absurd (cc)) run_i)
  exec-IsExclusive (note j r) m x i run_i =
      x i (is_running-change_at (record_stop r) i j m.handles (λ h k. k) run_i)

  run-IsExclusive : (l : List (Command R)) (m : Motions R) → IsExclusive m → IsExclusive (run l m)
  unfolding run
  run-IsExclusive [] m x = x
  run-IsExclusive (c ∷ l) m x = run-IsExclusive l (exec c m) (exec-IsExclusive c m x)

  -- Of all the moves that a client ever started, no two run at once, whatever the order in which
  -- threads start, stop and end them.
  pub one_running :
      (l : List (Command R)) (i j : ℕ)
      → is_running (handle_at (run l no_motions).handles i) ≡ true
      → is_running (handle_at (run l no_motions).handles j) ≡ true
      → i ≡ j
  one_running l i j run_i run_j =
      let x = run-IsExclusive l no_motions (λ k r. absurd (ground (arith, handle_at-nil R k))) in
      ground (arith, x i run_i, x j run_j)
