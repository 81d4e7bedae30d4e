-- ===== src/Client/Refinement.antt =====
-- The moves of a client as one busy flag.
use on_step_adapter.Base.{
  Option-cases, ℕ, suc, ◌≡◌, refl, inl, inr, Option, none, some, List, [], ◌∷◌, ◌++◌, length, ◌==◌,
  arith, if◌then◌else◌,
}
use on_step_adapter.Stop.{IndiStopResult}
use on_step_adapter.Motion.{
  MotionHandle, Ending, new_handle, finish, set_done, request_stop, record_stop,
}
use on_step_adapter.Client.{
  Motions, handle_at, change_at, active_motion, start_motion, finish_motion, signal_done,
  emergency_stop,
}
use on_step_adapter.Client.Commands.{
  Command, begin, ask, end, signal, note, exec, run, handle_at-append, handle_at-change_at,
  length-change_at,
}

module _ {R : Type 0} where
  -- What the client promises: a move is busy from its begin until its worker sets its event, and
  -- while one is busy no other begins. The second part counts the moves begun.
  unfoldable pub spec : Command R → Option ℕ × ℕ → Option ℕ × ℕ
  spec begin (none, n) = (some n, suc n)
  spec begin (some i, n) = (some i, n)
  spec ask s = s
  spec (end j e) s = s
  spec (signal j) (none, n) = (none, n)
  spec (signal j) (some i, n) = (if i == j then none else some i, n)
  spec (note j r) s = s

  unfoldable pub replay : List (Command R) → Option ℕ × ℕ → Option ℕ × ℕ
  replay [] s = s
  replay (c ∷ l) s = replay l (spec c s)

  abbrev pub view : Motions R → Option ℕ × ℕ
  view m = (active_motion m, length m.handles)

  active_motion-change_at :
      (f : MotionHandle R → MotionHandle R) (j : ℕ) (m : Motions R)
      → ((h : MotionHandle R) → (f h).done ≡ h.done)
      → active_motion (record m { handles = change_at f j m.handles }) ≡ active_motion m
  unfolding active_motion
  active_motion-change_at f j m same = elim (Option-cases m.motion) [
    | inl none_yet ↦ ground arith
    | inr (i, q) ↦ elim (Option-cases (handle_at m.handles i)) [
      | inl gone ↦ ground (arith, handle_at-change_at f i j m.handles)
      | inr (h, z) ↦ ground (arith, handle_at-change_at f i j m.handles, same h)
    ]
  ]

  length-append_one :
      (l : List (MotionHandle R)) (h : MotionHandle R) → length (l ++ h ∷ []) ≡ suc (length l)
  length-append_one [] h = refl
  length-append_one (k ∷ l) h = ground (arith, length-append_one l h)

  view-start_motion : (m : Motions R) → view (start_motion m).1 ≡ spec begin (view m)
  unfolding start_motion spec
  view-start_motion m = elim (Option-cases (active_motion m)) [
    | inr (i, q) ↦ ground arith
    | inl q ↦
        let fresh : MotionHandle R = new_handle in
        let started : active_motion
              (record { handles = m.handles ++ fresh ∷ []; motion = some (length m.handles) })
            ≡ some (length m.handles) =
          unfold active_motion new_handle in
          ground (arith, handle_at-append m.handles fresh (length m.handles)) in
        ground (arith, started, length-append_one m.handles fresh)
  ]

  view-signal_done : (j : ℕ) (m : Motions R) → view (signal_done j m) ≡ spec (signal j) (view m)
  unfolding signal_done active_motion set_done spec
  view-signal_done j m = elim (Option-cases m.motion) [
    | inl none_yet ↦ ground (arith, length-change_at set_done j m.handles)
    | inr (i, q) ↦ elim (Option-cases (handle_at m.handles i)) [
      | inl gone ↦
          ground (
            arith,
            handle_at-change_at set_done i j m.handles,
            length-change_at set_done j m.handles,
          )
      | inr (h, z) ↦
          ground (
            arith,
            handle_at-change_at set_done i j m.handles,
            length-change_at set_done j m.handles,
          )
    ]
  ]

  view-change_at :
      (f : MotionHandle R → MotionHandle R) (j : ℕ) (m : Motions R)
      → ((h : MotionHandle R) → (f h).done ≡ h.done)
      → view (record m { handles = change_at f j m.handles }) ≡ view m
  view-change_at f j m same =
      ground (arith, active_motion-change_at f j m same, length-change_at f j m.handles)

  done-finish : (e : Ending R) (h : MotionHandle R) → (finish e h).done ≡ h.done
  unfolding finish
  done-finish e h = refl

  done-request_stop : (h : MotionHandle R) → (request_stop h).done ≡ h.done
  unfolding request_stop
  done-request_stop h = refl

  done-record_stop : (r : IndiStopResult) (h : MotionHandle R) → (record_stop r h).done ≡ h.done
  unfolding record_stop
  done-record_stop r h = refl

  view-ask : (m : Motions R) → view (exec ask m) ≡ view m
  unfolding exec emergency_stop
  view-ask m = elim (Option-cases (active_motion m)) [
    | inl q ↦ ground arith
    | inr (i, q) ↦ ground (arith, view-change_at request_stop i m done-request_stop)
  ]

  view-exec : (c : Command R) (m : Motions R) → view (exec c m) ≡ spec c (view m)
  unfolding exec spec
  view-exec begin m = unfold spec in view-start_motion m
  view-exec ask m = view-ask m
  view-exec (end j e) m = unfold finish_motion in view-change_at (finish e) j m (done-finish e)
  view-exec (signal j) m = view-signal_done j m
  view-exec (note j r) m = view-change_at (record_stop r) j m (done-record_stop r)

  -- The moves of a client, over any sequence of starts, ends, stops and recorded stop results of
  -- any of its handles, old ones included, read as the specification that knows only which move
  -- is busy and how many were begun: one at a time, each busy until its own worker sets its
  -- event.
  pub run_refines : (l : List (Command R)) (m : Motions R) → view (run l m) ≡ replay l (view m)
  unfolding run replay
  run_refines [] m = refl
  run_refines (c ∷ l) m = rw (view-exec c m) at (run_refines l (exec c m))
