-- ===== src/Client.antt =====
-- onstep_adapter/indi_client.py: the client that owns the connection, the mount's moves and the
-- session's baselines. The client's objects are built by `connect` and forgotten by `close`; here
-- they are the fields that say so. The moves are a store of handles: `motion` is the index of the
-- one in the client's field `_motion`, the others belong to callers that still hold them.
pub mod Commands
pub mod Refinement
pub mod Exclusive
pub mod Session
pub mod Baseline
pub mod Startup
pub mod Ready
pub mod Closing
use on_step_adapter.Base.{
  ℕ, zero, suc, Bool, true, false, ◌&&◌, ◌||◌, not, Option, none, some, List, [], ◌∷◌, ◌++◌, String,
  length, if◌then◌else◌,
}
use on_step_adapter.Outcome.{Exc, Outcome, ok, raised, runtime_error, connection_error, is_caught}
use on_step_adapter.Stop.{IndiStopResult}
use on_step_adapter.Motion.{
  MotionHandle, Ending, new_handle, finish, set_done, request_stop, record_stop,
}

-- The moves of one client, in the order in which they were started.
pub record Motions (R : Type 0) : Type 0 where
  pub handles : List (MotionHandle R)
  pub motion : Option ℕ

module _ {R : Type 0} where
  unfoldable pub handle_at : List (MotionHandle R) → ℕ → Option (MotionHandle R)
  handle_at [] i = none
  handle_at (h ∷ l) zero = some h
  handle_at (h ∷ l) (suc i) = handle_at l i

  -- A method called on the handle at an index.
  unfoldable pub change_at :
      (MotionHandle R → MotionHandle R) → ℕ → List (MotionHandle R) → List (MotionHandle R)
  change_at f i [] = []
  change_at f zero (h ∷ l) = f h ∷ l
  change_at f (suc i) (h ∷ l) = h ∷ change_at f i l

  abbrev pub is_running : Option (MotionHandle R) → Bool
  is_running none = false
  is_running (some h) = not h.done

  -- `active_motion`
  unfoldable pub active_motion : Motions R → Option ℕ
  active_motion m = elim m.motion [
    | none ↦ none
    | some i ↦ if is_running (handle_at m.handles i) then some i else none
  ]

  -- `_start_motion`, under the motion lock.
  unfoldable pub start_motion : Motions R → Outcome ℕ × Motions R
  start_motion m = elim (active_motion m) [
    | some i ↦ (raised (runtime_error "Another mount move is active"), m)
    | none ↦ (
      ok (length m.handles),
      record { handles = m.handles ++ new_handle ∷ []; motion = some (length m.handles) },
    )
  ]

  -- `_require_no_motion`
  unfoldable require_no_motion : Motions R → Outcome (Unit {0})
  require_no_motion m = elim (active_motion m) [
    | some i ↦ raised (runtime_error "A mount move is active")
    | none ↦ ok tt
  ]

  -- The worker of the move at an index ends it, under the handle's lock.
  unfoldable pub finish_motion : ℕ → Ending R → Motions R → Motions R
  finish_motion i e m = record m { handles = change_at (finish e) i m.handles }

  -- And it sets the handle's event, with which the move is no longer active.
  unfoldable pub signal_done : ℕ → Motions R → Motions R
  signal_done i m = record m { handles = change_at set_done i m.handles }

  -- `emergency_stop`: `stopped` is what `stop_mount_via_indi` returns, which is called only while
  -- the transport is open.
  unfoldable pub emergency_stop :
      Bool → Outcome IndiStopResult → Motions R → Outcome IndiStopResult × Motions R
  emergency_stop is_open stopped m =
      let active = active_motion m in
      let asked : Motions R = elim active [
        | none ↦ m
        | some i ↦ record m { handles = change_at request_stop i m.handles }
      ] in
      elim is_open [
        | false ↦ (raised (connection_error "INDI client is not connected"), asked)
        | true ↦ elim stopped [
          | raised e ↦ (raised e, asked)
          | ok r ↦ (
            ok r,
            elim active [
              | none ↦ asked
              | some i ↦ record asked { handles = change_at (record_stop r) i asked.handles }
            ],
          )
        ]
      ]
