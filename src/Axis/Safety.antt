-- ===== src/Axis/Safety.antt =====
-- What a move that fails leaves behind.
use on_step_adapter.Base.{◌≡◌, inl, inr, Bool, true, false, String, arith}
use on_step_adapter.Base.Int.{ℤ}
use on_step_adapter.Outcome.{Exc, Outcome, ok, raised, Outcome-cases}
use on_step_adapter.Snapshot.{IndiMountSnapshot}
use on_step_adapter.Transport.{World, Io}
use on_step_adapter.Axis.{IndiAxisMoveResult, MoveRequest, Start}
use on_step_adapter.Axis.Move.{
  Bounds, drive, prepare, stop_on_failure, is_motion_stopped, move_request,
}

module _ (marks : World → Bool) (emergency_stop : Io (Unit {0}))
    (stopped : (w : World) → marks (emergency_stop w).1 ≡ true) where
  stop_on_failure-marks :
      (x : Outcome IndiAxisMoveResult × World) (e : Exc)
      → (stop_on_failure emergency_stop x).0 ≡ raised e
      → is_motion_stopped e ≡ false
      → marks (stop_on_failure emergency_stop x).1 ≡ true
  unfolding stop_on_failure
  stop_on_failure-marks (ok a, w) e h n = cc
  stop_on_failure-marks (raised x, w) e h n = elim (Outcome-cases (emergency_stop w).0) [
    | inl (a, z) ↦ ground (arith, stopped w)
    | inr (k, z) ↦ ground (arith, stopped w)
  ]

  -- Let every emergency stop leave a mark on the world. Once the preparation of a move has
  -- succeeded, so that its target may be on the wire, every failure other than a requested stop
  -- leaves that mark, whatever raised it: the mount is not left to move on.
  pub failed_move_request_stops :
      (altitude : ℤ → ℤ → ℤ) (bounds : Bounds) (observe : Io IndiMountSnapshot) (device : String)
      (stoppable : Bool) (q : MoveRequest) (w : World) (b : Start) (e : Exc)
      → (prepare altitude bounds observe stoppable q device w).0 ≡ ok b
      → (move_request altitude bounds observe emergency_stop device stoppable q w).0 ≡ raised e
      → is_motion_stopped e ≡ false
      → marks (move_request altitude bounds observe emergency_stop device stoppable q w).1 ≡ true
  unfolding move_request
  failed_move_request_stops altitude bounds observe device stoppable q w b e ready h n =
      let w1 = (prepare altitude bounds observe stoppable q device w).1 in
      ground (arith, ready, stop_on_failure-marks (drive observe stoppable q b device w1) e)
