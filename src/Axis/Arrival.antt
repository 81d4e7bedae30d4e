-- ===== src/Axis/Arrival.antt =====
-- What a move that returns a result has seen.
use on_step_adapter.Base.{ℕ, zero, suc, ◌≤◌, ◌≡◌, Bool, true, ◌&&◌, not, some, if◌then◌else◌}
use on_step_adapter.Watch.{Streak}
use on_step_adapter.Base.Int.{ℤ, ◌≤ℤ◌, ◌+ℤ◌, ◌-ℤ◌, abs}
use on_step_adapter.Outcome.{Outcome, ok}
use on_step_adapter.Snapshot.{IndiMountSnapshot}
use on_step_adapter.Transport.{World, Io}
use on_step_adapter.Axis.{
  is_ra, IndiAxisMoveResult, MoveRequest, arrival_tolerance, Start, delta_of,
}
use on_step_adapter.Axis.Move.{Bounds}

abbrev pub is_resting : IndiMountSnapshot → Bool
is_resting s = not s.tracking && not s.slewing

-- What the confirmation of a stop has seen: `last` was observed, and with it end two observations
-- or more in a row of a mount that neither tracks nor slews, each newer than the one before it.
pub record IsSettled (observe : Io IndiMountSnapshot) (low : ℤ) (last : IndiMountSnapshot)
    : Type 0 where
  pub count : ℕ
  pub twice : 2 ≤ count
  pub at_rest : is_resting last ≡ true
  pub seen_in : World
  pub seen : (observe seen_in).0 ≡ ok last
  pub streak : Streak observe is_resting low count last.status_revision

module _ (observe : Io IndiMountSnapshot) (stoppable : Bool) (q : MoveRequest) (b : Start) where
  -- The last observation, once some are counted.
  abbrev Counted : ℕ → IndiMountSnapshot → Type 0
  Counted zero s = Unit {0}
  Counted (suc n) s = (is_resting s ≡ true) × ((v : World) × ((observe v).0 ≡ ok s))

  -- What the result of a move says of the last observation, and of the offset asked for.
  record IsMeasured (s : IndiMountSnapshot) (r : IndiAxisMoveResult) : Type 0 where
    final_ra : s.ra_hours ≡ some r.final_ra
    final_dec : s.dec_deg ≡ some r.final_dec_deg
    measured : r.measured_deg ≡ delta_of q.axis b r.final_ra r.final_dec_deg
    reached : abs (r.measured_deg -ℤ q.offset) ≤ arrival_tolerance q.offset
    axis : r.axis ≡ q.axis
    offset : r.requested_deg ≡ q.offset
    initial_ra : r.initial_ra ≡ b.ra_hours
    initial_dec : r.initial_dec_deg ≡ b.dec_deg

-- A result that rests on an observation of the mount at rest, at the coordinates that it reports
-- and within the tolerance of the offset that it reports, behind a target inside the bounds on
-- the declination.
pub record IsReached (observe : Io IndiMountSnapshot) (bounds : Bounds) (r : IndiAxisMoveResult)
    : Type 0 where
  pub last : IndiMountSnapshot
  pub settled : (low : ℤ) × IsSettled observe low last
  pub final_ra : last.ra_hours ≡ some r.final_ra
  pub final_dec : last.dec_deg ≡ some r.final_dec_deg
  pub reached : abs (r.measured_deg -ℤ r.requested_deg) ≤ arrival_tolerance r.requested_deg
  pub low :
      bounds.min_dec
      ≤ℤ (if is_ra r.axis then r.initial_dec_deg else r.initial_dec_deg +ℤ r.requested_deg)
  pub high :
      (if is_ra r.axis then r.initial_dec_deg else r.initial_dec_deg +ℤ r.requested_deg)
      ≤ℤ bounds.max_dec
