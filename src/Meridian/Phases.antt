-- ===== src/Meridian/Phases.antt =====
-- How the phase moves as the hour angle grows.
use on_step_adapter.Base.{ℕ, ◌≡◌, ◌↔◌, ◌≤◌, true, false, ◌||◌, some, arith}
use on_step_adapter.Base.Int.{ℤ, pos, ◌≤ℤ◌, ◌<ℤ◌, ◌-ℤ◌}
use on_step_adapter.Gu.{Side, east, west}
use on_step_adapter.Policy.{MeridianPolicy, sidereal_seconds}
use on_step_adapter.Snapshot.{IndiMountSnapshot}
use on_step_adapter.Meridian.{
  Phase, pre_meridian_allowed, post_meridian_allowed, flip_required_phase, hard_stop,
  lacks_authority, classify_meridian, side_phase,
}

-- The four phases east of the pier, in the order in which a tracking mount meets them.
abbrev rank : Phase → ℕ
rank pre_meridian_allowed = 0
rank post_meridian_allowed = 1
rank flip_required_phase = 2
rank hard_stop = 3
rank _ = 0

rank-side_phase_mono :
    (p : MeridianPolicy) (side : Side) (a b : ℤ)
    → a ≤ℤ b
    → rank (side_phase side a p).0 ≤ rank (side_phase side b p).0
unfolding side_phase
rank-side_phase_mono p west a b h = ground arith
rank-side_phase_mono p east a b h = ground arith

-- Everything that the classification needs to place an unparked mount at an hour angle.
pub record IsPlaced (s : IndiMountSnapshot) (side : Side) (ha : ℤ) : Type 0 where
  pub operating : (s.parked || s.at_home || s.at_limit) ≡ false
  pub authority : lacks_authority s ≡ false
  pub on_side : s.pier_side ≡ some side
  pub angle : s.ha_deg ≡ some ha

phase-classify_meridian :
    (s : IndiMountSnapshot) (p : MeridianPolicy) (side : Side) (ha : ℤ)
    → IsPlaced s side ha
    → (classify_meridian s p).phase ≡ (side_phase side ha p).0
unfolding classify_meridian
phase-classify_meridian s p side ha h = ground arith

-- Between two observations with full evidence on one side of the pier, a larger hour angle never
-- gives an earlier phase.
classify_meridian_mono :
    (s t : IndiMountSnapshot) (p : MeridianPolicy) (side : Side) (a b : ℤ)
    → IsPlaced s side a
    → IsPlaced t side b
    → a ≤ℤ b
    → rank (classify_meridian s p).phase ≤ rank (classify_meridian t p).phase
classify_meridian_mono s t p side a b hs ht h =
    rw (phase-classify_meridian s p side a hs, phase-classify_meridian t p side b ht)
      (rank-side_phase_mono p side a b h)

-- With boundaries in order and full evidence on the east side, a flip is required exactly from the
-- flip boundary on, the phase is `hard_stop` exactly from the hard boundary on, and the
-- countdown to the flip is the sidereal time of the angle that is left.
classify_meridian_east :
    (s : IndiMountSnapshot) (p : MeridianPolicy) (ha : ℤ)
    → IsPlaced s east ha
    → pos 0 <ℤ p.flip_request_deg
    → p.flip_request_deg <ℤ p.hard_stop_deg
    → (((classify_meridian s p).flip_required ≡ true) ↔ (p.flip_request_deg ≤ℤ ha))
      × (((classify_meridian s p).phase ≡ hard_stop) ↔ (p.hard_stop_deg ≤ℤ ha))
      × ((classify_meridian s p).seconds_to_flip_boundary
          ≡ some (sidereal_seconds (p.flip_request_deg -ℤ ha)))
unfolding classify_meridian
classify_meridian_east s p ha h f g = ground arith
