-- ===== src/Meridian/Stops.antt =====
-- When the classification asks for a stop.
use on_step_adapter.Base.{◌≡◌, ◌⊎◌, true, false, ◌||◌, Option, none, some, arith}
use on_step_adapter.Base.Int.{ℤ, ◌≤ℤ◌, pos}
use on_step_adapter.Gu.{east}
use on_step_adapter.Snapshot.{IndiMountSnapshot}
use on_step_adapter.Policy.{MeridianPolicy}
use on_step_adapter.Meridian.{lacks_authority, classify_meridian}

-- A live limit report of an unparked mount.
abbrev pub AtFirmwareLimit : IndiMountSnapshot → Type 0
AtFirmwareLimit s = (s.at_limit ≡ true) × (s.status_live ≡ true)

-- A known hour angle that has passed the meridian and both boundaries.
abbrev PastBoundaries : Option ℤ → MeridianPolicy → Type 0
PastBoundaries none p = ⊥
PastBoundaries (some ha) p = (pos 0 ≤ℤ ha) × (p.flip_request_deg ≤ℤ ha) × (p.hard_stop_deg ≤ℤ ha)

-- Authoritative evidence that the mount, on the east side, is at or past the hard boundary.
abbrev pub PastHardStop : IndiMountSnapshot → MeridianPolicy → Type 0
PastHardStop s p =
    (lacks_authority s ≡ false) × (s.pier_side ≡ some east) × PastBoundaries s.ha_deg p

-- A stop is required only of a mount that moves, is neither parked nor at HOME, and either reports
-- a limit live, or is past the hard boundary on the east side with nothing missing from the
-- evidence: fresh status and coordinates, a time and site baseline, a connected device and no
-- conflict about the pier side.
pub classify_meridian_stop_sound :
    (s : IndiMountSnapshot) (p : MeridianPolicy)
    → (classify_meridian s p).tracking_stop_required ≡ true
    → ((s.parked || s.at_home) ≡ false)
      × ((s.tracking || s.slewing) ≡ true)
      × (AtFirmwareLimit s ⊎ PastHardStop s p)
unfolding classify_meridian
classify_meridian_stop_sound s p h = ground arith

-- A stop is always required of a mount that tracks or slews, is neither parked nor at HOME, and
-- either reports a limit live, or is at or past the hard boundary on the east side, its hour angle
-- not negative and not before the flip boundary, with nothing missing from the evidence.
pub classify_meridian_stop_complete :
    (s : IndiMountSnapshot) (p : MeridianPolicy)
    → (s.parked || s.at_home) ≡ false
    → (s.tracking || s.slewing) ≡ true
    → AtFirmwareLimit s ⊎ PastHardStop s p
    → (classify_meridian s p).tracking_stop_required ≡ true
unfolding classify_meridian
classify_meridian_stop_complete s p idle moves e = ground arith
