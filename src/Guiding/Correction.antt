-- ===== src/Guiding/Correction.antt =====
-- onstep_adapter/indi_guiding.py: `correction`, an offset in arcseconds turned into a pulse.
-- Offsets and rates are in millionths of an arcsecond (per second). `int(round(x))` rounds half
-- to even.
use on_step_adapter.Base.{
  ℕ, ◌+◌, ◌*◌, ◌/◌, ◌%◌, Bool, Option, none, some, String, ◌==◌, ltb, if◌then◌else◌,
}
use on_step_adapter.Base.Int.{ℤ, pos, abs, ltb_ℤ, leb_ℤ}
use on_step_adapter.Outcome.{Outcome, ok, raised, value_error}
use on_step_adapter.Policy.{Real, finite, non_finite}
use on_step_adapter.Transport.{Io}
use on_step_adapter.Tracking.{AuthorityPolicy}
use on_step_adapter.Watch.{Watch}
use on_step_adapter.Guiding.{
  GuideAxis, ra, dec, GuideDirection, north, south, east, west, min_guide_pulse_ms,
  max_guide_pulse_ms,
}
use on_step_adapter.Guiding.Pulse.{IndiGuidePulseResult, pulse_towards}

pub record IndiGuideCalibration : Type 0 where
  pub ra_east : Option Real
  pub ra_west : Option Real
  pub dec_north : Option Real
  pub dec_south : Option Real

-- `correction_direction`; another axis is no value here.
unfoldable correction_direction : GuideAxis → ℤ → GuideDirection
correction_direction ra offset = if ltb_ℤ (pos 0) offset then east else west
correction_direction dec offset = if ltb_ℤ (pos 0) offset then north else south

-- `rate_for`: KeyError, as ValueError, for a direction of the other axis.
unfoldable rate_for : IndiGuideCalibration → GuideAxis → GuideDirection → Outcome (Option Real)
rate_for c ra east = ok c.ra_east
rate_for c ra west = ok c.ra_west
rate_for c dec north = ok c.dec_north
rate_for c dec south = ok c.dec_south
rate_for c ra north = raised (value_error "Guide direction is invalid for axis")
rate_for c ra south = raised (value_error "Guide direction is invalid for axis")
rate_for c dec east = raised (value_error "Guide direction is invalid for axis")
rate_for c dec west = raised (value_error "Guide direction is invalid for axis")

-- `round(n / d)` for a positive d: the nearest number, the even one of two.
unfoldable pub round_div : ℕ → ℕ → ℕ
round_div n d =
    if ltb (2 * (n % d)) d
    then n / d
    else if ltb d (2 * (n % d))
    then n / d + 1
    else n / d + (n / d) % 2

-- `int(round(abs(requested) / rate * 1000.0))`
unfoldable correction_ms : ℤ → ℕ → ℕ
correction_ms offset rate = round_div (abs offset * 1000) rate

-- What a correction asks of `pulse`.
pub record Correction : Type 0 where
  pub direction : GuideDirection
  pub rate : ℕ
  pub duration_ms : ℕ

-- The rate, where it is given, finite and positive.
unfoldable usable_rate : Outcome (Option Real) → Outcome ℕ
usable_rate (raised e) = raised e
usable_rate (ok none) = raised (value_error "Guide calibration is missing")
usable_rate (ok (some non_finite)) =
    raised (value_error "Guide calibration must be positive and finite")
usable_rate (ok (some (finite x))) =
    if leb_ℤ x (pos 0)
    then raised (value_error "Guide calibration must be positive and finite")
    else ok (abs x)

unfoldable bounded : GuideDirection → ℕ → ℕ → Outcome Correction
bounded direction rate ms =
    if ltb ms min_guide_pulse_ms
    then raised (value_error "Guide correction is below resolution")
    else if ltb max_guide_pulse_ms ms
    then raised (value_error "Guide correction is too large")
    else ok (record { direction = direction; rate = rate; duration_ms = ms })

-- Everything of `correction` up to the pulse.
unfoldable plan_correction : GuideAxis → Real → Option IndiGuideCalibration → Outcome Correction
plan_correction axis non_finite calibration =
    raised (value_error "Guide correction must be finite and non-zero")
plan_correction axis (finite offset) calibration =
    if abs offset == 0
    then raised (value_error "Guide correction must be finite and non-zero")
    else elim calibration [
      | none ↦ raised (value_error "A caller-supplied guide calibration is required")
      | some c ↦
          let direction = correction_direction axis offset in
          elim (usable_rate (rate_for c axis direction)) [
            | raised e ↦ raised e
            | ok rate ↦ bounded direction rate (correction_ms offset rate)
          ]
    ]

pub record IndiGuideCorrectionResult : Type 0 where
  pub axis : GuideAxis
  pub requested_arcsec : Real
  pub direction : GuideDirection
  pub calibration : ℕ
  pub calculated_duration_ms : ℕ
  pub pulse : IndiGuidePulseResult

-- `correction`
unfoldable correction :
    Watch
    → String
    → AuthorityPolicy
    → ℕ
    → Bool
    → ℕ
    → GuideAxis
    → Real
    → Option IndiGuideCalibration
    → Io IndiGuideCorrectionResult
correction c device policy command_timeout busy chunk_ms axis offset calibration w =
    elim (plan_correction axis offset calibration) [
      | raised e ↦ (raised e, w)
      | ok p ↦
          let (r, w') =
            pulse_towards c device policy command_timeout busy chunk_ms p.direction p.duration_ms
              w in
          elim r [
            | raised e ↦ (raised e, w')
            | ok pulse ↦ (
              ok (record {
                axis = axis;
                requested_arcsec = offset;
                direction = p.direction;
                calibration = p.rate;
                calculated_duration_ms = p.duration_ms;
                pulse = pulse;
              }),
              w',
            )
          ]
    ]
