-- ===== src/Policy.antt =====
-- onstep_adapter/meridian_policy.py: the meridian boundaries that follow from the controller's
-- guards. Degrees are in µdeg. Guard minutes are in units of 4/1,000,000 minute, so that four
-- minutes to a degree is a change of unit. Durations are in units of 1/3,600,000,000,000 second, in
-- which SIDEREAL_DEGREES_PER_SECOND (360 degrees in 86164.0905 s) is one µdeg in 861,640,905 units.
pub mod Bounds
use on_step_adapter.Base.{
  ℕ, Bool, true, false, ◌&&◌, ◌||◌, not, Option, none, some, List, [], ◌∷◌, ◌++◌, all,
  if◌then◌else◌,
}
use on_step_adapter.Base.Int.{ℤ, pos, ◌-ℤ◌, scale, ltb_ℤ, leb_ℤ}
use on_step_adapter.Outcome.{Outcome, ok, raised, value_error, raise_if, ◌>>=◌, ◌>>◌}

-- A Python float: a number, or one of nan, inf and -inf.
pub data Real : Type 0 where
  finite : ℤ → Real
  non_finite : Real

-- `math.isfinite`
abbrev pub is_finite : Real → Bool
is_finite (finite x) = true
is_finite non_finite = false

-- Read only behind `is_finite`.
abbrev pub value : Real → ℤ
value (finite x) = x
value non_finite = pos 0

pub record MeridianPolicy : Type 0 where
  pub firmware_guard_deg : ℤ
  pub flip_request_deg : ℤ
  pub hard_stop_deg : ℤ
  pub seconds_flip_to_stop : ℤ
  pub max_exposure_seconds_at_flip : ℤ
  pub flip_allowance_seconds : ℤ
  pub reserve_seconds : ℤ

pub record PolicyInput : Type 0 where
  pub east_guard_minutes : Real
  pub west_guard_minutes : Real
  pub flip_lead_deg : Real
  pub stop_margin_deg : Real
  pub flip_allowance_seconds : Real
  pub reserve_seconds : Real
  pub flip_request_deg : Option Real
  pub hard_stop_deg : Option Real

abbrev sidereal_units : ℕ
sidereal_units = 861640905

-- degrees / SIDEREAL_DEGREES_PER_SECOND
unfoldable pub sidereal_seconds : ℤ → ℤ
sidereal_seconds deg = scale sidereal_units deg

abbrev pub min_ℤ : ℤ → ℤ → ℤ
min_ℤ a b = if ltb_ℤ b a then b else a

abbrev given : Option Real → List Real
given none = []
given (some x) = x ∷ []

-- `default if option is None else option`
abbrev or_value : Option Real → ℤ → ℤ
or_value none d = d
or_value (some x) d = value x

unfoldable pub values : PolicyInput → List Real
values i =
    i.east_guard_minutes
    ∷ i.west_guard_minutes
    ∷ i.flip_lead_deg
    ∷ i.stop_margin_deg
    ∷ i.flip_allowance_seconds
    ∷ i.reserve_seconds
    ∷ (given i.flip_request_deg ++ given i.hard_stop_deg)

unfoldable pub guard_of : PolicyInput → ℤ
guard_of i = min_ℤ (value i.east_guard_minutes) (value i.west_guard_minutes)

unfoldable pub flip_of : PolicyInput → ℤ
flip_of i = or_value i.flip_request_deg (guard_of i -ℤ value i.flip_lead_deg)

unfoldable pub stop_of : PolicyInput → ℤ
stop_of i = or_value i.hard_stop_deg (guard_of i -ℤ value i.stop_margin_deg)

unfoldable pub budget_of : PolicyInput → ℤ
budget_of i =
    sidereal_seconds (stop_of i -ℤ flip_of i)
    -ℤ value i.flip_allowance_seconds
    -ℤ value i.reserve_seconds

unfoldable pub derive_meridian_policy : PolicyInput → Outcome MeridianPolicy
derive_meridian_policy i = do
  raise_if (not (all is_finite (values i))) (value_error "Meridian policy inputs must be finite")
  raise_if (leb_ℤ (guard_of i) (pos 0))
      (value_error "Both firmware guard limits must be positive and readable")
  raise_if
      (leb_ℤ (value i.flip_lead_deg) (value i.stop_margin_deg)
        || leb_ℤ (value i.stop_margin_deg) (pos 0))
      (value_error "The flip lead must exceed the stop margin")
  raise_if
      (leb_ℤ (value i.flip_allowance_seconds) (pos 0) || ltb_ℤ (value i.reserve_seconds) (pos 0))
      (value_error "Flip allowance must be positive and reserve nonnegative")
  raise_if
      (not (
        ltb_ℤ (pos 0) (flip_of i)
        && ltb_ℤ (flip_of i) (stop_of i)
        && ltb_ℤ (stop_of i) (guard_of i)))
      (value_error "Configured flip/stop must be ordered below both firmware guards")
  raise_if (ltb_ℤ (budget_of i) (pos 0))
      (value_error "Firmware guard leaves insufficient time for flip and reserve")
  ok (record {
    firmware_guard_deg = guard_of i;
    flip_request_deg = flip_of i;
    hard_stop_deg = stop_of i;
    seconds_flip_to_stop = sidereal_seconds (stop_of i -ℤ flip_of i);
    max_exposure_seconds_at_flip = budget_of i;
    flip_allowance_seconds = value i.flip_allowance_seconds;
    reserve_seconds = value i.reserve_seconds;
  })
