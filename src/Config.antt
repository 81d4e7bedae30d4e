-- ===== src/Config.antt =====
-- onstep_adapter/indi_config.py: the checks of `load_indi_config` on what it has read of the
-- file. Reading it, and the conversions that fail before the checks, are not modelled. A flag
-- that is no boolean is none. Angles are in µdeg, the durations in the units of the policy. Also
-- here: what the constructors of IndiAxisMover (indi_axis_motion.py) and IndiGuideController
-- (indi_guiding.py) ask of a configuration, whose other checks are on constants.
pub mod Accepted
use on_step_adapter.Base.{
  ℕ, Bool, true, false, ◌&&◌, ◌||◌, not, Option, none, some, List, [], ◌∷◌, String, all, is_none,
  if◌then◌else◌,
}
use on_step_adapter.Base.Int.{ℤ, pos, negsuc, ltb_ℤ, leb_ℤ}
use on_step_adapter.Base.Text.{str_eq}
use on_step_adapter.Outcome.{Outcome, ok, raised, value_error, raise_if, ◌>>=◌, ◌>>◌}
use on_step_adapter.Policy.{Real, is_finite, value}

pub record IndiRuntimeConfig : Type 0 where
  pub host : String
  pub port : ℤ
  pub device : String
  pub observer_lat : Real
  pub observer_lon : Real
  pub observer_alt_m : Real
  pub flip_request_deg : Real
  pub tracking_stop_deg : Real
  pub flip_allowance_seconds : Real
  pub reserve_seconds : Real
  pub safe_meridian_flip_via_home : Option Bool
  pub focuser_max_position : Option ℤ
  pub home_motion_enabled : Option Bool
  pub tracking_authority_policy : String
  pub movement_min_alt_deg : Real
  pub movement_min_dec_deg : Real
  pub movement_max_dec_deg : Real

-- `low <= x <= high`
abbrev pub between : ℤ → ℤ → ℤ → Bool
between low high x = leb_ℤ low x && leb_ℤ x high

abbrev pub quarter : ℤ
quarter = pos 90000000

abbrev pub minus_quarter : ℤ
minus_quarter = negsuc 89999999

abbrev half : ℤ
half = pos 180000000

abbrev minus_half : ℤ
minus_half = negsuc 179999999

abbrev pub is_known_policy : String → Bool
is_known_policy name = str_eq name "strict" || str_eq name "controller_managed"

unfoldable pub numeric : IndiRuntimeConfig → List Real
numeric c =
    c.observer_lat ∷ c.observer_lon ∷ c.observer_alt_m ∷ c.flip_request_deg ∷ c.tracking_stop_deg
    ∷ c.flip_allowance_seconds ∷ c.reserve_seconds ∷ c.movement_min_alt_deg ∷ c.movement_min_dec_deg
    ∷ c.movement_max_dec_deg ∷ []

abbrev is_no_maximum : Option ℤ → Bool
is_no_maximum none = false
is_no_maximum (some n) = leb_ℤ n (pos 0)

-- -90 <= min_dec < max_dec <= 90
abbrev pub is_dec_range : ℤ → ℤ → Bool
is_dec_range low high = leb_ℤ minus_quarter low && ltb_ℤ low high && leb_ℤ high quarter

-- The checks behind the construction of the result.
unfoldable pub validate : IndiRuntimeConfig → Outcome IndiRuntimeConfig
validate c = do
  raise_if (str_eq c.host "" || str_eq c.device "" || not (between (pos 1) (pos 65535) c.port))
      (value_error "INDI endpoint must have a host, device and valid port")
  raise_if (is_none c.safe_meridian_flip_via_home)
      (value_error "safe_meridian_flip_via_home must be boolean")
  raise_if (is_none c.home_motion_enabled) (value_error "home_motion_enabled must be boolean")
  raise_if (not (is_known_policy c.tracking_authority_policy))
      (value_error "tracking_authority_policy must be 'strict' or 'controller_managed'")
  raise_if (not (all is_finite (numeric c)))
      (value_error "INDI configuration numeric values must be finite")
  raise_if
      (not (between minus_quarter quarter (value c.observer_lat))
        || not (between minus_half half (value c.observer_lon)))
      (value_error "Observer latitude or longitude is out of range")
  raise_if
      (not (
        ltb_ℤ (pos 0) (value c.flip_request_deg)
        && ltb_ℤ (value c.flip_request_deg) (value c.tracking_stop_deg)))
      (value_error "Meridian flip must precede the positive hard stop")
  raise_if
      (leb_ℤ (value c.flip_allowance_seconds) (pos 0) || ltb_ℤ (value c.reserve_seconds) (pos 0))
      (value_error "Flip allowance/reserve is invalid")
  raise_if (is_no_maximum c.focuser_max_position)
      (value_error "Configured focuser maximum must be positive")
  raise_if (not (between minus_quarter quarter (value c.movement_min_alt_deg)))
      (value_error "Movement minimum altitude must be within -90..90 degrees")
  raise_if (not (is_dec_range (value c.movement_min_dec_deg) (value c.movement_max_dec_deg)))
      (value_error "Movement DEC limits must satisfy -90 <= min_dec < max_dec <= 90")
  ok c

abbrev mover_numbers : IndiRuntimeConfig → List Real
mover_numbers c =
    c.observer_lat ∷ c.observer_lon ∷ c.movement_min_alt_deg ∷ c.movement_min_dec_deg
    ∷ c.movement_max_dec_deg ∷ []

-- The checks of `IndiAxisMover.__init__`.
unfoldable pub check_mover : IndiRuntimeConfig → Outcome (Unit {0})
check_mover c = do
  raise_if (not (all is_finite (mover_numbers c)))
      (value_error "Axis movement configuration must be finite")
  raise_if (not (between minus_quarter quarter (value c.movement_min_alt_deg)))
      (value_error "Axis movement minimum altitude is out of range")
  raise_if (not (is_dec_range (value c.movement_min_dec_deg) (value c.movement_max_dec_deg)))
      (value_error "Axis movement DEC bounds are invalid")

-- The check of `IndiGuideController.__init__` on the policy.
unfoldable pub check_guide : IndiRuntimeConfig → Outcome (Unit {0})
check_guide c =
    raise_if (not (is_known_policy c.tracking_authority_policy))
      (value_error "Unknown guiding authority policy")
