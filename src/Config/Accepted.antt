-- ===== src/Config/Accepted.antt =====
-- What an accepted configuration is good for.
use on_step_adapter.Base.{◌≡◌, true, some, all, arith}
use on_step_adapter.Base.Int.{pos, ◌≤ℤ◌, ◌<ℤ◌}
use on_step_adapter.Outcome.{ok}
use on_step_adapter.Policy.{
  Real, is_finite, value, MeridianPolicy, values, guard_of, flip_of, stop_of, budget_of,
  derive_meridian_policy,
}
use on_step_adapter.Policy.Bounds.{IsUsable, derive_meridian_policy_iff}
use on_step_adapter.Config.{
  IndiRuntimeConfig, numeric, between, is_dec_range, is_known_policy, quarter, minus_quarter,
  validate, check_mover, check_guide,
}
use on_step_adapter.Client.Startup.{policy_input, build}

-- What the derivation of the policy and the constructors ask of a configuration.
record IsSound (c : IndiRuntimeConfig) : Type 0 where
  numbers : all is_finite (numeric c) ≡ true
  flip : pos 0 <ℤ value c.flip_request_deg
  stop : value c.flip_request_deg <ℤ value c.tracking_stop_deg
  allowance : pos 0 <ℤ value c.flip_allowance_seconds
  reserve : pos 0 ≤ℤ value c.reserve_seconds
  altitude : between minus_quarter quarter (value c.movement_min_alt_deg) ≡ true
  decs : is_dec_range (value c.movement_min_dec_deg) (value c.movement_max_dec_deg) ≡ true
  known : is_known_policy c.tracking_authority_policy ≡ true

validate-IsSound : (c d : IndiRuntimeConfig) → validate c ≡ ok d → IsSound c
unfolding validate
validate-IsSound c d h = ground arith

build-ok : (c : IndiRuntimeConfig) (p : MeridianPolicy) → IsSound c → (build (some c) p).0 ≡ ok tt
unfolding build check_mover check_guide numeric
build-ok c p s = ground (arith, s.numbers, s.altitude, s.decs, s.known)

policy_input-IsUsable :
    (c : IndiRuntimeConfig) (east west : Real)
    → IsSound c
    → is_finite east ≡ true
    → is_finite west ≡ true
    → value c.tracking_stop_deg <ℤ guard_of (policy_input (some c) east west)
    → pos 0 ≤ℤ budget_of (policy_input (some c) east west)
    → IsUsable (policy_input (some c) east west)
unfolding policy_input values numeric flip_of stop_of
policy_input-IsUsable c east west s e w above left = record {
  numbers = ground (arith, s.numbers);
  guarded = ground (arith, s.flip, s.stop);
  lead = ground arith;
  margin = ground arith;
  allowance = s.allowance;
  reserve = s.reserve;
  flip_positive = s.flip;
  flip_before_stop = s.stop;
  stop_before_guard = above;
  time_left = left;
}

-- A configuration that passes the checks of the file leaves the start of a session only what the
-- mount reports to refuse: with finite guards that lie above its hard stop and leave time for the
-- flip and the reserve, a policy is derived and the objects on it are built.
pub accepted_config_starts :
    (c d : IndiRuntimeConfig) (east west : Real)
    → validate c ≡ ok d
    → is_finite east ≡ true
    → is_finite west ≡ true
    → value c.tracking_stop_deg <ℤ guard_of (policy_input (some c) east west)
    → pos 0 ≤ℤ budget_of (policy_input (some c) east west)
    → (p : MeridianPolicy) × (derive_meridian_policy (policy_input (some c) east west) ≡ ok p)
      × ((build (some c) p).0 ≡ ok tt)
accepted_config_starts c d east west h e w above left =
    let s = validate-IsSound c d h in
    let (p, derived) =
      (derive_meridian_policy_iff (policy_input (some c) east west)).1
        (policy_input-IsUsable c east west s e w above left) in
    (p, derived, build-ok c p s)
