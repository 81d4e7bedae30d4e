-- ===== src/Policy/Bounds.antt =====
-- Which inputs give a policy, and what a policy promises.
use on_step_adapter.Base.{◌≡◌, ◌↔◌, true, all, arith}
use on_step_adapter.Base.Int.{ℤ, pos, ◌-ℤ◌, ◌+ℤ◌, ◌≤ℤ◌, ◌<ℤ◌, int_laws}
use on_step_adapter.Outcome.{ok}
use on_step_adapter.Policy.{
  MeridianPolicy, PolicyInput, is_finite, value, values, guard_of, flip_of, stop_of, budget_of,
  sidereal_seconds, min_ℤ, derive_meridian_policy,
}

-- The conditions under which the boundaries make sense.
pub record IsUsable (i : PolicyInput) : Type 0 where
  pub numbers : all is_finite (values i) ≡ true
  pub guarded : pos 0 <ℤ guard_of i
  pub lead : value i.stop_margin_deg <ℤ value i.flip_lead_deg
  pub margin : pos 0 <ℤ value i.stop_margin_deg
  pub allowance : pos 0 <ℤ value i.flip_allowance_seconds
  pub reserve : pos 0 ≤ℤ value i.reserve_seconds
  pub flip_positive : pos 0 <ℤ flip_of i
  pub flip_before_stop : flip_of i <ℤ stop_of i
  pub stop_before_guard : stop_of i <ℤ guard_of i
  pub time_left : pos 0 ≤ℤ budget_of i

-- What the supervisor and the mount rely on in a policy.
pub record IsSafe (i : PolicyInput) (p : MeridianPolicy) : Type 0 where
  pub flip_positive : pos 0 <ℤ p.flip_request_deg
  pub flip_before_stop : p.flip_request_deg <ℤ p.hard_stop_deg
  pub stop_before_guard : p.hard_stop_deg <ℤ p.firmware_guard_deg
  pub below_east : p.firmware_guard_deg ≤ℤ value i.east_guard_minutes
  pub below_west : p.firmware_guard_deg ≤ℤ value i.west_guard_minutes
  pub budget_nonneg : pos 0 ≤ℤ p.max_exposure_seconds_at_flip
  pub budget_adds_up :
      p.max_exposure_seconds_at_flip +ℤ p.flip_allowance_seconds +ℤ p.reserve_seconds
      ≡ sidereal_seconds (p.hard_stop_deg -ℤ p.flip_request_deg)

derive_meridian_policy-IsUsable :
    (i : PolicyInput) (p : MeridianPolicy) → derive_meridian_policy i ≡ ok p → IsUsable i
unfolding derive_meridian_policy
derive_meridian_policy-IsUsable i p h = ground arith

-- Usable inputs give the policy of their boundaries.
policy_of : PolicyInput → MeridianPolicy
policy_of i = record {
  firmware_guard_deg = guard_of i;
  flip_request_deg = flip_of i;
  hard_stop_deg = stop_of i;
  seconds_flip_to_stop = sidereal_seconds (stop_of i -ℤ flip_of i);
  max_exposure_seconds_at_flip = budget_of i;
  flip_allowance_seconds = value i.flip_allowance_seconds;
  reserve_seconds = value i.reserve_seconds;
}

derive_meridian_policy-eq_ok :
    (i : PolicyInput) (p : MeridianPolicy) → derive_meridian_policy i ≡ ok p → p ≡ policy_of i
unfolding derive_meridian_policy policy_of
derive_meridian_policy-eq_ok i p h = ground arith

policy_of-eq : (i : PolicyInput) → IsUsable i → derive_meridian_policy i ≡ ok (policy_of i)
unfolding derive_meridian_policy policy_of
policy_of-eq i u = ground arith

min_ℤ-le_left : (a b : ℤ) → min_ℤ a b ≤ℤ a
min_ℤ-le_left a b = ground arith

min_ℤ-le_right : (a b : ℤ) → min_ℤ a b ≤ℤ b
min_ℤ-le_right a b = ground arith

budget-adds_up : (a b c : ℤ) → a -ℤ b -ℤ c +ℤ b +ℤ c ≡ a
budget-adds_up a b c = omega int_laws

policy_of-IsSafe : (i : PolicyInput) → IsUsable i → IsSafe i (policy_of i)
unfolding policy_of guard_of budget_of
policy_of-IsSafe i u = record {
  flip_positive = u.flip_positive;
  flip_before_stop = u.flip_before_stop;
  stop_before_guard = u.stop_before_guard;
  below_east = min_ℤ-le_left (value i.east_guard_minutes) (value i.west_guard_minutes);
  below_west = min_ℤ-le_right (value i.east_guard_minutes) (value i.west_guard_minutes);
  budget_nonneg = u.time_left;
  budget_adds_up = budget-adds_up _ _ _;
}

-- A derived policy has its flip and stop boundaries in order, positive and below both firmware
-- guards, and the exposure budget is not negative and fills, with the flip allowance and the
-- reserve, exactly the sidereal time from the flip boundary to the hard stop.
pub derive_meridian_policy-IsSafe :
    (i : PolicyInput) (p : MeridianPolicy) → derive_meridian_policy i ≡ ok p → IsSafe i p
derive_meridian_policy-IsSafe i p h =
    rw (derive_meridian_policy-eq_ok i p h)
      (policy_of-IsSafe i (derive_meridian_policy-IsUsable i p h))

-- A policy is derived exactly when the inputs are usable; else the call raises.
pub derive_meridian_policy_iff :
    (i : PolicyInput) → ((p : MeridianPolicy) × (derive_meridian_policy i ≡ ok p)) ↔ IsUsable i
derive_meridian_policy_iff i =
    (λ r. derive_meridian_policy-IsUsable i r.0 r.1, λ u. (policy_of i, policy_of-eq i u))
