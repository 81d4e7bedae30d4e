-- ===== src/Serial/Coverage.antt =====
-- When the limits cover the whole path over the meridian.
use on_step_adapter.Base.{
  Bool-cases, if◌then◌else◌, ◌≡◌, ◌↔◌, refl, inl, inr, Bool, true, false, ◌&&◌, ◌||◌, Option, none,
  some, arith,
}
use on_step_adapter.Base.Int.{ℤ, pos, ◌+ℤ◌, ◌-ℤ◌, ◌≤ℤ◌, ◌<ℤ◌, leb_ℤ, ltb_ℤ}
use on_step_adapter.Gu.{east, west}
use on_step_adapter.Serial.Limits.{
  Limits, tracking_state, half_wire_minute, in_interval, is_at_most, is_true, judged, active_limit,
  operational_protection, meridian_path_coverage,
}

-- What the limits have to be, in terms of the thresholds alone.
pub record IsCovered (limits : Limits) (flip stop : ℤ) : Type 0 where
  pub flip_nonneg : pos 0 ≤ℤ flip
  pub ordered : flip <ℤ stop
  pub threshold : ℤ
  pub meridian_west : limits.meridian_west ≡ some threshold
  pub not_early : flip -ℤ half_wire_minute ≤ℤ threshold
  pub not_late : threshold ≤ℤ stop +ℤ half_wire_minute
  pub after_flip : (limits.dual_pier_enabled || is_at_most stop limits.axis1_max) ≡ true

preflip-eq :
    (limits : Limits) (ha flip stop : ℤ)
    → leb_ℤ (pos 0) ha ≡ true
    → is_true
        (operational_protection tracking_state false
          (some west)
          (some ha)
          limits
          flip
          stop).protected_to_requested_boundary
      ≡ in_interval flip stop limits.meridian_west
unfolding operational_protection active_limit judged
preflip-eq limits ha flip stop h = elim (Bool-cases (in_interval flip stop limits.meridian_west)) [
  | inl y ↦ ground (arith, h, y)
  | inr n ↦ ground (arith, h, n)
]

postflip-eq :
    (limits : Limits) (flip stop : ℤ)
    → ltb_ℤ flip (pos 0) ≡ false
    → is_true
        (operational_protection tracking_state false
          (some east)
          (some flip)
          limits
          flip
          stop).protected_to_requested_boundary
      ≡ (if limits.dual_pier_enabled
          then in_interval flip stop limits.meridian_west
          else is_at_most stop limits.axis1_max)
unfolding operational_protection active_limit judged
postflip-eq limits flip stop h = elim (Bool-cases (in_interval flip stop limits.meridian_west)) [
  | inl y ↦ elim (Bool-cases (is_at_most stop limits.axis1_max)) [
    | inl z ↦ ground (arith, h, y, z)
    | inr z ↦ ground (arith, h, y, z)
  ]
  | inr y ↦ elim (Bool-cases (is_at_most stop limits.axis1_max)) [
    | inl z ↦ ground (arith, h, y, z)
    | inr z ↦ ground (arith, h, y, z)
  ]
]

in_interval_iff :
    (flip stop : ℤ) (threshold : Option ℤ)
    → (in_interval flip stop threshold ≡ true) ↔ (
        (t : ℤ) × (threshold ≡ some t)
        × (flip -ℤ half_wire_minute ≤ℤ t)
        × (t ≤ℤ stop +ℤ half_wire_minute))
unfolding in_interval
in_interval_iff flip stop none = (λ h. absurd (ground arith), λ (t, h, a, b). absurd (ground arith))
in_interval_iff flip stop (some t) =
    (λ h. (t, refl, ground arith, ground arith), λ (u, h, a, b). ground arith)

sample_nonneg : (flip : ℤ) → leb_ℤ (pos 0) (if ltb_ℤ (pos 0) flip then flip else pos 0) ≡ true
sample_nonneg flip = ground arith

coverage-eq :
    (limits : Limits) (flip stop : ℤ)
    → ltb_ℤ flip (pos 0) ≡ false
    → (meridian_path_coverage limits flip stop).full_path_firmware_protected ≡ (
        (leb_ℤ (pos 0) flip && ltb_ℤ flip stop)
        && in_interval flip stop limits.meridian_west
        && (if limits.dual_pier_enabled
            then in_interval flip stop limits.meridian_west
            else is_at_most stop limits.axis1_max))
unfolding meridian_path_coverage
coverage-eq limits flip stop h =
    let sample = (if ltb_ℤ (pos 0) flip then flip else pos 0) in
    rw (preflip-eq limits sample flip stop (sample_nonneg flip), postflip-eq limits flip stop h)
      refl

and_left : (a b : Bool) → (a && b) ≡ true → a ≡ true
and_left true b h = refl
and_left false b h = h

flip_nonneg :
    (limits : Limits) (flip stop : ℤ)
    → (meridian_path_coverage limits flip stop).full_path_firmware_protected ≡ true
    → ltb_ℤ flip (pos 0) ≡ false
unfolding meridian_path_coverage
flip_nonneg limits flip stop h =
    ground (arith, and_left (leb_ℤ (pos 0) flip && ltb_ℤ flip stop) _ (and_left _ _ h))

path-IsCovered :
    (limits : Limits) (flip stop : ℤ)
    → (meridian_path_coverage limits flip stop).full_path_firmware_protected ≡ true
    → IsCovered limits flip stop
path-IsCovered limits flip stop h =
    let shut = flip_nonneg limits flip stop h in
    let (t, readable, low, high) =
      (in_interval_iff flip stop limits.meridian_west).0
        (ground (arith, coverage-eq limits flip stop shut)) in
    record {
      flip_nonneg = ground arith;
      ordered = ground (arith, coverage-eq limits flip stop shut);
      threshold = t;
      meridian_west = readable;
      not_early = low;
      not_late = high;
      after_flip = ground (arith, coverage-eq limits flip stop shut);
    }

covered_path :
    (limits : Limits) (flip stop : ℤ)
    → IsCovered limits flip stop
    → (meridian_path_coverage limits flip stop).full_path_firmware_protected ≡ true
covered_path limits flip stop c =
    let inside =
      (in_interval_iff flip stop limits.meridian_west).1
        (c.threshold, c.meridian_west, c.not_early, c.not_late) in
    let shut : ltb_ℤ flip (pos 0) ≡ false = ground (arith, c.flip_nonneg) in
    ground
      (arith, coverage-eq limits flip stop shut, inside, c.flip_nonneg, c.ordered, c.after_flip)

-- The path over the meridian counts as protected by the firmware exactly if the flip is not before
-- the meridian and lies before the stop, the west threshold is readable and lies between the two,
-- half a minute on the wire either way, and after the flip either the dual-pier extension is on or
-- the maximum of axis 1 is readable and not beyond the stop.
pub full_path_iff :
    (limits : Limits) (flip stop : ℤ)
    → (meridian_path_coverage limits flip stop).full_path_firmware_protected ≡ true
      ↔ IsCovered limits flip stop
full_path_iff limits flip stop = (path-IsCovered limits flip stop, covered_path limits flip stop)
