-- ===== src/Serial/Validity.antt =====
-- A valid proof of the dual-pier stop against the coverage of the path over the meridian.
use on_step_adapter.Base.{
  ◌≡◌, refl, inl, inr, true, some, List, [], ◌∷◌, ◌++◌, Option-cases, Bool-cases, arith,
}
use on_step_adapter.Base.Int.{ℤ, pos, ◌+ℤ◌, ◌-ℤ◌, ◌≤ℤ◌, ◌<ℤ◌, int_laws}
use on_step_adapter.Serial.Limits.{Limits, meridian_path_coverage}
use on_step_adapter.Serial.Coverage.{IsCovered, full_path_iff}
use on_step_adapter.Serial.Proof.{
  half_minute, both_sides, test_reasons, identity_reasons, FirmwareProof, Current, Reason, is_dual,
  is_close, mode_reasons, west_reasons, fallback_reasons, validate_firmware_proof,
}

append_nil : (a b : List Reason) → a ++ b ≡ [] → (a ≡ []) × (b ≡ [])
append_nil [] b h = (refl, h)
append_nil (x ∷ a) b h = cc

valid_reasons :
    (p : FirmwareProof) (c : Current)
    → validate_firmware_proof (some p) c ≡ []
    → (mode_reasons p c ≡ []) × (west_reasons p c ≡ [])
unfolding validate_firmware_proof
valid_reasons p c valid =
    let wests = west_reasons p c ++ fallback_reasons p c in
    let (tests, r1) =
      append_nil (test_reasons p) (mode_reasons p c ++ (identity_reasons p c ++ wests)) valid in
    let (modes, r2) = append_nil (mode_reasons p c) (identity_reasons p c ++ wests) r1 in
    let (same, r3) = append_nil (identity_reasons p c) wests r2 in
    (modes, (append_nil (west_reasons p c) (fallback_reasons p c) r3).0)

dual_enabled :
    (p : FirmwareProof) (c : Current)
    → is_dual p ≡ true
    → mode_reasons p c ≡ []
    → c.dual_pier_enabled ≡ true
unfolding mode_reasons
dual_enabled p c dual none_left = elim (Bool-cases c.dual_pier_enabled) [
  | inl y ↦ y
  | inr n ↦ elim (Bool-cases (both_sides p.proven_pier_sides)) [
    | inl a ↦ absurd (ground (arith, dual, none_left, n, a))
    | inr a ↦ absurd (ground (arith, dual, none_left, n, a))
  ]
]

west_close :
    (p : FirmwareProof) (c : Current)
    → west_reasons p c ≡ []
    → (w : ℤ) × (c.west_limit_minutes ≡ some w) × (is_close w c.requested_west_stop ≡ true)
unfolding west_reasons
west_close p c none_left = elim (Option-cases c.west_limit_minutes) [
  | inl z ↦ absurd (ground (arith, none_left))
  | inr (w, z) ↦ elim (Bool-cases (is_close w c.requested_west_stop)) [
    | inl y ↦ (w, z, y)
    | inr n ↦ absurd (ground (arith, none_left, z, n))
  ]
]

close_bounds : (a b : ℤ) → is_close a b ≡ true → (b -ℤ half_minute ≤ℤ a) × (a ≤ℤ b +ℤ half_minute)
unfolding ◌-ℤ◌ ◌+ℤ◌
close_bounds a b h = ground arith

covered :
    (p : FirmwareProof) (c : Current) (limits : Limits) (flip : ℤ)
    → mode_reasons p c ≡ []
    → west_reasons p c ≡ []
    → is_dual p ≡ true
    → limits.meridian_west ≡ c.west_limit_minutes
    → limits.dual_pier_enabled ≡ c.dual_pier_enabled
    → pos 0 ≤ℤ flip
    → flip <ℤ c.requested_west_stop
    → IsCovered limits flip c.requested_west_stop
covered p c limits flip modes wests dual west enabled low high =
    let (w, reads, fits) = west_close p c wests in
    let (above, below) = close_bounds w c.requested_west_stop fits in
    record {
      flip_nonneg = low;
      ordered = high;
      threshold = w;
      meridian_west = ground (arith, west, reads);
      not_early = omega (int_laws, above, high);
      not_late = below;
      after_flip = ground (arith, enabled, dual_enabled p c dual modes);
    }

-- Where a proof of the dual-pier stop is valid, and the limits are those that it was held against,
-- the firmware covers the whole path over the meridian, for every flip between the meridian and the
-- stop that the proof is for.
pub valid_proof_covers :
    (p : FirmwareProof) (c : Current) (limits : Limits) (flip : ℤ)
    → validate_firmware_proof (some p) c ≡ []
    → is_dual p ≡ true
    → limits.meridian_west ≡ c.west_limit_minutes
    → limits.dual_pier_enabled ≡ c.dual_pier_enabled
    → pos 0 ≤ℤ flip
    → flip <ℤ c.requested_west_stop
    → (meridian_path_coverage limits flip c.requested_west_stop).full_path_firmware_protected ≡ true
valid_proof_covers p c limits flip valid dual west enabled low high =
    let (modes, wests) = valid_reasons p c valid in
    (full_path_iff limits flip c.requested_west_stop).1
      (covered p c limits flip modes wests dual west enabled low high)
