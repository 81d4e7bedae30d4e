-- ===== src/Tests/Serials.antt =====
-- The functions of the serial adapter at concrete texts and limits.
use on_step_adapter.Base.{[], ◌∷◌, none, arith, false, ◌≡◌, ◌↔◌, refl, true, some}
use on_step_adapter.Base.Int.{pos, ◌-ℤ◌}
use on_step_adapter.Gu.{decode_gu, accepts, flags_of}
use on_step_adapter.Serial.Status.{decode_onstep_status}
use on_step_adapter.Serial.Agreement.{Agree, decoders-Agree}
use on_step_adapter.Serial.Limits.{Limits, meridian_path_coverage}
use on_step_adapter.Serial.Coverage.{IsCovered, full_path_iff}
use on_step_adapter.Serial.Proof.{
  FirmwareIdentity, FirmwareProof, Current, both_sides, test_reasons, mode_reasons,
  identity_reasons, west_reasons, fallback_reasons, validate_firmware_proof,
}
use on_step_adapter.Serial.Validity.{valid_proof_covers}
use on_step_adapter.Tests.{still_home}

decoders-Agree_example : Agree (flags_of still_home) (decode_onstep_status still_home)
unfolding decode_gu accepts flags_of
decoders-Agree_example = decoders-Agree still_home (flags_of still_home) refl refl refl

-- A west threshold at 5 degrees, with the dual-pier extension.
abbrev dual_pier : Limits
dual_pier = record {
  meridian_east = some (pos 5000000);
  meridian_west = some (pos 5000000);
  axis1_max = some (pos 270000000);
  dual_pier_enabled = true;
}

full_path_iff_example :
    (meridian_path_coverage dual_pier (pos 4000000) (pos 6000000)).full_path_firmware_protected
      ≡ true
    ↔ IsCovered dual_pier (pos 4000000) (pos 6000000)
full_path_iff_example = full_path_iff dual_pier (pos 4000000) (pos 6000000)

-- A proof of the dual-pier stop at six degrees, on an unchanged mount.
abbrev identity : FirmwareIdentity
identity = record { product = some "On-Step"; version = some "10.24"; date = none }

abbrev proven : FirmwareProof
proven = record {
  schema = some "onstep-firmware-safeguard-v1";
  test_id = some "watched_onstep_dual_pier_firmware_stop";
  result = some "pass";
  proven_pier_sides = "west" ∷ "east" ∷ [];
  pier_side = none;
  firmware_fallback_type = none;
  physically_safe_confirmed = false;
  firmware_identity = some identity;
  west_limit_minutes = some (pos 6000000);
  axis_limits = none;
  observer = none;
  auto_meridian_flip_enabled = none;
}

abbrev unchanged : Current
unchanged = record {
  firmware_identity = identity;
  dual_pier_enabled = true;
  west_limit_minutes = some (pos 5950000);
  requested_west_stop = pos 6000000;
  axis_limits = [];
  observer = [];
  auto_meridian_flip_enabled = none;
}

valid_proof : validate_firmware_proof (some proven) unchanged ≡ []
unfolding validate_firmware_proof test_reasons mode_reasons identity_reasons west_reasons
    fallback_reasons both_sides ◌-ℤ◌
valid_proof = refl

abbrev read_limits : Limits
read_limits = record dual_pier { meridian_west = some (pos 5950000) }

valid_proof_covers_example :
    (meridian_path_coverage read_limits (pos 4000000) (pos 6000000)).full_path_firmware_protected
    ≡ true
valid_proof_covers_example =
    valid_proof_covers proven unchanged read_limits (pos 4000000) valid_proof refl refl refl
      (omega arith) (omega arith)
