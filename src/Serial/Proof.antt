-- ===== src/Serial/Proof.antt =====
-- onstep_adapter/firmware_proof.py: `validate_firmware_proof`, whether the recorded proof of a
-- test on the mount still holds. A field of the record that is missing, or of another type than
-- the code compares with, is none. Minutes of time are the angle that they are, in µdeg. Of the
-- observer only the latitude and the longitude are given, as whole µdeg, to which the code rounds
-- them.
use on_step_adapter.Base.{
  Bool, true, false, ◌&&◌, ◌||◌, not, Option, none, some, List, [], ◌∷◌, ◌++◌, String, all, any,
  if◌then◌else◌,
}
use on_step_adapter.Base.Int.{ℤ, pos, ◌-ℤ◌, abs, leb_ℤ}
use on_step_adapter.Base.Text.{str_eq}

pub data Reason : Type 0 where
  firmware_safeguard_proof_missing firmware_safeguard_proof_schema_mismatch : Reason
  firmware_safeguard_wrong_test firmware_safeguard_test_not_passed : Reason
  firmware_safeguard_both_pier_sides_not_proven dual_pier_west_ha_stop_not_enabled : Reason
  axis1_fallback_pier_east_not_proven axis1_fallback_type_mismatch : Reason
  axis1_fallback_physical_safety_not_confirmed firmware_identity_changed_since_proof : Reason
  west_meridian_limit_unreadable west_meridian_limit_no_longer_matches_policy : Reason
  proof_west_meridian_limit_missing west_meridian_limit_changed_since_proof : Reason
  axis_limits_changed_since_proof observer_changed_since_proof : Reason
  automatic_meridian_flip_state_unreadable : Reason
  automatic_meridian_flip_state_changed_since_proof : Reason

pub record FirmwareIdentity : Type 0 where
  pub product : Option String
  pub version : Option String
  pub date : Option String

-- A dictionary of numbers, whose keys do not repeat.
abbrev Numbers : Type 0
Numbers = List (String × Option ℤ)

pub record FirmwareProof : Type 0 where
  pub schema : Option String
  pub test_id : Option String
  pub result : Option String
  pub proven_pier_sides : List String
  pub pier_side : Option String
  pub firmware_fallback_type : Option String
  pub physically_safe_confirmed : Bool
  pub firmware_identity : Option FirmwareIdentity
  pub west_limit_minutes : Option ℤ
  pub axis_limits : Option Numbers
  pub observer : Option Numbers
  pub auto_meridian_flip_enabled : Option Bool

-- The state of the mount that a proof is held against.
pub record Current : Type 0 where
  pub firmware_identity : FirmwareIdentity
  pub dual_pier_enabled : Bool
  pub west_limit_minutes : Option ℤ
  pub requested_west_stop : ℤ
  pub axis_limits : Numbers
  pub observer : Numbers
  pub auto_meridian_flip_enabled : Option Bool

abbrev is_word : Option String → String → Bool
is_word none word = false
is_word (some s) word = str_eq s word

abbrev same_word : Option String → Option String → Bool
same_word none none = true
same_word (some a) (some b) = str_eq a b
same_word _ _ = false

abbrev same_identity : Option FirmwareIdentity → FirmwareIdentity → Bool
same_identity none c = false
same_identity (some p) c =
    same_word p.product c.product && same_word p.version c.version && same_word p.date c.date

abbrev same_number : Option ℤ → Option ℤ → Bool
same_number none none = true
same_number (some a) (some b) = leb_ℤ a b && leb_ℤ b a
same_number _ _ = false

abbrev has_entry : Numbers → String × Option ℤ → Bool
has_entry d kv = any (λ e. str_eq e.0 kv.0 && same_number e.1 kv.1) d

-- `==` of two dictionaries
unfoldable pub same_numbers : Option Numbers → Numbers → Bool
same_numbers none d = false
same_numbers (some c) d = all (has_entry d) c && all (has_entry c) d

abbrev is_flag : Option Bool → Bool → Bool
is_flag none b = false
is_flag (some true) b = b
is_flag (some false) b = not b

abbrev holds : String → List String → Bool
holds s l = any (str_eq s) l

-- `set(sides) == {"east", "west"}`
unfoldable pub both_sides : List String → Bool
both_sides l = holds "east" l && holds "west" l && all (λ s. str_eq s "east" || str_eq s "west") l

abbrev unless : Bool → Reason → List Reason
unless true r = []
unless false r = r ∷ []

-- Half a minute of time.
abbrev pub half_minute : ℤ
half_minute = pos 125000

abbrev pub is_close : ℤ → ℤ → Bool
is_close a b = leb_ℤ (pos (abs (a -ℤ b))) half_minute

abbrev dual_pier_test_id : String
dual_pier_test_id = "watched_onstep_dual_pier_firmware_stop"

abbrev axis1_fallback_test_id : String
axis1_fallback_test_id = "watched_onstep_axis1_fallback_stop"

abbrev pub is_dual : FirmwareProof → Bool
is_dual p = is_word p.test_id dual_pier_test_id

unfoldable pub mode_reasons : FirmwareProof → Current → List Reason
mode_reasons p c =
    if is_dual p
    then unless (both_sides p.proven_pier_sides) firmware_safeguard_both_pier_sides_not_proven
      ++ unless c.dual_pier_enabled dual_pier_west_ha_stop_not_enabled
    else unless (is_word p.pier_side "east") axis1_fallback_pier_east_not_proven
      ++ (unless (is_word p.firmware_fallback_type "axis1_max") axis1_fallback_type_mismatch
          ++ unless p.physically_safe_confirmed axis1_fallback_physical_safety_not_confirmed)

unfoldable pub west_reasons : FirmwareProof → Current → List Reason
west_reasons p c = elim c.west_limit_minutes [
  | none ↦ west_meridian_limit_unreadable ∷ proof_west_meridian_limit_missing ∷ []
  | some west ↦
      unless (is_close west c.requested_west_stop) west_meridian_limit_no_longer_matches_policy
      ++ elim p.west_limit_minutes [
        | none ↦ proof_west_meridian_limit_missing ∷ []
        | some proven ↦ unless (is_close proven west) west_meridian_limit_changed_since_proof
      ]
]

unfoldable pub fallback_reasons : FirmwareProof → Current → List Reason
fallback_reasons p c =
    if is_dual p
    then []
    else unless (same_numbers p.axis_limits c.axis_limits) axis_limits_changed_since_proof
      ++ (unless (same_numbers p.observer c.observer) observer_changed_since_proof
          ++ elim c.auto_meridian_flip_enabled [
            | none ↦ automatic_meridian_flip_state_unreadable ∷ []
            | some now ↦
                unless (is_flag p.auto_meridian_flip_enabled now)
                  automatic_meridian_flip_state_changed_since_proof
          ])

unfoldable pub test_reasons : FirmwareProof → List Reason
test_reasons p =
    unless (is_word p.schema "onstep-firmware-safeguard-v1")
      firmware_safeguard_proof_schema_mismatch
    ++ (unless (is_dual p || is_word p.test_id axis1_fallback_test_id) firmware_safeguard_wrong_test
        ++ unless (is_word p.result "pass") firmware_safeguard_test_not_passed)

unfoldable pub identity_reasons : FirmwareProof → Current → List Reason
identity_reasons p c =
    unless (same_identity p.firmware_identity c.firmware_identity)
      firmware_identity_changed_since_proof

-- `validate_firmware_proof`: the reasons against the proof; it is valid if there are none.
unfoldable pub validate_firmware_proof : Option FirmwareProof → Current → List Reason
validate_firmware_proof none c = firmware_safeguard_proof_missing ∷ []
validate_firmware_proof (some p) c =
    test_reasons p
    ++ (mode_reasons p c ++ (identity_reasons p c ++ (west_reasons p c ++ fallback_reasons p c)))
