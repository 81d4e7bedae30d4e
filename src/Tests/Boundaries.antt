-- ===== src/Tests/Boundaries.antt =====
-- The classification, the policy and the decoder at concrete inputs.
use on_step_adapter.Base.{◌<◌, ◌≡◌, ◌⊎◌, refl, inr, true, false, ◌||◌, none, some, [], ◌∷◌, arith}
use on_step_adapter.Base.Int.{pos, ◌-ℤ◌, scale}
use on_step_adapter.Gu.{Gu, east, west, decode_gu}
use on_step_adapter.Policy.{MeridianPolicy, sidereal_seconds}
use on_step_adapter.Meridian.{classify_meridian, lacks_authority}
use on_step_adapter.Meridian.Stops.{
  AtFirmwareLimit, PastHardStop, classify_meridian_stop_sound, classify_meridian_stop_complete,
}
use on_step_adapter.Policy.{
  PolicyInput, finite, values, guard_of, flip_of, stop_of, budget_of, derive_meridian_policy,
}
use on_step_adapter.Policy.Bounds.{IsSafe, derive_meridian_policy-IsSafe}
use on_step_adapter.Mock.{Pose, VirtualMount, raw_gu, slewing as moving, radec, goto}
use on_step_adapter.Mock.Wire.{Reads, decode_gu-raw_gu}
use on_step_adapter.Guiding.{min_guide_pulse_ms, chunks_of}
use on_step_adapter.Guiding.Chunks.{chunks_of_too_short}
use on_step_adapter.Tests.{late, boundaries}

classify_meridian_stop_sound_example :
    ((late.parked || late.at_home) ≡ false)
    × ((late.tracking || late.slewing) ≡ true)
    × (AtFirmwareLimit late ⊎ PastHardStop late boundaries)
unfolding classify_meridian
classify_meridian_stop_sound_example = classify_meridian_stop_sound late boundaries refl

past_hard_stop : PastHardStop late boundaries
unfolding lacks_authority
past_hard_stop = (refl, refl, omega arith)

classify_meridian_stop_complete_example :
    (classify_meridian late boundaries).tracking_stop_required ≡ true
classify_meridian_stop_complete_example =
    classify_meridian_stop_complete late boundaries refl refl (inr past_hard_stop)

-- Guards of 20 and 24 minutes, a lead of 3 degrees and a margin of one.
abbrev guards : PolicyInput
guards = record {
  east_guard_minutes = finite (pos 5000000);
  west_guard_minutes = finite (pos 6000000);
  flip_lead_deg = finite (pos 3000000);
  stop_margin_deg = finite (pos 1000000);
  flip_allowance_seconds = finite (pos 100);
  reserve_seconds = finite (pos 0);
  flip_request_deg = none;
  hard_stop_deg = none;
}

abbrev derived : MeridianPolicy
derived = record {
  firmware_guard_deg = pos 5000000;
  flip_request_deg = pos 2000000;
  hard_stop_deg = pos 4000000;
  seconds_flip_to_stop = pos 1723281810000000;
  max_exposure_seconds_at_flip = pos 1723281809999900;
  flip_allowance_seconds = pos 100;
  reserve_seconds = pos 0;
}

derive_meridian_policy-IsSafe_example : IsSafe guards derived
unfolding derive_meridian_policy values guard_of flip_of ◌-ℤ◌ stop_of budget_of sidereal_seconds
    scale
derive_meridian_policy-IsSafe_example = derive_meridian_policy-IsSafe guards derived refl

abbrev pose : Pose
pose = record { ha_h = pos 0; dec_deg = pos 90000000; pier_side = east }

abbrev slewing_mount : VirtualMount
slewing_mount = record {
  config = record {
    home_pose = pose;
    park_pose = pose;
    abort_settle = 500;
    arrival_tolerance = 100;
    auto_track_on_unpark = true;
    auto_track_on_goto_arrival = true;
  };
  ha_h = pos 0;
  dec_deg = pos 0;
  pier_side = west;
  parked = false;
  at_home = false;
  tracking = true;
  tracking_since = some 0;
  last_tracking_on = 0;
  motion = moving;
  target_kind = some radec;
  target_ra_h = 15000000;
  target_dec_deg = pos 0;
  stop_at = 0;
  manual_ns = pos 0;
  manual_we = pos 0;
  guiding_until = 100;
  guide_ha = pos 0;
  guide_dec = pos 1;
  fault = some "LIMIT";
  events = goto radec ∷ [];
}

decode_gu-raw_gu_example :
    (g : Gu) × (decode_gu (raw_gu slewing_mount 50) ≡ some g) × Reads slewing_mount 50 g
decode_gu-raw_gu_example = decode_gu-raw_gu slewing_mount 50

chunks_of_too_short_example :
    (chunks_of 25 26 ≡ 6 ∷ min_guide_pulse_ms ∷ []) × (6 < min_guide_pulse_ms)
chunks_of_too_short_example = chunks_of_too_short 25 (omega arith) (omega arith)
