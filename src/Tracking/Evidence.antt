-- ===== src/Tracking/Evidence.antt =====
-- What the enable of tracking promises, whatever the callbacks do.
use on_step_adapter.Base.{◌⊎◌, ℕ, ◌≤◌, ◌≡◌, true, false, none, some, String, arith}
use on_step_adapter.Base.Int.{ℤ}
use on_step_adapter.Base.Text.{Text}
use on_step_adapter.Outcome.{ok, succeeded}
use on_step_adapter.Snapshot.{IndiMountSnapshot}
use on_step_adapter.Meridian.{IndiMeridianState}
use on_step_adapter.Transport.{World}
use on_step_adapter.Requests.{set_switch}
use on_step_adapter.Watch.{Watch, Streak}
use on_step_adapter.Tracking.{
  AuthorityPolicy, IndiTrackingResult, refused, result_with, refuses, is_tracking,
  enable_tracking_via_indi,
}

-- At least two observations in a row that track, behind the revision of the preflight.
abbrev pub IsTracked : Watch → ℤ → ℕ → Type 0
IsTracked c low n = (2 ≤ n) × ((revision : ℤ) × Streak c.observe is_tracking low n revision)

-- What a confirmation behind the command rests on.
pub record IsSwitched (c : Watch) (device : String) (before : IndiMountSnapshot) (w : World)
    (r : IndiTrackingResult) : Type 0 where
  pub commanded : succeeded (set_switch device "TELESCOPE_TRACK_STATE" "TRACK_ON" 3000 w).0 ≡ true
  pub tracked : IsTracked c before.status_revision r.consecutive_tracking_polls
  pub no_error : r.error ≡ none

module _ (c : Watch) (device : String) (timeout : ℕ) (policy : AuthorityPolicy) (w : World) where
  -- The world once the preflight has been read.
  abbrev preflight_end : World
  preflight_end = (c.meridian_status (c.observe w).1).1

  -- A request that the preflight refuses ends there: no command is sent or accepted, no emergency
  -- stop is made, and tracking is not confirmed.
  refused_enable_sends_nothing :
      (before : IndiMountSnapshot) (m : IndiMeridianState)
      → (c.observe w).0 ≡ ok before
      → (c.meridian_status (c.observe w).1).0 ≡ ok m
      → refuses policy before m ≡ true
      → enable_tracking_via_indi c device timeout policy w ≡ (
        ok (result_with policy before m false false 0 before.raw_status (some (refused m.phase))),
        preflight_end,
      )
  unfolding enable_tracking_via_indi
  refused_enable_sends_nothing before m eb em no_go = ground arith

  -- What a confirmation rests on: a preflight that was passed, and a mount that tracked then,
  -- with no command, or the command and what was seen behind it.
  pub record IsEnabled (r : IndiTrackingResult) : Type 0 where
    pub before : IndiMountSnapshot
    pub phase : IndiMeridianState
    pub observed : (c.observe w).0 ≡ ok before
    pub classified : (c.meridian_status (c.observe w).1).0 ≡ ok phase
    pub passed : refuses policy before phase ≡ false
    pub enabled :
        ((before.tracking ≡ true) × (r.command_accepted ≡ false) × (r.error ≡ none))
        ⊎ ((r.command_accepted ≡ true) × IsSwitched c device before preflight_end r)
