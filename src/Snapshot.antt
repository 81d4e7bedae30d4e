-- ===== src/Snapshot.antt =====
-- onstep_adapter/indi_status.py, the data: one observation of the mount, and the reasons for which
-- it may not be trusted. Angles are in µdeg, and RA hours in units of 1/15,000,000 hour, which is
-- one µdeg too.
use on_step_adapter.Base.{ℕ, Bool, false, ◌||◌, Option, List, [], ◌∷◌, ◌==◌}
use on_step_adapter.Base.Int.{ℤ}
use on_step_adapter.Base.Text.{Text}
use on_step_adapter.Gu.{Side, MotionState}

pub data Blocker : Type 0 where
  indi_device_disconnected onstep_status_not_fresh coordinates_not_fresh : Blocker
  onstep_status_alert onstep_status_unavailable onstep_limit_or_park_fault : Blocker
  onstep_reported_error pier_side_conflict pier_side_unknown coordinates_invalid : Blocker
  time_site_authority_unestablished hour_angle_unavailable mechanical_terminal_state : Blocker
  home_authority_unestablished : Blocker

-- A number for each blocker, by which they are compared.
abbrev index : Blocker → ℕ
index indi_device_disconnected = 0
index onstep_status_not_fresh = 1
index coordinates_not_fresh = 2
index onstep_status_alert = 3
index onstep_status_unavailable = 4
index onstep_limit_or_park_fault = 5
index onstep_reported_error = 6
index pier_side_conflict = 7
index pier_side_unknown = 8
index coordinates_invalid = 9
index time_site_authority_unestablished = 10
index hour_angle_unavailable = 11
index mechanical_terminal_state = 12
index home_authority_unestablished = 13

abbrev pub same_blocker : Blocker → Blocker → Bool
same_blocker a b = index a == index b

-- `b in blockers`
abbrev has_blocker : Blocker → List Blocker → Bool
has_blocker b [] = false
has_blocker b (c ∷ l) = same_blocker b c || has_blocker b l

pub record IndiMountSnapshot : Type 0 where
  pub raw_status : Option Text
  pub motion_state : MotionState
  pub pier_side : Option Side
  pub ra_hours : Option ℤ
  pub dec_deg : Option ℤ
  pub ha_deg : Option ℤ
  pub meridian_distance_deg : Option ℕ
  pub tracking : Bool
  pub slewing : Bool
  pub parked : Bool
  pub at_home : Bool
  pub at_limit : Bool
  pub status_age_ms : Option ℕ
  pub coordinates_age_ms : Option ℕ
  pub status_live : Bool
  pub coordinates_live : Bool
  pub time_site_authority : Bool
  pub home_authority : Bool
  pub mechanical_safe : Bool
  pub motion_refused : Bool
  pub blockers : List Blocker
  pub status_revision : ℤ
  pub coordinates_revision : ℤ
  pub guiding : Bool
