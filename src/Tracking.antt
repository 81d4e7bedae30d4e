-- ===== src/Tracking.antt =====
-- onstep_adapter/indi_tracking.py: the verified enable of tracking. The reason of a refusal is its
-- phase; of a failure, the exception.
pub mod Evidence
use on_step_adapter.Base.{
  ℕ, zero, suc, ◌+◌, ◌-◌, ◌/◌, Bool, true, false, ◌&&◌, ◌||◌, not, Option, none, some, List, [],
  ◌∷◌, String, leb, keep_if, if◌then◌else◌,
}
use on_step_adapter.Base.Int.{ℤ, leb_ℤ}
use on_step_adapter.Base.Text.{Text}
use on_step_adapter.Outcome.{
  Exc, Outcome, ok, raised, is_caught, runtime_error, timeout_error, out_of_fuel,
}
use on_step_adapter.Snapshot.{
  Blocker, indi_device_disconnected, onstep_status_not_fresh, coordinates_not_fresh,
  onstep_status_alert, onstep_status_unavailable, onstep_limit_or_park_fault, onstep_reported_error,
  pier_side_conflict, pier_side_unknown, coordinates_invalid, time_site_authority_unestablished,
  hour_angle_unavailable, mechanical_terminal_state, home_authority_unestablished,
  IndiMountSnapshot,
}
use on_step_adapter.Meridian.{
  Phase, pre_meridian_allowed, post_meridian_allowed, post_flip, IndiMeridianState,
}
use on_step_adapter.Transport.{World, Io}
use on_step_adapter.Requests.{set_switch}
use on_step_adapter.Watch.{Watch, sleep, meets}

pub data AuthorityPolicy : Type 0 where
  strict controller_managed : AuthorityPolicy

abbrev pub is_strict : AuthorityPolicy → Bool
is_strict strict = true
is_strict controller_managed = false

pub data TrackingError : Type 0 where
  refused : Phase → TrackingError
  failed : Exc → TrackingError

pub record IndiTrackingResult : Type 0 where
  pub command_accepted : Bool
  pub tracking_confirmed : Bool
  pub consecutive_tracking_polls : ℕ
  pub final_raw_status : Option Text
  pub meridian_phase : Phase
  pub error : Option TrackingError
  pub warnings : List Blocker
  pub authority_policy : AuthorityPolicy

abbrev pub is_hard : Blocker → Bool
is_hard indi_device_disconnected = true
is_hard onstep_status_not_fresh = true
is_hard onstep_status_alert = true
is_hard onstep_status_unavailable = true
is_hard onstep_limit_or_park_fault = true
is_hard onstep_reported_error = true
is_hard _ = false

abbrev pub is_authority : Blocker → Bool
is_authority coordinates_not_fresh = true
is_authority pier_side_conflict = true
is_authority pier_side_unknown = true
is_authority coordinates_invalid = true
is_authority time_site_authority_unestablished = true
is_authority hour_angle_unavailable = true
is_authority home_authority_unestablished = true
is_authority mechanical_terminal_state = true
is_authority _ = false

abbrev pub is_allowed : Phase → Bool
is_allowed pre_meridian_allowed = true
is_allowed post_meridian_allowed = true
is_allowed post_flip = true
is_allowed _ = false

unfoldable pub strict_refusal : IndiMountSnapshot → IndiMeridianState → Bool
strict_refusal s m =
    meets is_authority s
    || not s.coordinates_live
    || not s.time_site_authority
    || not s.home_authority
    || s.at_home
    || not (is_allowed m.phase)

-- The preflight: whether the request is refused before anything is sent.
unfoldable pub refuses : AuthorityPolicy → IndiMountSnapshot → IndiMeridianState → Bool
refuses policy s m =
    meets is_hard s
    || not s.status_live
    || s.parked
    || s.slewing
    || s.at_limit
    || (is_strict policy && strict_refusal s m)
    || m.tracking_stop_required

-- The state in which the loop gives up on the mount.
unfoldable pub turned_unsafe : AuthorityPolicy → IndiMountSnapshot → Bool
turned_unsafe policy s = s.at_limit || s.parked || (is_strict policy && s.at_home)

unfoldable pub meridian_unsafe : AuthorityPolicy → IndiMeridianState → Bool
meridian_unsafe policy m =
    is_strict policy && (not (is_allowed m.phase) || m.tracking_stop_required)

-- `current.tracking and not current.slewing`
abbrev pub is_tracking : IndiMountSnapshot → Bool
is_tracking s = s.tracking && not s.slewing

module _ (c : Watch) (policy : AuthorityPolicy) (deadline : ℕ) where
  -- The loop, from the fresh polls so far; it returns the polls and the last status text.
  unfoldable pub poll_tracking : ℕ → ℕ → ℤ → Option Text → Io (ℕ × Option Text)
  poll_tracking zero stable revision raw w = (raised out_of_fuel, w)
  poll_tracking (suc fuel) stable revision raw w = elim (leb 2 stable) [
    | true ↦ (ok (stable, raw), w)
    | false ↦ elim (leb deadline w.now) [
      | true ↦ (raised (timeout_error "Tracking ON was not confirmed by fresh OnStep status"), w)
      | false ↦
          let (r, w1) = c.observe (sleep 150 w) in
          elim r [
            | raised e ↦ (raised e, w1)
            | ok s ↦ elim (leb_ℤ s.status_revision revision) [
              | true ↦ poll_tracking fuel stable revision raw w1
              | false ↦ elim (turned_unsafe policy s) [
                | true ↦
                    (raised (runtime_error "Unsafe state appeared while enabling tracking"), w1)
                | false ↦
                    let (q, w2) = c.meridian_status w1 in
                    elim q [
                      | raised e ↦ (raised e, w2)
                      | ok m ↦ elim (meridian_unsafe policy m) [
                        | true ↦ (raised (runtime_error "Meridian state became unsafe"), w2)
                        | false ↦
                            poll_tracking fuel (if is_tracking s then suc stable else 0)
                              s.status_revision s.raw_status w2
                      ]
                    ]
              ]
            ]
          ]
    ]
  ]

-- Enough rounds for a deadline: each one sleeps for 150 ms.
abbrev pub tracking_rounds : ℕ → ℕ
tracking_rounds timeout = timeout / 150 + 3

abbrev pub result_with :
    AuthorityPolicy
    → IndiMountSnapshot
    → IndiMeridianState
    → Bool
    → Bool
    → ℕ
    → Option Text
    → Option TrackingError
    → IndiTrackingResult
result_with policy before m accepted confirmed polls raw error = record {
  command_accepted = accepted;
  tracking_confirmed = confirmed;
  consecutive_tracking_polls = polls;
  final_raw_status = raw;
  meridian_phase = m.phase;
  error = error;
  warnings = keep_if is_authority before.blockers;
  authority_policy = policy;
}

module _ (c : Watch) (device : String) (timeout : ℕ) (policy : AuthorityPolicy) where
  -- The handler behind an accepted command: the mount is stopped before the failure is reported.
  unfoldable pub stop_and_report :
      Exc → IndiMountSnapshot → IndiMeridianState → Io IndiTrackingResult
  stop_and_report e before m w =
      let (r, w') = c.emergency_stop w in
      elim r [
        | raised x ↦ (raised x, w')
        | ok done ↦
            (ok (result_with policy before m true false 0 before.raw_status (some (failed e))), w')
      ]

  -- The `try` block.
  unfoldable pub switch_on : IndiMountSnapshot → IndiMeridianState → Io IndiTrackingResult
  switch_on before m w =
      let (r, w1) = set_switch device "TELESCOPE_TRACK_STATE" "TRACK_ON" 3000 w in
      elim r [
        | raised e ↦
            if is_caught e
            then (
              ok (result_with policy before m false false 0 before.raw_status (some (failed e))),
              w1,
            )
            else (raised e, w1)
        | ok p ↦
            let (q, w2) =
              poll_tracking c policy (w1.now + timeout) (tracking_rounds timeout) 0
                before.status_revision before.raw_status w1 in
            elim q [
              | raised e ↦ if is_caught e then stop_and_report e before m w2 else (raised e, w2)
              | ok (polls, raw) ↦ (ok (result_with policy before m true true polls raw none), w2)
            ]
      ]

  unfoldable pub enable_tracking_via_indi : Io IndiTrackingResult
  enable_tracking_via_indi w =
      let (r, w1) = c.observe w in
      elim r [
        | raised e ↦ (raised e, w1)
        | ok before ↦
            let (q, w2) = c.meridian_status w1 in
            elim q [
              | raised e ↦ (raised e, w2)
              | ok m ↦ elim (refuses policy before m) [
                | true ↦ (
                  ok (
                      result_with policy before m false false 0 before.raw_status
                        (some (refused m.phase))),
                  w2,
                )
                | false ↦ elim before.tracking [
                  | true ↦
                      (ok (result_with policy before m false true 2 before.raw_status none), w2)
                  | false ↦ switch_on before m w2
                ]
              ]
            ]
      ]
