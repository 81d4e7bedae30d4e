-- ===== src/Mount/State.antt =====
-- onstep_adapter/mount.py: the status as it is read from the controller, and the verified end of
-- tracking. `get_state` stops a tracking that nobody asked for, and the stop reads the state again,
-- behind the guard that keeps it from a second stop: so the code calls itself once at most, and the
-- model has the inner calls as definitions of their own.
use on_step_adapter.Base.{
  ℕ, zero, suc, ◌+◌, ◌/◌, Bool, true, false, ◌&&◌, ◌||◌, not, some, List, [], ◌∷◌, ◌++◌, String,
  max, leb, if◌then◌else◌,
}
use on_step_adapter.Base.Text.{Text, codes, has, is_text}
use on_step_adapter.Outcome.{timeout_error}
use on_step_adapter.Serial.Status.{OnstepStatus, decode_onstep_status, is_nonempty}
use on_step_adapter.Mount.{
  Mount, failed, out_of_fuel, returned, threw, M, send_text, fixed_reply, bypass_lock, slept,
  decoded,
}
use on_step_adapter.Mount.Authority.{invalidate_mechanical_trust, lock_limit, confirm_home_position}

pub data MountState : Type 0 where
  unknown parked unparked slewing tracking at_limit : MountState

abbrev if_flag : (OnstepStatus → Bool) → String → Mount → Mount
if_flag test r m = if decoded test m then invalidate_mechanical_trust r m else m

-- `_inspect_status`
unfoldable pub inspect_status : Text → Mount → Mount
inspect_status status m =
    let m1 = record m {
      last_status = status;
      last_decoded_status = some (decode_onstep_status status);
    } in
    let m2 = (if has b'l' status then lock_limit "status_limit" "status" m1 else m1) in
    if_flag (λ s. s.at_limit) "onstep_at_limit"
      (if_flag (λ s. s.park_failed) "onstep_park_failed" m2)

-- `_mount_state_from_decoded`
unfoldable pub mount_state_from_decoded : Mount → MountState
mount_state_from_decoded m =
    if decoded (λ s. s.parked) m
    then parked
    else if decoded (λ s. s.slewing) m
    then slewing
    else if decoded (λ s. s.at_limit) m
    then at_limit
    else if decoded (λ s. s.tracking) m
    then tracking
    else unparked

-- What a poll of the verified end of tracking saw: the tracking flag; true for an exception.
pub record Poll : Type 0 where
  pub attempt : ℕ
  pub saw_tracking : Bool

pub record DisableResult : Type 0 where
  pub confirmed : Bool
  pub replies : List Text
  pub polls : List Poll
  pub final_state : MountState
  pub status_overrode_ack : Bool

-- `get_state`, of what is done about tracking that was not requested.
unfoldable pub get_state_by : M DisableResult → M MountState
get_state_by disable m =
    let (r, m1) = send_text (codes ":GU#") m in
    elim r [
      | threw e ↦ (threw e, m1)
      | returned t ↦ elim (is_nonempty t) [
        | false ↦ (returned unknown, m1)
        | true ↦
            let m2 = inspect_status t m1 in
            elim (decoded (λ s. s.tracking) m2) [
              | false ↦ (returned (mount_state_from_decoded m2), m2)
              | true ↦
                  elim (m2.tracking_explicitly_requested
                    || m2.suppress_unrequested_tracking_guard) [
                      | true ↦ (returned tracking, m2)
                      | false ↦
                          let (q, m3) = disable m2 in
                          elim q [
                            | threw e ↦ (threw e, m3)
                            | returned d ↦ (
                              returned
                                  (if d.confirmed then mount_state_from_decoded m3 else tracking),
                              m3,
                            )
                          ]
                    ]
            ]
      ]
    ]

abbrev pub unrequested : Mount → Mount
unrequested m = record m { tracking_explicitly_requested = false }

-- `max(0.05, poll_s)`
abbrev pub poll_pause : ℕ → ℕ
poll_pause poll = max 50 poll

-- The reply of one attempt: a busy connection is the reply "timeout", another exception ends the
-- call.
abbrev pub disable_reply : M Text
disable_reply m =
    let (r, m1) = fixed_reply (codes ":Td#") 1 m in
    elim r [
      | returned t ↦ (returned t, m1)
      | threw (failed (timeout_error s)) ↦ (returned (codes "timeout"), m1)
      | threw e ↦ (threw e, m1)
    ]

-- A poll that raised counts as tracking.
abbrev pub seen_error : ℕ → DisableResult → DisableResult
seen_error number d =
    let seen : Poll = record { attempt = number; saw_tracking = true } in
    record d { polls = d.polls ++ seen ∷ [] }

abbrev pub seen_state : ℕ → MountState → Bool → DisableResult → DisableResult
seen_state number s tracks d =
    let seen : Poll = record { attempt = number; saw_tracking = tracks } in
    record d { polls = d.polls ++ seen ∷ []; final_state = s }

abbrev pub poll_rounds : ℕ → ℕ
poll_rounds span = suc (suc (span / 50))

abbrev pub stopped_if : Bool → Mount → Mount
stopped_if true m = bypass_lock (codes ":Q#") m
stopped_if false m = m

abbrev pub no_attempts : DisableResult
no_attempts = record {
  confirmed = false;
  replies = [];
  polls = [];
  final_state = unknown;
  status_overrode_ack = false;
}

abbrev pub with_reply : Text → DisableResult → DisableResult
with_reply reply d = record d { replies = d.replies ++ reply ∷ [] }

module _ (get_state : M MountState) where
  -- The polls of one attempt, up to its deadline; whether one of them saw no tracking.
  unfoldable pub poll_loop : ℕ → ℕ → ℕ → ℕ → DisableResult → M DisableResult
  poll_loop zero deadline poll number d m = (threw out_of_fuel, m)
  poll_loop (suc fuel) deadline poll number d m = elim (leb deadline m.bus.now) [
    | true ↦ (returned d, m)
    | false ↦
        let (r, m1) = get_state m in
        elim r [
          | threw e ↦
              poll_loop fuel deadline poll number (seen_error number d) (slept (poll_pause poll) m1)
          | returned s ↦
              let d1 = seen_state number s (decoded (λ k. k.tracking) m1) d in
              elim (decoded (λ k. k.tracking) m1) [
                | false ↦ (returned (record d1 { confirmed = true }), unrequested m1)
                | true ↦ poll_loop fuel deadline poll number d1 (slept (poll_pause poll) m1)
              ]
        ]
  ]

  -- One attempt: the stop and the command, its reply, then the polls.
  unfoldable pub attempt_once : ℕ → ℕ → ℕ → Bool → DisableResult → M DisableResult
  attempt_once number span poll send_stop d m =
      let (r, m1) = disable_reply (stopped_if send_stop m) in
      elim r [
        | threw e ↦ (threw e, m1)
        | returned reply ↦
            let (q, m2) =
              poll_loop (poll_rounds span) (m1.bus.now + span) poll number (with_reply reply d)
                m1 in
            elim q [
              | threw e ↦ (threw e, m2)
              | returned d2 ↦ (
                returned
                    (record d2 { status_overrode_ack = d2.confirmed && not (is_text reply "1") }),
                m2,
              )
            ]
      ]

  -- The attempts that are left, from the one with this number.
  unfoldable pub attempts_loop : ℕ → ℕ → ℕ → ℕ → Bool → DisableResult → M DisableResult
  attempts_loop zero number span poll send_stop d m = (returned d, m)
  attempts_loop (suc left) number span poll send_stop d m =
      let (q, m2) = attempt_once number span poll send_stop d m in
      elim q [
        | threw e ↦ (threw e, m2)
        | returned d2 ↦ elim d2.confirmed [
          | true ↦ (returned d2, m2)
          | false ↦ attempts_loop left (suc number) span poll send_stop d2 m2
        ]
      ]

  -- `disable_tracking_verified`
  unfoldable pub disable_verified_by : ℕ → ℕ → ℕ → Bool → M DisableResult
  disable_verified_by timeout poll attempts send_stop =
      let count = max 1 attempts in
      attempts_loop count 1 (max poll (timeout / count)) poll send_stop no_attempts

-- Behind the guard the argument is not used.
unfoldable pub guarded_state : M MountState
guarded_state = get_state_by (λ m. (threw out_of_fuel, m))

abbrev pub set_guard : Bool → Mount → Mount
set_guard on m = record m { suppress_unrequested_tracking_guard = on }

-- `_disable_unrequested_tracking`
unfoldable pub disable_unrequested_tracking : M DisableResult
disable_unrequested_tracking m =
    let (r, m1) = disable_verified_by guarded_state 8000 250 2 true (set_guard true m) in
    (r, set_guard false m1)

unfoldable pub get_state : M MountState
get_state = get_state_by disable_unrequested_tracking

unfoldable pub disable_tracking_verified : ℕ → ℕ → ℕ → Bool → M DisableResult
disable_tracking_verified = disable_verified_by get_state

unfoldable pub disable_tracking : M Bool
disable_tracking m =
    let (r, m1) = disable_tracking_verified 8000 500 2 true m in
    elim r [ threw e ↦ (threw e, m1) | returned d ↦ (returned d.confirmed, m1) ]

-- `_wait_for_status_flag`: whether the flag was seen, and the last state.
unfoldable pub wait_for_status_flag :
    ℕ → (OnstepStatus → Bool) → Bool → ℕ → ℕ → MountState → M (Bool × MountState)
wait_for_status_flag zero flag is_home poll deadline last m = (threw out_of_fuel, m)
wait_for_status_flag (suc fuel) flag is_home poll deadline last m = elim (leb deadline m.bus.now) [
  | true ↦ (returned (false, last), m)
  | false ↦
      let (r, m1) = get_state (slept poll m) in
      elim r [
        | threw e ↦ (threw e, m1)
        | returned s ↦ elim (decoded flag m1) [
          | false ↦ wait_for_status_flag fuel flag is_home poll deadline s m1
          | true ↦ (
            returned (true, s),
            if is_home then confirm_home_position (record m1 { at_mechanical_home = true }) else m1,
          )
        ]
      ]
]
