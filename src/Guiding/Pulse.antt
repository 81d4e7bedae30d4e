-- ===== src/Guiding/Pulse.antt =====
-- onstep_adapter/indi_guiding.py: `pulse`, its two waiting loops and the handler round them.
-- The lists of warnings are not modelled. The lock is the argument `busy`.
use on_step_adapter.Base.{
  ℕ, zero, suc, ◌+◌, ◌-◌, ◌/◌, Bool, true, false, not, ◌&&◌, Option, none, some, List, [], ◌∷◌,
  String, ltb, leb, length, if◌then◌else◌,
}
use on_step_adapter.Base.Int.{ℤ, pos, leb_ℤ}
use on_step_adapter.Base.Text.{Text}
use on_step_adapter.Outcome.{
  Exc, Outcome, ok, raised, value_error, is_caught, runtime_error, timeout_error, out_of_fuel,
}
use on_step_adapter.Snapshot.{IndiMountSnapshot}
use on_step_adapter.Meridian.{Phase, IndiMeridianState, unknown_phase}
use on_step_adapter.Transport.{ok_state, idle, World, Io}
use on_step_adapter.Requests.{Judge, confirm, rounds, issue_number, is_alert}
use on_step_adapter.Tracking.{AuthorityPolicy}
use on_step_adapter.Watch.{Watch, sleep}
use on_step_adapter.Guiding.{
  GuideDirection, guide_property, normalize_direction, Refusal, preflight, chunks_of,
  is_pulse_length,
}

-- The observation that a result reports.
abbrev pub View : Type 0
View = IndiMountSnapshot × IndiMeridianState

pub data GuideError : Type 0 where
  refused : Refusal → GuideError
  failed : Exc → GuideError
  another_pulse : GuideError
  -- the error, and that of the emergency stop
  stop_failed : Exc → Exc → GuideError

pub record IndiGuidePulseResult : Type 0 where
  pub direction : GuideDirection
  pub requested_duration_ms : ℕ
  pub chunks_requested : ℕ
  pub chunks_completed : ℕ
  pub command_accepted : Bool
  pub pulse_completed : Bool
  pub tracking_preserved : Bool
  pub final_raw_status : Option Text
  pub meridian_phase : Phase
  pub error : Option GuideError

-- What the handler knows: whether a command went out, the chunks done and the last observation.
pub record Progress : Type 0 where
  pub issued : Bool
  pub completed : ℕ
  pub last : Option View

-- How a stretch of the pulse ends.
pub data Ended : Type 0 where
  finished : View → Progress → Ended
  declined : Refusal → View → Progress → Ended
  broke : Exc → Progress → Ended

-- The states that `_wait_pulse_completion` waits for.
unfoldable pub pulse_done : Judge
pulse_done p =
    if is_alert p.state
    then some (raised (runtime_error "INDI rejected guide pulse"))
    else elim p.state [ ok_state ↦ some (ok p) | idle ↦ some (ok p) | _ ↦ none ]

module _ (c : Watch) (device : String) (policy : AuthorityPolicy) (command_timeout : ℕ) where
  -- `_preflight`: the observation, and why it refuses.
  unfoldable pub look : Io (View × Option Refusal)
  look w =
      let (r, w1) = c.observe w in
      elim r [
        | raised e ↦ (raised e, w1)
        | ok s ↦
            let (q, w2) = c.meridian_status w1 in
            elim q [ raised e ↦ (raised e, w2) | ok m ↦ (ok ((s, m), preflight policy s m), w2) ]
      ]

  -- `_wait_onstep_guide_idle`. A refusal is raised with its observation.
  unfoldable pub wait_idle : ℕ → ℕ → ℤ → Progress → World → Ended × World
  wait_idle zero deadline revision p w = (broke out_of_fuel p, w)
  wait_idle (suc fuel) deadline revision p w =
      let (r, w1) = look w in
      elim r [
        | raised e ↦ (broke e p, w1)
        | ok (view, some reason) ↦
            (broke (runtime_error "guide preflight refused") (record p { last = some view }), w1)
        | ok (view, none) ↦
            let fresh = not (leb_ℤ view.0.status_revision revision) in
            elim (if fresh then not view.0.guiding else false) [
              | true ↦ (finished view (record p { last = some view }), w1)
              | false ↦ elim (leb deadline w1.now) [
                | true ↦ (broke (timeout_error "OnStep still reports guide pulse active") p, w1)
                | false ↦
                    wait_idle fuel deadline (if fresh then view.0.status_revision else revision) p
                      (sleep (if ltb (deadline - w1.now) 50 then deadline - w1.now else 50) w1)
              ]
            ]
      ]

  -- What follows an accepted chunk: its property settles, its time passes, the mount is idle again.
  unfoldable pub finish_chunk : String → ℕ → ℕ → ℤ → ℤ → Progress → World → Ended × World
  finish_chunk name chunk started revision status_revision p w =
      let (r, w1) =
        confirm (rounds w) device name (w.now + (command_timeout + chunk)) "guide pulse" pulse_done
          revision w in
      elim r [
        | raised e ↦ (broke e p, w1)
        | ok done ↦
            let w2 = sleep (chunk - (w1.now - started)) w1 in
            let (end, w3) =
              wait_idle (command_timeout / 50 + 2) (w2.now + command_timeout) status_revision p
                w2 in
            elim end [
              | finished view q ↦ (finished view (record q { completed = suc q.completed }), w3)
              | other ↦ (other, w3)
            ]
      ]

  unfoldable pub one_chunk : GuideDirection → ℕ → Progress → World → Ended × World
  one_chunk direction chunk p w =
      let (r, w1) = look w in
      elim r [
        | raised e ↦ (broke e p, w1)
        | ok (view, some reason) ↦ (declined reason view (record p { last = some view }), w1)
        | ok (view, none) ↦
            let (name, element) = guide_property direction in
            let (q, w2) = issue_number device name element (pos chunk) command_timeout w1 in
            elim q [
              | raised e ↦ (broke e (record p { last = some view }), w2)
              | ok revision ↦
                  finish_chunk name chunk w1.now revision view.0.status_revision
                    (record p { issued = true; last = some view }) w2
            ]
      ]

  -- The `for` loop and the preflight behind it.
  unfoldable pub all_chunks : GuideDirection → List ℕ → Progress → World → Ended × World
  all_chunks direction [] p w =
      let (r, w1) = look w in
      elim r [
        | raised e ↦ (broke e p, w1)
        | ok (view, some reason) ↦
            (broke (runtime_error "guide preflight refused") (record p { last = some view }), w1)
        | ok (view, none) ↦ (finished view (record p { last = some view }), w1)
      ]
  all_chunks direction (chunk ∷ rest) p w =
      let (end, w1) = one_chunk direction chunk p w in
      elim end [ finished view q ↦ all_chunks direction rest q w1 | other ↦ (other, w1) ]

abbrev tracks : Option View → Bool
tracks none = false
tracks (some (s, m)) = s.tracking

abbrev raw_of : Option View → Option Text
raw_of none = none
raw_of (some (s, m)) = s.raw_status

abbrev phase_of : Option View → Phase
phase_of none = unknown_phase
phase_of (some (s, m)) = m.phase

unfoldable pub pulse_result :
    GuideDirection → ℕ → ℕ → Progress → Bool → Option GuideError → IndiGuidePulseResult
pulse_result direction duration chunks p done error = record {
  direction = direction;
  requested_duration_ms = duration;
  chunks_requested = chunks;
  chunks_completed = p.completed;
  command_accepted = p.issued;
  pulse_completed = done;
  tracking_preserved = tracks p.last;
  final_raw_status = raw_of p.last;
  meridian_phase = phase_of p.last;
  error = error;
}

abbrev pub start : Progress
start = record { issued = false; completed = 0; last = none }

module _ (c : Watch) (device : String) (policy : AuthorityPolicy) (command_timeout : ℕ) where
  -- The `except` block: once a command went out, the mount is stopped.
  unfoldable pub handle : GuideDirection → ℕ → ℕ → Exc → Progress → Io IndiGuidePulseResult
  handle direction duration chunks e p w = elim (is_caught e) [
    | false ↦ (raised e, w)
    | true ↦ elim p.issued [
      | false ↦ (ok (pulse_result direction duration chunks p false (some (failed e))), w)
      | true ↦
          let (r, w') = c.emergency_stop w in
          elim r [
            | ok done ↦ (ok (pulse_result direction duration chunks p false (some (failed e))), w')
            | raised x ↦
                if is_caught x
                then (
                  ok (pulse_result direction duration chunks p false (some (stop_failed e x))),
                  w',
                )
                else (raised x, w')
          ]
    ]
  ]

  unfoldable pub conclude :
      GuideDirection → ℕ → ℕ → Ended × World → Outcome IndiGuidePulseResult × World
  conclude direction duration chunks (finished view p, w) =
      (ok (pulse_result direction duration chunks p true none), w)
  conclude direction duration chunks (declined reason view p, w) =
      (ok (pulse_result direction duration chunks p false (some (refused reason))), w)
  conclude direction duration chunks (broke e p, w) = handle direction duration chunks e p w

  -- `pulse`, behind the normalised direction.
  unfoldable pub pulse_towards : Bool → ℕ → GuideDirection → ℕ → Io IndiGuidePulseResult
  pulse_towards busy chunk_ms direction duration w =
      let chunks = chunks_of chunk_ms duration in
      elim (is_pulse_length duration && ltb 0 command_timeout) [
        | false ↦ (raised (value_error "Guide duration must be in range"), w)
        | true ↦ elim busy [
          | true ↦ (
            ok (pulse_result direction duration (length chunks) start false (some another_pulse)),
            w,
          )
          | false ↦
              conclude direction duration (length chunks)
                (all_chunks c device policy command_timeout direction chunks start w)
        ]
      ]

  unfoldable pub pulse : Bool → ℕ → String → ℕ → Io IndiGuidePulseResult
  pulse busy chunk_ms name duration w = elim (normalize_direction name) [
    | raised e ↦ (raised e, w)
    | ok direction ↦ pulse_towards busy chunk_ms direction duration w
  ]
