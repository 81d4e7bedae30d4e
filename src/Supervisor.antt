-- ===== src/Supervisor.antt =====
-- onstep_adapter/indi_meridian.py, `IndiMeridianSupervisor`: one `tick` of the worker. The thread
-- itself and its pause between two ticks are not modelled. The callbacks `observe`, `stop` and
-- `on_transition` are parameters, a missing `on_transition` one that does nothing. The two readings
-- of the clock round a stop are one.
pub mod Pace
use on_step_adapter.Base.{ℕ, ◌+◌, Bool, true, false, ◌&&◌, Option, none, some, leb, ◌==◌, String}
use on_step_adapter.Outcome.{Outcome, ok, raised, Exc, is_caught}
use on_step_adapter.Snapshot.{IndiMountSnapshot}
use on_step_adapter.Policy.{MeridianPolicy}
use on_step_adapter.Meridian.{
  Phase, mechanical_terminal, firmware_limit, unknown_phase, post_flip, pre_meridian_allowed,
  post_meridian_allowed, flip_required_phase, hard_stop, IndiMeridianState, classify_meridian,
}
use on_step_adapter.Stop.{IndiStopResult}
use on_step_adapter.Transport.{World, Io}

-- A number for each phase, by which they are compared.
abbrev phase_index : Phase → ℕ
phase_index mechanical_terminal = 0
phase_index firmware_limit = 1
phase_index unknown_phase = 2
phase_index post_flip = 3
phase_index pre_meridian_allowed = 4
phase_index post_meridian_allowed = 5
phase_index flip_required_phase = 6
phase_index hard_stop = 7

abbrev is_phase : Option Phase → Phase → Bool
is_phase none p = false
is_phase (some q) p = phase_index q == phase_index p

pub record Supervisor : Type 0 where
  pub last_phase : Option Phase
  pub last_stop_at : ℕ
  pub latest : Option IndiMeridianState
  pub last_stop_result : Option IndiStopResult
  pub last_error : Option Exc

-- What a call leaves: its result, the fields and the world.
abbrev Ticked : Type 0 → Type 0
Ticked A = Outcome A × Supervisor × World

module _ (observe : Io IndiMountSnapshot) (policy : MeridianPolicy)
    (on_transition : IndiMeridianState → Io (Unit {0})) (stop : Io IndiStopResult) where
  -- The part of `tick` up to the transition callback.
  unfoldable pub notify : IndiMeridianState → Supervisor → World → Ticked (Unit {0})
  notify m s w = elim (is_phase s.last_phase m.phase) [
    | true ↦ (ok tt, record s { latest = some m }, w)
    | false ↦
        let (r, w1) = on_transition m w in
        (r, record s { latest = some m; last_phase = some m.phase }, w1)
  ]

  -- The rest: a stop that is required, and at least three seconds after the last one.
  unfoldable pub act : IndiMeridianState → Supervisor → World → Ticked IndiMeridianState
  act m s w = elim (m.tracking_stop_required && leb (s.last_stop_at + 3000) w.now) [
    | false ↦ (ok m, s, w)
    | true ↦
        let (r, w1) = stop w in
        elim r [
          | raised e ↦ (raised e, record s { last_stop_at = w.now }, w1)
          | ok result ↦
              (ok m, record s { last_stop_at = w.now; last_stop_result = some result }, w1)
        ]
  ]

  unfoldable pub tick : Supervisor → World → Ticked IndiMeridianState
  tick s w =
      let (r, w1) = observe w in
      elim r [
        | raised e ↦ (raised e, s, w1)
        | ok view ↦
            let m = classify_meridian view policy in
            let (q, s2, w2) = notify m s w1 in
            elim q [ raised e ↦ (raised e, s2, w2) | ok done ↦ act m s2 w2 ]
      ]

  -- One round of `_run`: an exception of the four classes is noted, another ends the thread.
  unfoldable pub run_once : Supervisor → World → Ticked (Unit {0})
  run_once s w =
      let (r, s1, w1) = tick s w in
      elim r [
        | ok m ↦ (ok tt, s1, w1)
        | raised e ↦ elim (is_caught e) [
          | true ↦ (ok tt, record s1 { last_error = some e }, w1)
          | false ↦ (raised e, s1, w1)
        ]
      ]
