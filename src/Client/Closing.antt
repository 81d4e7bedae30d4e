-- ===== src/Client/Closing.antt =====
-- onstep_adapter/indi_client.py: `close`. `stop` is `stop_mount_via_indi` on the client's mount,
-- `closing` what the close of the supervisor ends with. The join of the move's thread takes no
-- time.
use on_step_adapter.Base.{◌≡◌, inl, inr, true, false, ◌&&◌, is_some, if◌then◌else◌, arith}
use on_step_adapter.Outcome.{Outcome, ok, raised, is_caught, is_soft_outcome, Outcome-cases}
use on_step_adapter.Stop.{IndiStopResult}
use on_step_adapter.Transport.{World, Io, is_open}
use on_step_adapter.Requests.Connection.{close, is_open-close}
use on_step_adapter.Client.{Motions, active_motion, emergency_stop}
use on_step_adapter.Client.Startup.{Client, blank}

module _ {R : Type 0} (stop : Io IndiStopResult) (closing : Outcome (Unit {0})) where
  -- The `try` and `finally` of the supervisor: everything is forgotten, whatever it ends with.
  unfoldable forget : Client → Motions R → World → Outcome (Unit {0}) × Client × Motions R × World
  forget c m w = (if c.supervised then closing else ok tt, blank, m, close w)

  -- `close`: a move that runs is stopped first.
  unfoldable close_client :
      Client → Motions R → World → Outcome (Unit {0}) × Client × Motions R × World
  close_client c m w = elim (is_some (active_motion m) && is_open w) [
    | false ↦ forget c m w
    | true ↦
        let (r, w1) = stop w in
        let (stopped, m1) = emergency_stop true r m in
        elim stopped [
          | ok report ↦ forget c m1 w1
          | raised e ↦ if is_caught e then forget c m1 w1 else (raised e, c, m1, w1)
        ]
  ]

  emergency_stop-soft :
      (r : Outcome IndiStopResult) (m : Motions R)
      → is_soft_outcome r ≡ true
      → is_soft_outcome (emergency_stop true r m).0 ≡ true
  unfolding emergency_stop
  emergency_stop-soft (ok r) m h = ground arith
  emergency_stop-soft (raised e) m h = ground arith

  -- Unless the stop of a move ends with an exception of another class than those that are handled,
  -- a close leaves the transport shut, also if the supervisor does not end.
  close_client_shuts :
      (c : Client) (m : Motions R) (w : World)
      → is_soft_outcome (stop w).0 ≡ true
      → is_open (close_client c m w).3 ≡ false
  unfolding close_client forget
  close_client_shuts c m w soft =
      let (r, w1) = stop w in
      elim (Outcome-cases (emergency_stop true r m).0) [
        | inl (report, z) ↦ ground (arith, is_open-close w, is_open-close w1)
        | inr (e, z) ↦
            ground (arith, is_open-close w, is_open-close w1, emergency_stop-soft r m soft)
      ]
