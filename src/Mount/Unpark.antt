-- ===== src/Mount/Unpark.antt =====
-- onstep_adapter/mount.py: the unpark on a connection that is closed.
use on_step_adapter.Base.{true, false, none, ◌≡◌, arith}
use on_step_adapter.Bus.{send_fixed}
use on_step_adapter.Mount.{Mount, returned, fixed_reply, slept}
use on_step_adapter.Mount.Authority.{raise_if_locked}
use on_step_adapter.Mount.State.{MountState, get_state, unrequested}
use on_step_adapter.Mount.Stopped.{closed_state}
use on_step_adapter.Mount.Parking.{unpark, state_after}

-- An unpark on a closed connection of a mount that is not locked is reported as done, though
-- nothing was written, and reading the state behind it answers that it is unknown.
pub unpark_closed :
    (m : Mount)
    → m.bus.is_open ≡ false
    → m.safety_lock ≡ none
    → ((unpark m).0 ≡ returned true)
      × ((unpark m).1.bus.sent ≡ m.bus.sent)
      × ((get_state (unpark m).1).0 ≡ returned MountState.unknown)
unfolding unpark raise_if_locked fixed_reply send_fixed state_after
unpark_closed m off free =
    ground (arith, closed_state (slept 200 (unrequested m)), closed_state (unpark m).1)
