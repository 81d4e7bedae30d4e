-- ===== src/Bus/Silence.antt =====
-- onstep_adapter/serial_bus.py: what a connection that was dropped still writes, over any calls.
use on_step_adapter.Base.{ℕ, Bool, true, false, List, [], ◌∷◌, ◌≡◌, refl, arith, ◌∙◌}
use on_step_adapter.Base.Text.{Text}
use on_step_adapter.Outcome.{succeeded}
use on_step_adapter.Bus.{
  Bus, send, raw_send, exchange, send_fixed, write_no_reply, write_only, write_bypass, close, first,
}

-- A call of one of the methods, by any thread.
pub data Use : Type 0 where
  sending without_reply bypassing : Text → Use
  sending_fixed : Text → ℕ → Use
  closing : Use

unfoldable pub use_bus : Use → Bus → Bus
use_bus (sending cmd) b = (send cmd b).1
use_bus (without_reply cmd) b = (write_no_reply cmd b).1
use_bus (bypassing cmd) b = write_bypass cmd b
use_bus (sending_fixed cmd size) b = (send_fixed cmd size b).1
use_bus closing b = close b

unfoldable pub uses : List Use → Bus → Bus
uses [] b = b
uses (u ∷ l) b = uses l (use_bus u b)

-- What the call returns, without its text; `write_bypass` and `close` do not raise.
unfoldable pub outcome_of : Use → Bus → Bool
outcome_of (sending cmd) b = succeeded (send cmd b).0
outcome_of (without_reply cmd) b = succeeded (write_no_reply cmd b).0
outcome_of (bypassing cmd) b = true
outcome_of (sending_fixed cmd size) b = succeeded (send_fixed cmd size b).0
outcome_of closing b = true

use_closed :
    (u : Use) (b : Bus)
    → b.is_open ≡ false
    → ((use_bus u b).is_open ≡ false) × ((use_bus u b).sent ≡ b.sent)
unfolding use_bus send raw_send send_fixed write_no_reply write_bypass close
use_closed (sending cmd) b h = ground arith
use_closed (without_reply cmd) b h = ground arith
use_closed (bypassing cmd) b h = ground arith
use_closed (sending_fixed cmd size) b h = ground arith
use_closed closing b h = (refl, refl)

-- Nothing is written on a closed connection, whatever is called.
uses_closed : (l : List Use) (b : Bus) → b.is_open ≡ false → (uses l b).sent ≡ b.sent
unfolding uses
uses_closed [] b h = refl
uses_closed (u ∷ l) b h =
    let (shut, same) = use_closed u b h in uses_closed l (use_bus u b) shut ∙ same

-- An exception of the port closes the connection; that of a busy lock does not.
failed_use :
    (u : Use) (b : Bus)
    → (first b.answers).locked ≡ false
    → outcome_of u b ≡ false
    → (use_bus u b).is_open ≡ false
unfolding use_bus outcome_of send raw_send send_fixed write_no_reply write_bypass close exchange
    write_only
failed_use (sending cmd) b free failed = ground arith
failed_use (without_reply cmd) b free failed = ground arith
failed_use (bypassing cmd) b free failed = absurd (cc)
failed_use (sending_fixed cmd size) b free failed = ground arith
failed_use closing b free failed = absurd (cc)

-- If a call raises although the lock was free, then nothing is written any more, whatever is
-- called after it: the port is not used again before a new connection.
pub failed_use_is_silent :
    (u : Use) (b : Bus) (l : List Use)
    → (first b.answers).locked ≡ false
    → outcome_of u b ≡ false
    → (uses l (use_bus u b)).sent ≡ (use_bus u b).sent
failed_use_is_silent u b l free failed = uses_closed l (use_bus u b) (failed_use u b free failed)
