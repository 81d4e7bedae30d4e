-- ===== src/Bus.antt =====
-- onstep_adapter/serial_bus.py: `OnStepSerialBus`, the one serial connection that the mount and
-- the focuser share. What the port and the other threads do is a script: each call that reaches
-- the port takes the next `Answer`, which says how long it took, whether the lock was busy all
-- that time, and what the port did; at its end the port is silent. `sent` lists what was written,
-- the latest first. Bytes are code points; the decoding with replacement and the input buffer's
-- reset are not modelled.
pub mod Silence
use on_step_adapter.Base.{
  ℕ, zero, suc, ◌+◌, Bool, true, false, ◌||◌, List, [], ◌∷◌, ◌==◌, if◌then◌else◌,
}
use on_step_adapter.Base.Text.{Text, rstrip}
use on_step_adapter.Outcome.{Exc, Outcome, ok, raised, timeout_error}

pub data Reply : Type 0 where
  -- the write goes out, and these bytes can be read
  replies : Text → Reply
  write_fails : Exc → Reply
  -- the write goes out, and the read raises
  read_fails : Exc → Reply

pub record Answer : Type 0 where
  pub took : ℕ
  pub locked : Bool
  pub result : Reply

pub record Bus : Type 0 where
  -- `_serial is not None`
  pub is_open : Bool
  -- the monotonic clock, in milliseconds
  pub now : ℕ
  pub answers : List Answer
  pub sent : List Text

abbrev pub silent : Answer
silent = record { took = 0; locked = false; result = replies [] }

abbrev pub first : List Answer → Answer
first [] = silent
first (a ∷ l) = a

abbrev others : List Answer → List Answer
others [] = []
others (a ∷ l) = l

abbrev pub after : Bus → Bus
after b = record b { now = b.now + (first b.answers).took; answers = others b.answers }

-- A call returns its result and the bus that it leaves.
abbrev Call : Type 0 → Type 0
Call A = Bus → Outcome A × Bus

abbrev pub wrote : Text → Bus → Bus
wrote cmd b = record b { sent = cmd ∷ b.sent }

-- `self._serial = None`
abbrev dropped : Bus → Bus
dropped b = record b { is_open = false }

-- `read(size)`
abbrev pub take : ℕ → Text → Text
take zero t = []
take (suc n) [] = []
take (suc n) (c ∷ t) = c ∷ take n t

-- `read_until(b"#", size)`
abbrev read_until : ℕ → Text → Text
read_until zero t = []
read_until (suc n) [] = []
read_until (suc n) (c ∷ t) = if c == b'#' then c ∷ [] else c ∷ read_until n t

abbrev is_line_end : ℕ → Bool
is_line_end c = c == b'#' || c == 13 || c == 10

-- A write and the read of its reply, under the lock.
unfoldable pub exchange : Text → (Text → Text) → Reply → Call Text
exchange cmd read (replies t) b = (ok (read t), wrote cmd b)
exchange cmd read (write_fails e) b = (raised e, dropped b)
exchange cmd read (read_fails e) b = (raised e, dropped (wrote cmd b))

unfoldable pub raw_send : Text → Call Text
raw_send cmd b =
    if b.is_open
    then exchange cmd (read_until 128) (first b.answers).result (after b)
    else (ok [], b)

-- `rstrip("#\r\n")`
abbrev stripped : Outcome Text × Bus → Outcome Text × Bus
stripped (ok t, b) = (ok (rstrip is_line_end t), b)
stripped (raised e, b) = (raised e, b)

unfoldable pub send : Text → Call Text
send cmd b = stripped (raw_send cmd b)

abbrev pub is_busy : Exc
is_busy = timeout_error "serial bus busy while sending"

-- A write alone, which fails or not.
unfoldable pub write_only : Text → Reply → Call (Unit {0})
write_only cmd (write_fails e) b = (raised e, dropped b)
write_only cmd _ b = (ok tt, wrote cmd b)

unfoldable pub write_no_reply : Text → Call (Unit {0})
write_no_reply cmd b =
    if b.is_open
    then (if (first b.answers).locked
        then (raised is_busy, after b)
        else write_only cmd (first b.answers).result (after b))
    else (ok tt, b)

unfoldable pub send_fixed : Text → ℕ → Call Text
send_fixed cmd size b =
    if b.is_open
    then (if (first b.answers).locked
        then (raised is_busy, after b)
        else stripped (exchange cmd (take size) (first b.answers).result (after b)))
    else (ok [], b)

-- A write that fails is no error here: it is only not sent.
unfoldable pub bypass : Text → Reply → Bus → Bus
bypass cmd (write_fails e) b = b
bypass cmd _ b = wrote cmd b

unfoldable pub write_bypass : Text → Bus → Bus
write_bypass cmd b = if b.is_open then bypass cmd (first b.answers).result (after b) else b

unfoldable pub close : Bus → Bus
close b = dropped b
