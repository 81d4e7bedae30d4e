-- ===== src/Requests/Connection.antt =====
-- onstep_adapter/indi_transport.py: `connect` and `close`. `socket` is what
-- `socket.create_connection` ends with. The joins of the reader take no time.
use on_step_adapter.Base.{arith, ◌≡◌, true, false, [], if◌then◌else◌}
use on_step_adapter.Outcome.{Outcome, ok, raised, connection_error}
use on_step_adapter.Transport.{is_open, World, Io, get_properties, latch}
use on_step_adapter.Requests.{send}

-- A new socket, with an empty store and a reader that runs.
unfoldable pub open_socket : World → World
open_socket w = record w {
  has_socket = true;
  closed = false;
  failure = false;
  properties = [];
  reader_alive = true;
}

-- `connect`
unfoldable pub connect : Outcome (Unit {0}) → Io (Unit {0})
connect socket w = elim w.closed [
  | false ↦
      let v = latch w in
      if v.failure
      then (raised (connection_error "INDI reader failed; close the transport first"), v)
      else (ok tt, v)
  | true ↦ elim socket [ raised e ↦ (raised e, w) | ok made ↦ send get_properties (open_socket w) ]
]

-- `close`
unfoldable pub close : World → World
close w = elim w.closed [
  | true ↦ w
  | false ↦ record w { closed = true; has_socket = false; reader_alive = false }
]

-- Behind a close the transport is not open.
pub is_open-close : (w : World) → is_open (close w) ≡ false
unfolding is_open close
is_open-close w = ground arith
