-- ===== src/Requests.antt =====
-- onstep_adapter/indi_transport.py: the requests, and the loops that wait for their confirmation.
-- Such a loop is bounded by its deadline; in the model it recurs on fuel, two more than the
-- number of events still to come: the first round may find what arrived during the send, and each
-- other round takes at least one event, so `out_of_fuel` is never met.

pub mod Fuel
pub mod Sent
pub mod Values
pub mod Connection
use on_step_adapter.Base.{
  ℕ, zero, suc, ◌+◌, ◌-◌, Bool, true, false, ◌&&◌, ◌||◌, not, Option, none, some, List, [], ◌∷◌,
  String, leb, all, is_some, length, if◌then◌else◌,
}
use on_step_adapter.Base.Int.{ℤ, negsuc}
use on_step_adapter.Outcome.{
  Exc, Outcome, ok, raised, connection_error, timeout_error, value_error, runtime_error,
  out_of_fuel,
}
use on_step_adapter.Transport.{
  Kind, switch_kind, number_kind, text_kind, other_kind, State, ok_state, alert, Permission,
  read_only, IndiProperty, Request, new_switch, new_number, World, Io, ◌>>=◌, ◌>>◌, return, gets,
  when, value_of, is_value, latch, pass, wait_property,
}

abbrev pub is_ok : State → Bool
is_ok ok_state = true
is_ok _ = false

abbrev pub is_alert : State → Bool
is_alert alert = true
is_alert _ = false

abbrev pub is_read_only : Permission → Bool
is_read_only read_only = true
is_read_only _ = false

abbrev pub same_kind : Kind → Kind → Bool
same_kind switch_kind switch_kind = true
same_kind number_kind number_kind = true
same_kind text_kind text_kind = true
same_kind other_kind other_kind = true
same_kind _ _ = false

-- `connection.sendall`: it blocks for the time that the schedule holds for this call, while other
-- threads go on, and then raises what it holds, if anything. Behind the schedule it takes no time.
sendall : Request → World → List (ℕ × Option Exc) → Outcome (Unit {0}) × World
sendall q w [] = (ok tt, record w { sent = q ∷ w.sent })
sendall q w ((took, none) ∷ later) =
    (ok tt, record (pass took w) { sent = q ∷ w.sent; send_faults = later })
sendall q w ((took, some e) ∷ later) = (raised e, record (pass took w) { send_faults = later })

-- `_send`
unfoldable pub send : Request → Io (Unit {0})
unfolding sendall
send q w =
    if w.closed || not w.has_socket
    then (raised (connection_error "INDI connection closed"), w)
    else let v = latch w in
      if v.failure
      then (raised (connection_error "INDI reader failed"), v)
      else sendall q v v.send_faults

-- The guard of each request: the kind, the permission and the elements named.
unfoldable pub is_writable : Kind → List String → IndiProperty → Bool
is_writable kind elements p =
    same_kind p.kind kind
    && not (is_read_only p.permission)
    && all (λ element. is_some (value_of p.values element)) elements

abbrev pub not_writable : Exc
not_writable = value_error "not a writable INDI property"

unfoldable pub issue_switch : String → String → String → ℕ → Io ℤ
issue_switch device name element timeout = do
  before ← wait_property device name timeout (negsuc 0)
  when (not (is_writable switch_kind (element ∷ []) before)) not_writable
  send (new_switch device name element)
  return before.revision

-- How one update ends a confirmation: a result, an error, or not yet.
abbrev pub Judge : Type 0
Judge = IndiProperty → Option (Outcome IndiProperty)

-- The confirmation loop of `set_switch`, `request_switch` and `_set_values`.
unfoldable pub confirm : ℕ → String → String → ℕ → String → Judge → ℤ → Io IndiProperty
confirm zero device name deadline late judge after w = (raised out_of_fuel, w)
confirm (suc fuel) device name deadline late judge after w =
    if leb deadline w.now
    then (raised (timeout_error late), w)
    else let (r, w') = wait_property device name (deadline - w.now) after w in
      elim r [
        | raised e ↦ (raised e, w')
        | ok p ↦ elim (judge p) [
          | some (ok q) ↦ (ok q, w')
          | some (raised e) ↦ (raised e, w')
          | none ↦ confirm fuel device name deadline late judge p.revision w'
        ]
      ]

abbrev pub rounds : World → ℕ
rounds w = suc (suc (length w.inbox))

-- `after.values.get(element) == "On" and after.state.lower() == "ok"`, behind the test for Alert.
unfoldable pub switched : String → Judge
switched element p =
    if is_alert p.state
    then some (raised (runtime_error "INDI rejected"))
    else if is_value p.values element "On" && is_ok p.state
    then some (ok p)
    else none

unfoldable pub acknowledged : Judge
acknowledged p =
    if is_alert p.state
    then some (raised (runtime_error "INDI rejected"))
    else if is_ok p.state
    then some (ok p)
    else none

unfoldable pub set_switch : String → String → String → ℕ → Io IndiProperty
set_switch device name element timeout = do
  before ← wait_property device name timeout (negsuc 0)
  when (not (is_writable switch_kind (element ∷ []) before)) not_writable
  if is_ok before.state && is_value before.values element "On" then return before else (do
    send (new_switch device name element)
    start ← gets (λ w. w)
    confirm (rounds start) device name (start.now + timeout) "INDI switch was not confirmed"
        (switched element) before.revision)

-- `request_switch`: a momentary switch whose element may reset at once.
unfoldable pub request_switch : String → String → String → ℕ → Io IndiProperty
request_switch device name element timeout = do
  before ← wait_property device name timeout (negsuc 0)
  when (not (is_writable switch_kind (element ∷ []) before)) not_writable
  send (new_switch device name element)
  start ← gets (λ w. w)
  confirm (rounds start) device name (start.now + timeout) "INDI momentary switch was not confirmed"
      acknowledged before.revision

-- The finite value of `issue_number`; a value that is not finite raises before anything is read.
unfoldable pub issue_number : String → String → String → ℤ → ℕ → Io ℤ
issue_number device name element value timeout = do
  before ← wait_property device name timeout (negsuc 0)
  when (not (is_writable number_kind (element ∷ []) before)) not_writable
  send (new_number device name ((element, value) ∷ []))
  return before.revision
