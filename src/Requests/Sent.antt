-- ===== src/Requests/Sent.antt =====
-- What a request leaves on the wire, how long it takes, and what it raises.
use on_step_adapter.Base.{
  zero, suc, ◌≤◌, ℕ, ◌+◌, ◌≡◌, refl, Bool, true, ◌&&◌, Option, none, some, List, [], ◌∷◌, String,
  arith, if◌then◌else◌,
}
use on_step_adapter.Base.Int.{negsuc}
use on_step_adapter.Outcome.{Exc, Outcome, is_caught, succeeded, is_soft_outcome}
use on_step_adapter.Transport.{Request, new_switch, World, latch, wait_property}
use on_step_adapter.Transport.Waiting.{
  now-pass, pass-SameWire, wait_property-SameWire, wait_property-Waits, wait_property_soft,
  latch-SameWire, now-latch,
}
use on_step_adapter.Requests.{sendall, send, issue_switch}

-- Every fault of the schedule is an exception that the handlers catch.
abbrev pub is_soft : List (ℕ × Option Exc) → Bool
is_soft [] = true
is_soft ((took, none) ∷ later) = is_soft later
is_soft ((took, some e) ∷ later) = is_caught e && is_soft later

-- How long the next `n` sends block.
abbrev pub send_time : ℕ → List (ℕ × Option Exc) → ℕ
send_time zero l = 0
send_time (suc n) [] = 0
send_time (suc n) ((took, fault) ∷ later) = took + send_time n later

-- A call that puts q on the wire if it succeeds and else nothing, and raises what the schedule
-- holds for it.
pub record SendsOnce {A : Type 0} (q : Request) (w : World) (r : Outcome A × World) : Type 0 where
  pub wire : r.1.sent ≡ (if succeeded r.0 then q ∷ w.sent else w.sent)
  pub still_soft : is_soft w.send_faults ≡ true → is_soft r.1.send_faults ≡ true
  pub soft : is_soft w.send_faults ≡ true → is_soft_outcome r.0 ≡ true

send_time_up : (n : ℕ) (l : List (ℕ × Option Exc)) → send_time n l ≤ send_time (suc n) l
send_time_up zero l = omega arith
send_time_up (suc n) [] = omega arith
send_time_up (suc n) ((took, fault) ∷ later) = omega (arith, send_time_up n later)

sendall-SendsOnce :
    (q : Request) (w : World) (faults : List (ℕ × Option Exc))
    → w.send_faults ≡ faults
    → SendsOnce q w (sendall q w faults)
unfolding sendall
sendall-SendsOnce q w [] h = ground arith
sendall-SendsOnce q w ((took, none) ∷ later) h = ground (arith, pass-SameWire took w)
sendall-SendsOnce q w ((took, some e) ∷ later) h = ground (arith, pass-SameWire took w)

sendall_time :
    (q : Request) (w : World) (faults : List (ℕ × Option Exc)) (n : ℕ)
    → w.send_faults ≡ faults
    → (sendall q w faults).1.now + send_time n (sendall q w faults).1.send_faults
      ≤ w.now + send_time (suc n) faults
unfolding sendall
sendall_time q w [] n h = rw h (omega (arith, send_time_up n []))
sendall_time q w ((took, none) ∷ later) n h = omega (arith, now-pass took w)
sendall_time q w ((took, some e) ∷ later) n h = omega (arith, now-pass took w)

send-SendsOnce : (q : Request) (w : World) → SendsOnce q w (send q w)
unfolding send
send-SendsOnce q w =
    ground (arith, latch-SameWire w, sendall-SendsOnce q (latch w) (latch w).send_faults refl)

send_takes :
    (q : Request) (w : World) (n : ℕ)
    → (send q w).1.now + send_time n (send q w).1.send_faults
      ≤ w.now + send_time (suc n) w.send_faults
unfolding send
send_takes q w n = ground (
  arith,
  latch-SameWire w,
  now-latch w,
  send_time_up n w.send_faults,
  sendall_time q (latch w) (latch w).send_faults n refl,
)

module _ (device name element : String) (timeout : ℕ) (w : World) where
  pub issue_switch-SendsOnce :
      SendsOnce (new_switch device name element) w (issue_switch device name element timeout w)
  unfolding issue_switch
  issue_switch-SendsOnce = ground (
    arith,
    wait_property-SameWire device name timeout (negsuc 0) w,
    wait_property_soft device name timeout (negsuc 0) w,
    send-SendsOnce (new_switch device name element)
        (wait_property device name timeout (negsuc 0) w).1,
  )

  pub issue_switch-takes :
      (n : ℕ)
      → (issue_switch device name element timeout w).1.now
          + send_time n (issue_switch device name element timeout w).1.send_faults
        ≤ w.now + timeout + send_time (suc n) w.send_faults
  unfolding issue_switch
  issue_switch-takes n = ground (
    arith,
    wait_property-Waits device name timeout (negsuc 0) w,
    wait_property-SameWire device name timeout (negsuc 0) w,
    send_time_up n w.send_faults,
    send_takes (new_switch device name element) (wait_property device name timeout (negsuc 0) w).1
        n,
  )
