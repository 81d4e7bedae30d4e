-- ===== src/Stop/Evidence.antt =====
-- What the verified stop promises.
use on_step_adapter.Base.{
  suc, ℕ, ◌+◌, ◌≤◌, ◌≡◌, refl, ap, inl, inr, Bool, true, false, none, List, [], ◌∷◌, ◌++◌, String,
  arith, if◌then◌else◌,
}
use on_step_adapter.Outcome.{Exc, Outcome, ok, Outcome-cases, succeeded}
use on_step_adapter.Transport.{Request, new_switch, World, get_property, newer, revision_of}
use on_step_adapter.Transport.Waiting.{Waits, SameWire}
use on_step_adapter.Requests.{issue_switch, rounds}
use on_step_adapter.Requests.Sent.{issue_switch-SendsOnce, issue_switch-takes, send_time, is_soft}
use on_step_adapter.Stop.{
  StopError, IndiStopResult, Polled, abort_failed, tracking_off_failed, attempt, poll_stopped,
  result_of, stop_mount_via_indi, decoded_of, is_stopped_gu, is_nil,
}
use on_step_adapter.Stop.Polling.{
  IsBacked, poll_stopped_total, poll_stopped-Waits, poll_stopped-SameWire, poll_stopped-IsBacked,
}

abbrev abort_request : String → Request
abort_request device = new_switch device "TELESCOPE_ABORT_MOTION" "ABORT"

abbrev track_off_request : String → Request
track_off_request device = new_switch device "TELESCOPE_TRACK_STATE" "TRACK_OFF"

-- An attempt with only soft faults in the schedule returns, and says whether the command went out.
record Attempted (q : Request) (d : ℕ) (w : World) (r : Outcome (Bool × List StopError) × World)
    : Type 0 where
  accepted : Bool
  errors : List StopError
  result : r.0 ≡ ok (accepted, errors)
  reported : is_nil errors ≡ accepted
  wire : r.1.sent ≡ (if accepted then q ∷ w.sent else w.sent)
  still_soft : is_soft r.1.send_faults ≡ true
  takes :
      (n : ℕ) → r.1.now + send_time n r.1.send_faults ≤ w.now + d + send_time (suc n) w.send_faults

module _ (tag : Exc → StopError) (device name element : String) (timeout : ℕ) (w : World)
    (soft : is_soft w.send_faults ≡ true) where
  attempt-Attempted :
      Attempted
        (new_switch device name element)
        timeout
        w
        (attempt tag (issue_switch device name element timeout) w)
  unfolding attempt
  attempt-Attempted =
      let once = issue_switch-SendsOnce device name element timeout w in
      let takes = issue_switch-takes device name element timeout w in
      elim (Outcome-cases (issue_switch device name element timeout w).0) [
        | inl (a, e) ↦ record {
          accepted = true;
          errors = [];
          result = ground arith;
          reported = refl;
          wire = ground arith;
          still_soft = ground arith;
          takes = λ n. ground (arith, takes n);
        }
        | inr (x, e) ↦ record {
          accepted = false;
          errors = tag x ∷ [];
          result = ground arith;
          reported = refl;
          wire = ground arith;
          still_soft = ground arith;
          takes = λ n. ground (arith, takes n);
        }
      ]

-- What a stop has done when it returns.
pub record StopReport (device : String) (time : ℕ) (w : World) (r : IndiStopResult) (w' : World)
    : Type 0 where
  pub wire :
      w'.sent
      ≡ (if r.tracking_off_accepted then track_off_request device ∷ [] else [])
        ++ ((if r.abort_accepted then abort_request device ∷ [] else []) ++ w.sent)
  pub in_time : w'.now ≤ w.now + time + send_time 2 w.send_faults

-- What a confirmed stop rests on.
pub record IsConfirmed (r : IndiStopResult) : Type 0 where
  abort_sent : r.abort_accepted ≡ true
  off_sent : r.tracking_off_accepted ≡ true
  shown_still : is_stopped_gu (decoded_of r.last_raw_status) ≡ true

is_nil-append_left :
    (xs ys : List StopError) → is_nil (xs ++ ys) ≡ true → (is_nil xs ≡ true) × (is_nil ys ≡ true)
is_nil-append_left [] ys h = (refl, h)
is_nil-append_left (x ∷ xs) ys h = cc

newer-revision_of :
    (device name : String) (w : World)
    → newer (revision_of (get_property device name w)) (get_property device name w) ≡ none
unfolding newer
newer-revision_of device name w = ground arith

result_of_confirmed :
    (a b : Bool) (es fs : List StopError) (p : Polled)
    → is_nil es ≡ a
    → is_nil fs ≡ b
    → IsBacked (es ++ fs) p
    → (result_of a b p).stopped_confirmed ≡ true
    → (a ≡ true) × (b ≡ true) × (is_stopped_gu (decoded_of p.1) ≡ true)
unfolding result_of
result_of_confirmed a b es fs p ea eb k h = ground (arith, is_nil-append_left es fs)

result_of_fields :
    (a b : Bool) (p : Polled)
    → ((result_of a b p).abort_accepted ≡ a)
      × ((result_of a b p).tracking_off_accepted ≡ b)
      × ((result_of a b p).last_raw_status ≡ p.1)
unfolding result_of
result_of_fields a b p = (refl, refl, refl)

module _ (device : String) (ct cf : ℕ) (w : World) (soft : is_soft w.send_faults ≡ true) where
  aborted : Outcome (Bool × List StopError) × World
  aborted = attempt abort_failed (issue_switch device "TELESCOPE_ABORT_MOTION" "ABORT" ct) w

  abort_done : Attempted (abort_request device) ct w aborted
  unfolding aborted
  abort_done = attempt-Attempted abort_failed device "TELESCOPE_ABORT_MOTION" "ABORT" ct w soft

  tracked_off : Outcome (Bool × List StopError) × World
  tracked_off =
      attempt tracking_off_failed (issue_switch device "TELESCOPE_TRACK_STATE" "TRACK_OFF" ct)
        aborted.1

  off_done : Attempted (track_off_request device) ct aborted.1 tracked_off
  unfolding tracked_off
  off_done =
      attempt-Attempted tracking_off_failed device "TELESCOPE_TRACK_STATE" "TRACK_OFF" ct aborted.1
        abort_done.still_soft

  polled : Outcome Polled × World
  polled =
      poll_stopped (rounds tracked_off.1) device (tracked_off.1.now + cf)
        (revision_of (get_property device "OnStep Status" tracked_off.1)) 0 none
        (abort_done.errors ++ off_done.errors) tracked_off.1

  polled_ok : succeeded polled.0 ≡ true
  unfolding polled
  polled_ok =
      poll_stopped_total device (tracked_off.1.now + cf) (abort_done.errors ++ off_done.errors)
        (rounds tracked_off.1) (revision_of (get_property device "OnStep Status" tracked_off.1)) 0
        none tracked_off.1 (omega arith) (newer-revision_of device "OnStep Status" tracked_off.1)

  polled-Waits : Waits (tracked_off.1.now + cf) tracked_off.1 polled.1
  unfolding polled
  polled-Waits =
      poll_stopped-Waits device (tracked_off.1.now + cf) (abort_done.errors ++ off_done.errors) _ _
        _ _ _

  polled-SameWire : SameWire tracked_off.1 polled.1
  unfolding polled
  polled-SameWire =
      poll_stopped-SameWire device (tracked_off.1.now + cf) (abort_done.errors ++ off_done.errors) _
        _ _ _ _

  polled-IsBacked :
      (p : Polled) → polled.0 ≡ ok p → IsBacked (abort_done.errors ++ off_done.errors) p
  unfolding polled
  polled-IsBacked p h =
      poll_stopped-IsBacked device (tracked_off.1.now + cf) (abort_done.errors ++ off_done.errors) _
        _ _ _ _ p (λ z. absurd (z refl)) h

  stop_mount-eq :
      (p : Polled)
      → polled.0 ≡ ok p
      → stop_mount_via_indi device ct cf w
        ≡ (ok (result_of abort_done.accepted off_done.accepted p), polled.1)
  unfolding stop_mount_via_indi aborted tracked_off polled
  stop_mount-eq p h = ground (arith, abort_done.result, off_done.result, h)

  stop_mount-StopReport :
      (p : Polled)
      → polled.0 ≡ ok p
      → StopReport device
          (ct + ct + cf)
          w
          (result_of abort_done.accepted off_done.accepted p)
          polled.1
  stop_mount-StopReport p h =
      let (fa, fo, _) = result_of_fields abort_done.accepted off_done.accepted p in
      record {
        wire = rw (fa, fo) (ground (arith, abort_done.wire, off_done.wire, polled-SameWire.sent));
        in_time = omega (arith, abort_done.takes 1, off_done.takes 0, polled-Waits);
      }

stop_mount-IsConfirmed :
    (device : String) (ct cf : ℕ) (w : World) (soft : is_soft w.send_faults ≡ true) (p : Polled)
    (r : IndiStopResult)
    → (polled device ct cf w soft).0 ≡ ok p
    → (stop_mount_via_indi device ct cf w).0 ≡ ok r
    → r.stopped_confirmed ≡ true
    → IsConfirmed r
stop_mount-IsConfirmed device ct cf w soft p r h e c =
    let abort = abort_done device ct cf w soft in
    let off = off_done device ct cf w soft in
    let (fa, fo, fr) = result_of_fields abort.accepted off.accepted p in
    let same : r ≡ result_of abort.accepted off.accepted p =
      ground (arith, e, stop_mount-eq device ct cf w soft p h) in
    let (sa, so, shown) =
      result_of_confirmed abort.accepted off.accepted abort.errors off.errors p abort.reported
        off.reported (polled-IsBacked device ct cf w soft p h) (ground (arith, same, c)) in
    record {
      abort_sent = ground (arith, same, fa, sa);
      off_sent = ground (arith, same, fo, so);
      shown_still = rw (same, fr) shown;
    }

-- If no fault of the schedule is other than a ConnectionError, RuntimeError, TimeoutError or
-- ValueError, the stop returns a report. It does so within twice the command timeout, the
-- confirmation timeout and the time for which its two sends block. Exactly the commands that it
-- reports as accepted have been sent, abort first.
pub stop_mount_via_indi-StopReport :
    (device : String) (ct cf : ℕ) (w : World)
    → is_soft w.send_faults ≡ true
    → (r : IndiStopResult) × ((stop_mount_via_indi device ct cf w).0 ≡ ok r)
      × StopReport device (ct + ct + cf) w r (stop_mount_via_indi device ct cf w).1
stop_mount_via_indi-StopReport device ct cf w soft =
    elim (Outcome-cases (polled device ct cf w soft).0) [
      | inr (e, h) ↦ absurd (ground (arith, polled_ok device ct cf w soft))
      | inl (p, h) ↦
          let eq = stop_mount-eq device ct cf w soft p h in
          (
            result_of (abort_done device ct cf w soft).accepted
                (off_done device ct cf w soft).accepted p,
            ap (λ (x : Outcome IndiStopResult × World). x.0) eq,
            rw eq (stop_mount-StopReport device ct cf w soft p h),
          )
    ]

-- If no fault of the schedule is other than a ConnectionError, RuntimeError, TimeoutError or
-- ValueError, then a stop that returns with a confirmation has had both commands accepted, and the
-- last status that it read shows a mount that neither tracks nor slews and has no park failure.
pub stop_mount_via_indi-IsConfirmed :
    (device : String) (ct cf : ℕ) (w : World) (r : IndiStopResult)
    → is_soft w.send_faults ≡ true
    → (stop_mount_via_indi device ct cf w).0 ≡ ok r
    → r.stopped_confirmed ≡ true
    → IsConfirmed r
stop_mount_via_indi-IsConfirmed device ct cf w r soft e c =
    elim (Outcome-cases (polled device ct cf w soft).0) [
      | inr (x, h) ↦ absurd (ground (arith, polled_ok device ct cf w soft))
      | inl (p, h) ↦ stop_mount-IsConfirmed device ct cf w soft p r h e c
    ]
