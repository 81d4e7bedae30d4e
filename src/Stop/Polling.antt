-- ===== src/Stop/Polling.antt =====
-- The confirmation loop of the stop: it ends, in time, and what it reports is what it saw.
use on_step_adapter.Base.{
  ℕ, zero, suc, ◌-◌, ◌<◌, ◌≡◌, inl, inr, true, false, Option, none, List, [], ◌∷◌, String, length,
  arith, ◌++◌, refl, ◌≢◌, if◌then◌else◌,
}
use on_step_adapter.Base.Int.{ℤ}
use on_step_adapter.Base.Text.{Text}
use on_step_adapter.Outcome.{ok, Outcome-cases, succeeded}
use on_step_adapter.Transport.{IndiProperty, World, get_property, newer, wait_property}
use on_step_adapter.Transport.Waiting.{
  Waits, SameWire, wait_property_lem, wait_property_uses_event, newer_self, wait_property-Waits,
  wait_property-SameWire,
}
use on_step_adapter.Stop.{
  StopError, Polled, poll_stopped, is_stopped, decoded_of, is_stopped_gu, is_nil, status_text,
  status_failed, stop_confirmation_timeout,
}

-- A report of stopped polls is backed by its status text, and keeps the errors before it.
pub record IsBacked (errors : List StopError) (r : Polled) : Type 0 where
  pub seen : r.0 ≢ 0 → is_stopped_gu (decoded_of r.1) ≡ true
  pub no_error_lost : is_nil r.2 ≡ true → is_nil errors ≡ true

is_nil-append : (errors : List StopError) (e : StopError) → is_nil (errors ++ e ∷ []) ≡ false
is_nil-append [] e = refl
is_nil-append (f ∷ errors) e = refl

is_stopped_text :
    (p : IndiProperty) → is_stopped p ≡ true → is_stopped_gu (decoded_of (status_text p)) ≡ true
unfolding is_stopped
is_stopped_text p h = ground arith

module _ (device : String) (deadline : ℕ) (errors : List StopError) where
  pub poll_stopped_total :
      (fuel : ℕ) (revision : ℤ) (polls : ℕ) (raw : Option Text) (w : World)
      → length w.inbox < fuel
      → newer revision (get_property device "OnStep Status" w) ≡ none
      → succeeded (poll_stopped fuel device deadline revision polls raw errors w).0 ≡ true
  unfolding poll_stopped
  poll_stopped_total zero revision polls raw w few h = absurd (omega arith)
  poll_stopped_total (suc fuel) revision polls raw w few h =
      elim (Outcome-cases (wait_property device "OnStep Status" (deadline - w.now) revision w).0) [
        | inr (e, q) ↦
            ground (
              arith,
              (wait_property_lem device "OnStep Status" (deadline - w.now) revision w).2 e q,
            )
        | inl (p, q) ↦ ground (
          arith,
          poll_stopped_total fuel p.revision (if is_stopped p then suc polls else 0) (status_text p)
              (wait_property device "OnStep Status" (deadline - w.now) revision w).1,
          wait_property_uses_event device "OnStep Status" (deadline - w.now) revision w p h q,
          newer_self device "OnStep Status" revision p
              (wait_property device "OnStep Status" (deadline - w.now) revision w).1
              ((wait_property_lem device "OnStep Status" (deadline - w.now) revision w).3 p q),
        )
      ]

  pub poll_stopped-Waits :
      (fuel : ℕ) (revision : ℤ) (polls : ℕ) (raw : Option Text) (w : World)
      → Waits deadline w (poll_stopped fuel device deadline revision polls raw errors w).1
  unfolding poll_stopped
  poll_stopped-Waits zero revision polls raw w = ground arith
  poll_stopped-Waits (suc fuel) revision polls raw w =
      elim (Outcome-cases (wait_property device "OnStep Status" (deadline - w.now) revision w).0) [
        | inr (e, q) ↦
            ground (arith, wait_property-Waits device "OnStep Status" (deadline - w.now) revision w)
        | inl (p, q) ↦ ground (
          arith,
          wait_property-Waits device "OnStep Status" (deadline - w.now) revision w,
          poll_stopped-Waits fuel p.revision (if is_stopped p then suc polls else 0) (status_text p)
              (wait_property device "OnStep Status" (deadline - w.now) revision w).1,
        )
      ]

  pub poll_stopped-SameWire :
      (fuel : ℕ) (revision : ℤ) (polls : ℕ) (raw : Option Text) (w : World)
      → SameWire w (poll_stopped fuel device deadline revision polls raw errors w).1
  unfolding poll_stopped
  poll_stopped-SameWire zero revision polls raw w = ground arith
  poll_stopped-SameWire (suc fuel) revision polls raw w =
      elim (Outcome-cases (wait_property device "OnStep Status" (deadline - w.now) revision w).0) [
        | inr (e, q) ↦
            ground
              (arith, wait_property-SameWire device "OnStep Status" (deadline - w.now) revision w)
        | inl (p, q) ↦ ground (
          arith,
          wait_property-SameWire device "OnStep Status" (deadline - w.now) revision w,
          poll_stopped-SameWire fuel p.revision (if is_stopped p then suc polls else 0)
              (status_text p)
              (wait_property device "OnStep Status" (deadline - w.now) revision w).1,
        )
      ]

  pub poll_stopped-IsBacked :
      (fuel : ℕ) (revision : ℤ) (polls : ℕ) (raw : Option Text) (w : World) (r : Polled)
      → (polls ≢ 0 → is_stopped_gu (decoded_of raw) ≡ true)
      → (poll_stopped fuel device deadline revision polls raw errors w).0 ≡ ok r
      → IsBacked errors r
  unfolding poll_stopped
  poll_stopped-IsBacked zero revision polls raw w r seen h = cc
  poll_stopped-IsBacked (suc fuel) revision polls raw w r seen h =
      elim (Outcome-cases (wait_property device "OnStep Status" (deadline - w.now) revision w).0) [
        | inr (e, q) ↦ ground (
          arith,
          is_nil-append errors (status_failed e),
          is_nil-append errors stop_confirmation_timeout,
        )
        | inl (p, q) ↦ ground (
          arith,
          is_nil-append errors stop_confirmation_timeout,
          is_stopped_text p,
          poll_stopped-IsBacked fuel p.revision (if is_stopped p then suc polls else 0)
              (status_text p) (wait_property device "OnStep Status" (deadline - w.now) revision w).1
              r,
        )
      ]
