-- ===== src/Requests/Fuel.antt =====
-- The confirmation loops end by themselves: their fuel is always enough.
use on_step_adapter.Base.{
  ℕ, zero, suc, ◌-◌, ◌<◌, ◌≡◌, ◌≢◌, inl, inr, none, some, String, length, arith,
}
use on_step_adapter.Base.Int.{ℤ}
use on_step_adapter.Outcome.{Outcome-cases, raised, out_of_fuel}
use on_step_adapter.Transport.{IndiProperty, World, get_property, newer, wait_property}
use on_step_adapter.Transport.Waiting.{wait_property_lem, wait_property_uses_event, newer_self}
use on_step_adapter.Requests.{Judge, confirm}

wait_property-ne-out_of_fuel :
    (device name : String) (timeout : ℕ) (after : ℤ) (w : World)
    → (wait_property device name timeout after w).0 ≢ raised out_of_fuel
wait_property-ne-out_of_fuel device name timeout after w h =
    cc ((wait_property_lem device name timeout after w).2 out_of_fuel h)

module _ (device name : String) (deadline : ℕ) (late : String) (judge : Judge)
    (ends : (p : IndiProperty) → judge p ≢ some (raised out_of_fuel)) where
  -- A confirmation with more fuel than there are events to come, started from a revision that
  -- nothing in the store is above, never ends for lack of fuel, for any judgement that does not
  -- raise that itself: it returns, or raises what the transport or the judgement raises.
  confirm-ne-out_of_fuel :
      (fuel : ℕ) (after : ℤ) (w : World)
      → length w.inbox < fuel
      → newer after (get_property device name w) ≡ none
      → (confirm fuel device name deadline late judge after w).0 ≢ raised out_of_fuel
  unfolding confirm
  confirm-ne-out_of_fuel zero after w few h = absurd (omega arith)
  confirm-ne-out_of_fuel (suc fuel) after w few h =
      elim (Outcome-cases (wait_property device name (deadline - w.now) after w).0) [
        | inr (e, r) ↦
            ground (arith, wait_property-ne-out_of_fuel device name (deadline - w.now) after w)
        | inl (p, r) ↦
            let later = (wait_property device name (deadline - w.now) after w).1 in
            ground (
              arith,
              ends p,
              confirm-ne-out_of_fuel fuel p.revision later,
              wait_property_uses_event device name (deadline - w.now) after w p h r,
              newer_self device name after p later
                  ((wait_property_lem device name (deadline - w.now) after w).3 p r),
            )
      ]
