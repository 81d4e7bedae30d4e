-- ===== src/Focuser/Travel.antt =====
-- What a move of the focuser that reports arrival rests on.
use on_step_adapter.Base.{
  ℕ, zero, suc, ◌+◌, ◌-◌, ◌≡◌, ◌≢◌, refl, inl, inr, true, false, Option, none, some, String, arith,
  min, if◌then◌else◌,
}
use on_step_adapter.Base.Int.{ℤ, pos, ◌≤ℤ◌, eq_of_parts}
use on_step_adapter.Base.Text.{Text}
use on_step_adapter.Outcome.{ok, Outcome-cases, Exc}
use on_step_adapter.Transport.{World, IndiProperty, revision_of, wait_property, get_property}
use on_step_adapter.Requests.{issue_number}
use on_step_adapter.Focuser.{
  IndiFocuserMoveResult, same_position, integer_of, get_status, judge_position, move_loop, give_up,
  outside, move_to, move_rounds, stop_unlocked, move_absolute,
}

same_position-eq : (a b : ℤ) → same_position (some a) (some b) ≡ true → a ≡ b
same_position-eq a b h = eq_of_parts a b (ground arith)

module _ (integer : Text → Option ℤ) (device : String) (configured : Option ℤ) (target : ℤ) where
  judge_position-there :
      (p : IndiProperty) (x latest : Option ℤ) (r : ℤ)
      → judge_position integer device configured target p x latest ≡ ok (r, true)
      → r ≡ target
  unfolding judge_position
  judge_position-there p none latest r h = cc
  judge_position-there p (some x) latest r h = ground (arith, same_position-eq x target)

  move_loop-at_target :
      (deadline fuel : ℕ) (revision : ℤ) (stable : ℕ) (final r : Option ℤ) (w : World)
      → (stable ≢ 0 → final ≡ some target)
      → (move_loop integer device configured target deadline fuel revision stable final w).0 ≡ ok r
      → r ≡ some target
  unfolding move_loop
  move_loop-at_target deadline zero revision stable final r w seen h = cc
  move_loop-at_target deadline (suc fuel) revision stable final r w seen h =
      let (q, w1) =
        wait_property device "ABS_FOCUS_POSITION" (min (deadline - w.now) 500) revision w in
      elim (Outcome-cases q) [
        | inr (e, z) ↦ ground (arith, move_loop-at_target deadline fuel revision stable final r w1)
        | inl (p, z) ↦
            let judged =
              judge_position integer device configured target p
                (integer_of integer device configured (some p) "FOCUS_ABSOLUTE_POSITION")
                (integer_of integer device configured (get_property device "FOCUS_MAX" w1)
                  "FOCUS_MAX_VALUE") in
            elim (Outcome-cases judged) [
              | inr (e, u) ↦ ground arith
              | inl (x, u) ↦ ground (
                arith,
                judge_position-there p
                    (integer_of integer device configured (some p) "FOCUS_ABSOLUTE_POSITION")
                    (integer_of integer device configured (get_property device "FOCUS_MAX" w1)
                      "FOCUS_MAX_VALUE")
                    x.0,
                move_loop-at_target deadline fuel p.revision (if x.1 then suc stable else 0)
                    (some x.0) r w1,
              )
            ]
      ]

  give_up_unreached :
      (e : Exc) (w : World) (r : IndiFocuserMoveResult)
      → (give_up integer device configured target e w).0 ≡ ok r
      → r.reached ≡ false
  unfolding give_up
  give_up_unreached e w r h =
      elim (Outcome-cases (stop_unlocked integer device configured 5000 w).0) [
        | inl (s, q) ↦ ground arith
        | inr (x, q) ↦ ground arith
      ]

  move_to-at_target :
      (timeout : ℕ) (w : World) (r : IndiFocuserMoveResult)
      → (move_to integer device configured target timeout w).0 ≡ ok r
      → r.reached ≡ true
      → (r.final_position ≡ some target) × (r.error ≡ none)
  unfolding move_to
  move_to-at_target timeout w r h there =
      let (q, w1) =
        issue_number device "ABS_FOCUS_POSITION" "FOCUS_ABSOLUTE_POSITION" target 3000 w in
      elim (Outcome-cases q) [
        | inr (e, z) ↦ ground (arith, give_up_unreached e w1 r)
        | inl (sent, z) ↦
            let revision = revision_of (get_property device "ABS_FOCUS_POSITION" w) in
            let moved =
              move_loop integer device configured target (w1.now + timeout)
                (move_rounds integer device configured timeout w1) revision 0 none w1 in
            elim (Outcome-cases moved.0) [
              | inr (e, u) ↦ ground (arith, give_up_unreached e moved.1 r)
              | inl (final, u) ↦ ground (
                arith,
                move_loop-at_target (w1.now + timeout)
                    (move_rounds integer device configured timeout w1) revision 0 none final w1,
              )
            ]
      ]

configured-get_status :
    (integer : Text → Option ℤ) (device : String) (c : Option ℤ) (w : World)
    → (get_status integer device c w).configured_maximum ≡ c
unfolding get_status
configured-get_status integer device c w = refl

-- Both travel limits are known, and the target lies between zero and each of them.
pub record InTravel (target : ℤ) (driver configured : Option ℤ) : Type 0 where
  driver_limit : ℤ
  configured_limit : ℤ
  pub known : driver ≡ some driver_limit
  set : configured ≡ some configured_limit
  pub low : pos 0 ≤ℤ target
  within_driver : target ≤ℤ driver_limit
  within_configured : target ≤ℤ configured_limit

outside-InTravel :
    (integer : Text → Option ℤ) (device : String) (c : Option ℤ) (target : ℤ) (a b : Option ℤ)
    → outside integer device c target a b ≡ false
    → InTravel target a b
unfolding outside
outside-InTravel integer device c target none b h = cc
outside-InTravel integer device c target (some a) none h = cc
outside-InTravel integer device c target (some a) (some b) h = record {
  driver_limit = a;
  configured_limit = b;
  known = refl;
  set = refl;
  low = ground arith;
  within_driver = ground arith;
  within_configured = ground arith;
}

-- A move that reports arrival ends at its target with no error, and the target lies between zero
-- and both travel limits, which were known when the move began: that of the driver, as it was read
-- then, and that of the configuration.
pub move_absolute_reached :
    (integer : Text → Option ℤ) (device : String) (configured : Option ℤ) (target : ℤ) (timeout : ℕ)
    (w : World) (r : IndiFocuserMoveResult)
    → (move_absolute integer device configured target timeout w).0 ≡ ok r
    → r.reached ≡ true
    → (r.final_position ≡ some target)
      × (r.error ≡ none)
      × InTravel target
          (get_status integer device configured
            (record w { stop_requested = false })).driver_maximum
          configured
unfolding move_absolute
move_absolute_reached integer device configured target timeout w r h there =
    let w0 : World = record w { stop_requested = false } in
    let before = get_status integer device configured w0 in
    let inside : outside integer device configured target before.driver_maximum
          before.configured_maximum
        ≡ false =
      ground arith in
    let arrived : (r.final_position ≡ some target) × (r.error ≡ none) =
      ground (arith, move_to-at_target integer device configured target timeout w0 r) in
    (
      arrived.0,
      arrived.1,
      outside-InTravel integer device configured target before.driver_maximum configured
          (rw (configured-get_status integer device configured w0) at inside),
    )
