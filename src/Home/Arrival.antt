-- ===== src/Home/Arrival.antt =====
-- What a confirmed arrival rests on, and what a refused or failed move does.
use on_step_adapter.Base.{
  ◌&&◌, Bool-cases, Option-cases, ap, &&-eq_true, ◌∷◌, [], ℕ, zero, suc, ◌+◌, ◌-◌, ◌≡◌, ◌≢◌, refl,
  ◌⊎◌, inl, inr, Bool, true, false, Option, none, some, String, arith, if◌then◌else◌,
}
use on_step_adapter.Base.Int.{ℤ}
use on_step_adapter.Base.Text.{Text, rstrip, strip}
use on_step_adapter.Outcome.{Exc, Outcome, ok, Outcome-cases, succeeded}
use on_step_adapter.Gu.{Gu, accepts, flags_of, decode_gu, is_hash}
use on_step_adapter.Snapshot.{IndiMountSnapshot}
use on_step_adapter.Transport.{IndiProperty, World, Io, get_property, revision_of, wait_property}
use on_step_adapter.Requests.{issue_switch}
use on_step_adapter.Stop.{status_text}
use on_step_adapter.Home.{
  IndiPositionResult, is_home, wait_status, stop_after, move_to_position, move_to_home, not_ready,
  go_home, park, step_of, read_update, judge_update, route_rounds, raw_of, last_text,
}

abbrev pub holds : (Gu → Bool) → Option Gu → Bool
holds wanted none = false
holds wanted (some g) = accepts g.raw && wanted (flags_of g.raw)

decode_gu_lem :
    (t : Text) (g : Gu) → decode_gu t ≡ some g → (accepts g.raw ≡ true) × (flags_of g.raw ≡ g)
unfolding decode_gu flags_of
decode_gu_lem t g h = elim (Bool-cases (accepts (rstrip is_hash (strip t)))) [
  | inl e ↦ ground arith
  | inr e ↦ absurd (ground arith)
]

-- A status that was read is that of its own text.
read_update-holds :
    (wanted : Gu → Bool) (p : IndiProperty) (t : Option Text) (g : Gu)
    → read_update p t ≡ ok g
    → wanted g ≡ true
    → holds wanted (some g) ≡ true
unfolding read_update judge_update
read_update-holds wanted p none g h yes_g = absurd (ground arith)
read_update-holds wanted p (some []) g h yes_g = absurd (ground arith)
read_update-holds wanted p (some (c ∷ t)) g h yes_g = elim (Option-cases (decode_gu (c ∷ t))) [
  | inl e ↦ absurd (ground arith)
  | inr (k, e) ↦
      let (accepted, same) = decode_gu_lem (c ∷ t) k e in
      let it : k ≡ g = ground arith in ground (arith, accepted, ap wanted same, it)
]

module _ (device : String) (stoppable : Bool) (wanted : Gu → Bool) (deadline : ℕ) where
  wait_status-holds :
      (fuel stable : ℕ) (revision : ℤ) (last : Option Gu) (w : World) (r : Option Gu)
      → (stable ≢ 0 → holds wanted last ≡ true)
      → (wait_status device stoppable wanted 2 deadline fuel stable revision last w).0 ≡ ok r
      → holds wanted r ≡ true
  unfolding wait_status
  wait_status-holds zero stable revision last w r seen h = cc
  wait_status-holds (suc fuel) stable revision last w r seen h =
      elim (Outcome-cases
        (wait_property device "OnStep Status" (step_of stoppable (deadline - w.now)) revision
          w).0) [
            | inr (e, q) ↦ ground (
              arith,
              wait_status-holds fuel stable revision last
                  (wait_property device "OnStep Status" (step_of stoppable (deadline - w.now))
                    revision w).1
                  r,
            )
            | inl (p, q) ↦ elim (Outcome-cases (read_update p (status_text p))) [
              | inr (e, u) ↦ ground arith
              | inl (g, u) ↦ ground (
                arith,
                read_update-holds wanted p (status_text p) g u,
                wait_status-holds fuel (if wanted g then suc stable else 0) p.revision (some g)
                    (wait_property device "OnStep Status" (step_of stoppable (deadline - w.now))
                      revision w).1
                    r,
              )
            ]
          ]

-- The text that the result shows is a status whose flags satisfy the predicate, and there is no
-- error.
abbrev pub Arrived : (Gu → Bool) → IndiPositionResult → Type 0
Arrived wanted r =
    (t : Text) × (r.final_raw_status ≡ some t)
    × (accepts t ≡ true)
    × (wanted (flags_of t) ≡ true)
    × (r.error ≡ none)

holds-some :
    (wanted : Gu → Bool) (r : Option Gu)
    → holds wanted r ≡ true
    → (t : Text) × (raw_of r ≡ some t) × (accepts t ≡ true) × (wanted (flags_of t) ≡ true)
holds-some wanted none h = cc
holds-some wanted (some g) h =
    let (accepted, yes_g) = &&-eq_true (accepts g.raw) (wanted (flags_of g.raw)) h in
    (g.raw, refl, accepted, yes_g)

stop_after_unconfirmed :
    (device : String) (e : Exc) (raw : Option Text) (w : World) (r : IndiPositionResult)
    → (stop_after device e raw w).0 ≡ ok r
    → r.confirmed ≡ false
unfolding stop_after
stop_after_unconfirmed device e raw w r h = ground arith

module _ (device : String) (stoppable : Bool) (name element : String) (wanted : Gu → Bool) where
  waited : ℕ → World → Outcome (Option Gu) × World
  waited timeout w =
      let w1 = (issue_switch device name element 3000 w).1 in
      wait_status device stoppable wanted 2 (w1.now + timeout) (route_rounds timeout w1) 0
        (revision_of (get_property device "OnStep Status" w)) none w1

  waited-holds :
      (timeout : ℕ) (w : World) (last : Option Gu)
      → (waited timeout w).0 ≡ ok last
      → holds wanted last ≡ true
  unfolding waited
  waited-holds timeout w last h =
      wait_status-holds device stoppable wanted _ _ 0 _ none _ last (λ z. absurd (z refl)) h

  -- A confirmed move has sent its command.
  not_issued :
      (timeout : ℕ) (w : World) (r : IndiPositionResult)
      → (move_to_position device stoppable name element wanted timeout w).0 ≡ ok r
      → r.confirmed ≡ true
      → succeeded (issue_switch device name element 3000 w).0 ≡ true
  unfolding move_to_position
  not_issued timeout w r h c = elim (Outcome-cases (issue_switch device name element 3000 w).0) [
    | inl (p, q) ↦ rw q refl
    | inr (e, q) ↦ absurd (
        ground (
          arith,
          stop_after_unconfirmed device e (last_text (get_property device "OnStep Status" w))
              (issue_switch device name element 3000 w).1 r,
        ))
  ]

  move_to_position-Arrived :
      (timeout : ℕ) (w : World) (r : IndiPositionResult)
      → (move_to_position device stoppable name element wanted timeout w).0 ≡ ok r
      → r.confirmed ≡ true
      → Arrived wanted r
  unfolding move_to_position waited
  move_to_position-Arrived timeout w r h c = elim (Outcome-cases (waited timeout w).0) [
    | inr (e, q) ↦ absurd (
        ground (
          arith,
          q,
          stop_after_unconfirmed device e (last_text (get_property device "OnStep Status" w))
              (waited timeout w).1 r,
          not_issued timeout w r h c,
        ))
    | inl (last, q) ↦
        let (g, raw, accepted, yes_g) = holds-some wanted last (waited-holds timeout w last q) in
        (
          g,
          ground (arith, q, raw, not_issued timeout w r h c),
          accepted,
          yes_g,
          ground (arith, q, not_issued timeout w r h c),
        )
  ]

module _ (device : String) (reader : Io IndiMountSnapshot) (stoppable : Bool) (timeout : ℕ)
    (authority : Bool) (w : World) (r : IndiPositionResult) where
  -- A `go_home` that reports arrival shows as its last status an accepted text, whose flags say
  -- that the mount is at HOME and not parked, slewing, tracking or with a park failure, and has
  -- no error.
  pub go_home-Arrived :
      (go_home device reader stoppable timeout authority w).0 ≡ ok r
      → r.confirmed ≡ true
      → Arrived is_home r
  unfolding go_home move_to_home
  go_home-Arrived h c =
      move_to_position-Arrived device stoppable "TELESCOPE_HOME" "GO" is_home timeout (reader w).1 r
        (ground arith) c

  -- After `go_home` the HOME authority is what the result confirms; only a refused preflight, and
  -- nothing else, leaves it as it was.
  go_home_authority :
      (go_home device reader stoppable timeout authority w).0 ≡ ok r
      → let established = (go_home device reader stoppable timeout authority w).1 in
        (established ≡ r.confirmed) ⊎ ((established ≡ authority) × (r.error ≡ some not_ready))
  unfolding go_home move_to_home
  go_home_authority h = ground arith

  -- A `park` that gets past its preflight withdraws the HOME authority, whatever comes of the move.
  park_authority :
      (park device reader stoppable timeout authority w).0 ≡ ok r
      → r.error ≢ some not_ready
      → (park device reader stoppable timeout authority w).1 ≡ false
  unfolding park
  park_authority h moved = ground arith
