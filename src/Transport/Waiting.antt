-- ===== src/Transport/Waiting.antt =====
-- What a wait for a property returns, how long it takes and what it uses up of the schedule.
use on_step_adapter.Base.{
  ℕ, ◌+◌, ◌≤◌, ◌<◌, max, ◌≡◌, refl, Bool, true, false, none, some, List, [], ◌∷◌, String, length,
  arith,
}
use on_step_adapter.Base.Int.{ℤ, ◌<ℤ◌}
use on_step_adapter.Outcome.{
  Exc, Outcome, ok, raised, connection_error, timeout_error, is_soft_outcome,
}
use on_step_adapter.Transport.{
  IndiProperty, Event, World, latch, arrive, get_property, newer, round, wait_loop, wait_property,
  pass_until, pass, record_vector, record_named,
}

-- A reading of one property that is newer than a revision.
pub record IsFresh (device name : String) (after : ℤ) (p : IndiProperty) (w : World) : Type 0 where
  pub stored : get_property device name w ≡ some p
  pub later : after <ℤ p.revision

pub properties-latch : (w : World) → (latch w).properties ≡ w.properties
unfolding latch
properties-latch w = ground arith

pub now-latch : (w : World) → (latch w).now ≡ w.now
unfolding latch
now-latch w = ground arith

pub inbox-latch : (w : World) → (latch w).inbox ≡ w.inbox
unfolding latch
inbox-latch w = ground arith

now-arrive : (e : Event) (w : World) → (arrive e w).now ≡ w.now
unfolding arrive record_vector record_named
now-arrive e w = ground arith

inbox-arrive : (e : Event) (w : World) → (arrive e w).inbox ≡ w.inbox
unfolding arrive record_vector record_named
inbox-arrive e w = ground arith

-- What waiting leaves alone: the requests on the wire and the faults of those to come.
pub record SameWire (w w' : World) : Type 0 where
  pub sent : w'.sent ≡ w.sent
  pub send_faults : w'.send_faults ≡ w.send_faults

pub latch-SameWire : (w : World) → SameWire w (latch w)
unfolding latch
latch-SameWire w = ground arith

pub arrive-SameWire : (e : Event) (w : World) → SameWire w (arrive e w)
unfolding arrive record_vector record_named
arrive-SameWire e w = ground arith

module _ (target : ℕ) where
  pass_until-SameWire :
      (inbox : List (ℕ × Event)) (w : World) → SameWire w (pass_until target inbox w)
  unfolding pass_until
  pass_until-SameWire [] w = ground arith
  pass_until-SameWire ((t, e) ∷ inbox) w = ground (
    arith,
    arrive-SameWire e (record w { now = max w.now t; inbox = inbox }),
    pass_until-SameWire inbox (arrive e (record w { now = max w.now t; inbox = inbox })),
  )

  now-pass_until :
      (inbox : List (ℕ × Event)) (w : World) → (pass_until target inbox w).now ≡ max w.now target
  unfolding pass_until
  now-pass_until [] w = refl
  now-pass_until ((t, e) ∷ inbox) w = ground (
    arith,
    now-arrive e (record w { now = max w.now t; inbox = inbox }),
    now-pass_until inbox (arrive e (record w { now = max w.now t; inbox = inbox })),
  )

  inbox-pass_until :
      (inbox : List (ℕ × Event)) (w : World)
      → w.inbox ≡ inbox
      → length (pass_until target inbox w).inbox ≤ length inbox
  unfolding pass_until
  inbox-pass_until [] w h = ground arith
  inbox-pass_until ((t, e) ∷ inbox) w h = ground (
    arith,
    inbox-arrive e (record w { now = max w.now t; inbox = inbox }),
    inbox-pass_until inbox (arrive e (record w { now = max w.now t; inbox = inbox })),
  )

pub pass-SameWire : (d : ℕ) (w : World) → SameWire w (pass d w)
unfolding pass
pass-SameWire d w = pass_until-SameWire (w.now + d) w.inbox w

pub now-pass : (d : ℕ) (w : World) → (pass d w).now ≡ w.now + d
unfolding pass
now-pass d w = ground (arith, now-pass_until (w.now + d) w.inbox w)

pub inbox-pass : (d : ℕ) (w : World) → length (pass d w).inbox ≤ length w.inbox
unfolding pass
inbox-pass d w = inbox-pass_until (w.now + d) w.inbox w refl

round-IsFresh :
    (device name : String) (after : ℤ) (deadline : ℕ) (w : World) (p : IndiProperty)
    → round device name after deadline w ≡ some (ok p)
    → IsFresh device name after p w
unfolding round newer
round-IsFresh device name after deadline w p h = ground arith

-- What one wait leaves behind: it takes time at most until its deadline, and never adds to the
-- schedule.
pub record Waits (deadline : ℕ) (w w' : World) : Type 0 where
  pub in_time : w'.now ≤ max w.now deadline
  pub onward : w.now ≤ w'.now
  pub shorter : length w'.inbox ≤ length w.inbox

module _ (device name : String) (after : ℤ) (deadline : ℕ) where
  wait_loop-IsFresh :
      (inbox : List (ℕ × Event)) (w : World) (p : IndiProperty)
      → (wait_loop device name after deadline inbox w).0 ≡ ok p
      → IsFresh device name after p (wait_loop device name after deadline inbox w).1
  unfolding wait_loop
  wait_loop-IsFresh [] w p h = ground (arith, round-IsFresh device name after deadline (latch w) p)
  wait_loop-IsFresh ((t, e) ∷ inbox) w p h = ground (
    arith,
    round-IsFresh device name after deadline (latch w) p,
    wait_loop-IsFresh inbox
        (arrive e (record (latch w) { now = max (latch w).now t; inbox = inbox })) p,
  )

  wait_loop-Waits :
      (inbox : List (ℕ × Event)) (w : World)
      → w.inbox ≡ inbox
      → Waits deadline w (wait_loop device name after deadline inbox w).1
  unfolding wait_loop
  wait_loop-Waits [] w h = ground (arith, now-latch w, inbox-latch w)
  wait_loop-Waits ((t, e) ∷ inbox) w h = ground (
    arith,
    now-latch w,
    inbox-latch w,
    now-arrive e (record (latch w) { now = max (latch w).now t; inbox = inbox }),
    inbox-arrive e (record (latch w) { now = max (latch w).now t; inbox = inbox }),
    wait_loop-Waits inbox
        (arrive e (record (latch w) { now = max (latch w).now t; inbox = inbox })),
  )

  wait_loop-SameWire :
      (inbox : List (ℕ × Event)) (w : World)
      → SameWire w (wait_loop device name after deadline inbox w).1
  unfolding wait_loop
  wait_loop-SameWire [] w = ground (arith, latch-SameWire w)
  wait_loop-SameWire ((t, e) ∷ inbox) w = ground (
    arith,
    latch-SameWire w,
    arrive-SameWire e (record (latch w) { now = max (latch w).now t; inbox = inbox }),
    wait_loop-SameWire inbox
        (arrive e (record (latch w) { now = max (latch w).now t; inbox = inbox })),
  )

  wait_loop_uses_event :
      (inbox : List (ℕ × Event)) (w : World) (p : IndiProperty)
      → w.inbox ≡ inbox
      → newer after (get_property device name w) ≡ none
      → (wait_loop device name after deadline inbox w).0 ≡ ok p
      → length (wait_loop device name after deadline inbox w).1.inbox < length inbox
  unfolding wait_loop round get_property
  wait_loop_uses_event [] w p e h r = ground (arith, properties-latch w)
  wait_loop_uses_event ((t, ev) ∷ inbox) w p e h r = ground (
    arith,
    properties-latch w,
    inbox-arrive ev (record (latch w) { now = max (latch w).now t; inbox = inbox }),
    wait_loop-Waits inbox
        (arrive ev (record (latch w) { now = max (latch w).now t; inbox = inbox })),
  )

-- The errors that a wait raises.
abbrev is_wait_error : Exc → Bool
is_wait_error (connection_error _) = true
is_wait_error (timeout_error _) = true
is_wait_error _ = false

round_error :
    (device name : String) (after : ℤ) (deadline : ℕ) (w : World) (e : Exc)
    → round device name after deadline w ≡ some (raised e)
    → is_wait_error e ≡ true
unfolding round newer
round_error device name after deadline w e h = ground arith

wait_loop_error :
    (device name : String) (after : ℤ) (deadline : ℕ) (inbox : List (ℕ × Event)) (w : World)
    (e : Exc)
    → (wait_loop device name after deadline inbox w).0 ≡ raised e
    → is_wait_error e ≡ true
unfolding wait_loop
wait_loop_error device name after deadline [] w e h =
    ground (arith, round_error device name after deadline (latch w) e)
wait_loop_error device name after deadline ((t, ev) ∷ inbox) w e h = ground (
  arith,
  round_error device name after deadline (latch w) e,
  wait_loop_error device name after deadline inbox
      (arrive ev (record (latch w) { now = max (latch w).now t; inbox = inbox })) e,
)

-- Whatever the schedule, `wait_property` ends by its deadline, or at once if that has passed. It
-- raises nothing but a ConnectionError or a TimeoutError, and what it returns is the stored
-- property, with a revision above the one that was asked for.
pub wait_property_lem :
    (device name : String) (timeout : ℕ) (after : ℤ) (w : World)
    → let (r, w') = wait_property device name timeout after w in
      (w'.now ≤ w.now + timeout)
      × (w.now ≤ w'.now)
      × ((e : Exc) → r ≡ raised e → is_wait_error e ≡ true)
      × ((p : IndiProperty) → r ≡ ok p → IsFresh device name after p w')
unfolding wait_property
wait_property_lem device name timeout after w =
    let waits = wait_loop-Waits device name after (w.now + timeout) w.inbox w refl in
    (
      omega arith,
      waits.onward,
      wait_loop_error device name after (w.now + timeout) w.inbox w,
      wait_loop-IsFresh device name after (w.now + timeout) w.inbox w,
    )

-- A wait that returns a property returns what is stored at that time, with a revision above the one
-- that was asked for, no later than its deadline.
pub wait_property-IsFresh :
    (device name : String) (timeout : ℕ) (after : ℤ) (w : World) (p : IndiProperty)
    → (wait_property device name timeout after w).0 ≡ ok p
    → IsFresh device name after p (wait_property device name timeout after w).1
      × ((wait_property device name timeout after w).1.now ≤ w.now + timeout)
wait_property-IsFresh device name timeout after w p h =
    let all = wait_property_lem device name timeout after w in (all.3 p h, all.0)

-- A wait for something that is not there yet uses up an event of the schedule if it succeeds.
pub wait_property_uses_event :
    (device name : String) (timeout : ℕ) (after : ℤ) (w : World) (p : IndiProperty)
    → newer after (get_property device name w) ≡ none
    → (wait_property device name timeout after w).0 ≡ ok p
    → length (wait_property device name timeout after w).1.inbox < length w.inbox
unfolding wait_property
wait_property_uses_event device name timeout after w p h r =
    wait_loop_uses_event device name after (w.now + timeout) w.inbox w p refl h r

pub wait_property-Waits :
    (device name : String) (timeout : ℕ) (after : ℤ) (w : World)
    → Waits (w.now + timeout) w (wait_property device name timeout after w).1
unfolding wait_property
wait_property-Waits device name timeout after w =
    wait_loop-Waits device name after (w.now + timeout) w.inbox w refl

-- What is stored is not newer than its own revision.
pub newer_self :
    (device name : String) (after : ℤ) (p : IndiProperty) (w : World)
    → IsFresh device name after p w
    → newer p.revision (get_property device name w) ≡ none
unfolding newer
newer_self device name after p w h = rw (h.stored) (ground arith)

pub wait_property-SameWire :
    (device name : String) (timeout : ℕ) (after : ℤ) (w : World)
    → SameWire w (wait_property device name timeout after w).1
unfolding wait_property
wait_property-SameWire device name timeout after w =
    wait_loop-SameWire device name after (w.now + timeout) w.inbox w

soft_of_wait_error :
    {A : Type 0} (r : Outcome A)
    → ((e : Exc) → r ≡ raised e → is_wait_error e ≡ true)
    → is_soft_outcome r ≡ true
soft_of_wait_error (ok a) h = refl
soft_of_wait_error (raised (connection_error text)) h = refl
soft_of_wait_error (raised (timeout_error text)) h = refl
soft_of_wait_error (raised e) h = ground (arith, h e refl)

pub wait_property_soft :
    (device name : String) (timeout : ℕ) (after : ℤ) (w : World)
    → is_soft_outcome (wait_property device name timeout after w).0 ≡ true
wait_property_soft device name timeout after w =
    soft_of_wait_error _ (wait_property_lem device name timeout after w).2
