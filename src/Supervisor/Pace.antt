-- ===== src/Supervisor/Pace.antt =====
-- When the supervisor stops the mount.
use on_step_adapter.Base.{◌+◌, ◌≤◌, ◌<◌, ◌≡◌, ◌⊎◌, inl, inr, true, arith, leb, Bool-cases}
use on_step_adapter.Outcome.{ok, Outcome-cases}
use on_step_adapter.Snapshot.{IndiMountSnapshot}
use on_step_adapter.Policy.{MeridianPolicy}
use on_step_adapter.Meridian.{IndiMeridianState, classify_meridian}
use on_step_adapter.Stop.{IndiStopResult}
use on_step_adapter.Transport.{World, Io}
use on_step_adapter.Supervisor.{Supervisor, notify, act, tick, run_once}

module _ (observe : Io IndiMountSnapshot) (policy : MeridianPolicy)
    (on_transition : IndiMeridianState → Io (Unit {0})) (stop : Io IndiStopResult) where
  notify_last_stop :
      (m : IndiMeridianState) (s : Supervisor) (w : World)
      → (notify observe policy on_transition stop m s w).1.last_stop_at ≡ s.last_stop_at
  unfolding notify
  notify_last_stop m s w = ground arith

  act-paced :
      (m : IndiMeridianState) (s : Supervisor) (w : World)
      → let s' = (act observe policy on_transition stop m s w).1 in
        (s'.last_stop_at ≡ s.last_stop_at) ⊎ (s.last_stop_at + 3000 ≤ s'.last_stop_at)
  unfolding act
  act-paced m s w = elim (Outcome-cases (stop w).0) [
    | inl (r, q) ↦ ground arith
    | inr (e, q) ↦ ground arith
  ]

  tick-paced :
      (s : Supervisor) (w : World)
      → let s' = (tick observe policy on_transition stop s w).1 in
        (s'.last_stop_at ≡ s.last_stop_at) ⊎ (s.last_stop_at + 3000 ≤ s'.last_stop_at)
  unfolding tick
  tick-paced s w = elim (Outcome-cases (observe w).0) [
    | inr (e, q) ↦ inl (ground arith)
    | inl (view, q) ↦
        let m = classify_meridian view policy in
        let noted = notify observe policy on_transition stop m s (observe w).1 in
        ground (arith, notify_last_stop m s (observe w).1, act-paced m noted.1 noted.2)
  ]

  -- A round of the supervisor either leaves the time of the last stop as it was, or sets it to a
  -- time at least three seconds later, whatever the callbacks do, exceptions of the stop
  -- included.
  run_once-paced :
      (s : Supervisor) (w : World)
      → let s' = (run_once observe policy on_transition stop s w).1 in
        (s'.last_stop_at ≡ s.last_stop_at) ⊎ (s.last_stop_at + 3000 ≤ s'.last_stop_at)
  unfolding run_once
  run_once-paced s w = elim (Outcome-cases (tick observe policy on_transition stop s w).0) [
    | inr (e, q) ↦ ground (arith, tick-paced s w)
    | inl (m, q) ↦ ground (arith, tick-paced s w)
  ]

  -- From the fields `s` and the world `v`: a stop that is called, and its time noted, or one that
  -- has to wait.
  abbrev pub IsPaced : Supervisor → World → Supervisor → World → Type 0
  IsPaced s v s' v' =
      ((s.last_stop_at + 3000 ≤ v.now) × (s'.last_stop_at ≡ v.now) × (v' ≡ (stop v).1))
      ⊎ ((v.now < s.last_stop_at + 3000) × (s'.last_stop_at ≡ s.last_stop_at) × (v' ≡ v))

  -- A tick that finds a stop required, with a transition callback that returns, calls the stop
  -- and notes the time, when three seconds or more have passed since the time that is noted;
  -- before that it does not call it, and keeps the time. What the stop does to the world is what
  -- the tick leaves.
  pub tick_prompt :
      (s : Supervisor) (w : World) (view : IndiMountSnapshot)
      → (observe w).0 ≡ ok view
      → (classify_meridian view policy).tracking_stop_required ≡ true
      → (notify observe policy on_transition stop (classify_meridian view policy) s (observe w).1).0
        ≡ ok tt
      → IsPaced s
          (notify observe policy on_transition stop
            (classify_meridian view policy)
            s
            (observe w).1).2
          (tick observe policy on_transition stop s w).1
          (tick observe policy on_transition stop s w).2
  unfolding tick act
  tick_prompt s w view q need told =
      let m = classify_meridian view policy in
      let noted = notify observe policy on_transition stop m s (observe w).1 in
      let kept = notify_last_stop m s (observe w).1 in
      elim (Bool-cases (leb (s.last_stop_at + 3000) noted.2.now)) [
        | inr early ↦ inr (ground arith, ground (arith, kept), ground (arith, kept))
        | inl late ↦ elim (Outcome-cases (stop noted.2).0) [
          | inl (r, z) ↦ inl (ground arith, ground (arith, kept), ground (arith, kept))
          | inr (e, z) ↦ inl (ground arith, ground (arith, kept), ground (arith, kept))
        ]
      ]
