-- ===== src/Mock/Arrival.antt =====
-- A slew of the virtual mount to HOME ends there.
use on_step_adapter.Base.{
  true, false, some, refl, Bool-cases, inl, inr, if◌then◌else◌, max, zero, ℕ, ◌≤◌, ◌≡◌, ◌-◌, ◌+◌,
  ◌*◌, ◌/◌, suc, min, arith,
}
use on_step_adapter.Base.Int.{
  ℤ, pos, negsuc, ◌+ℤ◌, ◌-ℤ◌, abs, mod_ℤ, int_laws, pos_part, neg_part, ◌≤ℤ◌, ◌<ℤ◌,
}
use on_step_adapter.Mock.{VirtualMount, Pose, idle, slewing, home, is_guiding}
use on_step_adapter.Mock.Ticks.{
  Rates, wrap_hours, toward, goal, land, approach, is_there, step_goto, drift, advance, tick,
}

-- Two angles that differ by whole turns.
abbrev Turned : ℤ → ℤ → Type 0
Turned a b =
    (i : ℕ) × (j : ℕ) × (pos_part a + neg_part b + 360000000 * j
      ≡ pos_part b + neg_part a + 360000000 * i)

mod_ℤ-Turned : (a : ℤ) → Turned a (pos (mod_ℤ a 360000000))
unfolding mod_ℤ
mod_ℤ-Turned (pos n) = (n / 360000000, 0, omega arith)
mod_ℤ-Turned (negsuc n) = (0, suc (n / 360000000), omega arith)

wrap_hours-Turned : (a : ℤ) → Turned a (wrap_hours a)
unfolding wrap_hours
wrap_hours-Turned a =
    let (i, j, h) = mod_ℤ-Turned (a +ℤ pos 180000000) in (i, j, omega (int_laws, h))

wrap_low : (a : ℤ) → negsuc 179999999 ≤ℤ wrap_hours a
unfolding wrap_hours mod_ℤ ◌+ℤ◌ ◌-ℤ◌
wrap_low a = ground arith

wrap_high : (a : ℤ) → wrap_hours a <ℤ pos 180000000
unfolding wrap_hours mod_ℤ ◌+ℤ◌ ◌-ℤ◌
wrap_high a = ground arith

wrap_unique : (a b : ℤ) → Turned a b → negsuc 179999999 ≤ℤ b → b <ℤ pos 180000000 → wrap_hours a ≡ b
wrap_unique a b (i, j, h) low high =
    let (k, l, e) = wrap_hours-Turned a in
    omega (int_laws, wrap_low a, wrap_high a, low, high, h, e)

toward_left : (s : ℕ) (e : ℤ) → abs (e -ℤ toward s e) ≡ abs e - min s (abs e)
unfolding toward ◌-ℤ◌
toward_left s (pos n) = ground arith
toward_left s (negsuc n) = ground arith

toward_low : (s : ℕ) (e : ℤ) → negsuc 179999999 ≤ℤ e → negsuc 179999999 ≤ℤ (e -ℤ toward s e)
unfolding toward ◌-ℤ◌
toward_low s (pos n) h = ground arith
toward_low s (negsuc n) h = ground arith

toward_high : (s : ℕ) (e : ℤ) → e <ℤ pos 180000000 → (e -ℤ toward s e) <ℤ pos 180000000
unfolding toward ◌-ℤ◌
toward_high s (pos n) h = ground arith
toward_high s (negsuc n) h = ground arith

-- The hour angle that is left after a step.
wrap_step :
    (g h : ℤ) (s : ℕ)
    → wrap_hours (g -ℤ wrap_hours (h +ℤ toward s (wrap_hours (g -ℤ h))))
      ≡ wrap_hours (g -ℤ h) -ℤ toward s (wrap_hours (g -ℤ h))
wrap_step g h s =
    let e = wrap_hours (g -ℤ h) in
    let t = toward s e in
    let (i, j, p) = wrap_hours-Turned (g -ℤ h) in
    let (k, l, q) = wrap_hours-Turned (h +ℤ t) in
    wrap_unique (g -ℤ wrap_hours (h +ℤ t)) (e -ℤ t) (i + k, j + l, omega (int_laws, p, q))
      (toward_low s e (wrap_low (g -ℤ h))) (toward_high s e (wrap_high (g -ℤ h)))

dec_step : (g d : ℤ) (s : ℕ) → g -ℤ (d +ℤ toward s (g -ℤ d)) ≡ (g -ℤ d) -ℤ toward s (g -ℤ d)
dec_step g d s = omega int_laws

-- How far the axes are from a pose.
unfoldable pub distance : Pose → VirtualMount → ℕ
distance pose m = max (abs (wrap_hours (pose.ha_h -ℤ m.ha_h))) (abs (pose.dec_deg -ℤ m.dec_deg))

distance-approach :
    (pose : Pose) (s : ℕ) (m : VirtualMount)
    → distance pose (approach pose s m) ≡ distance pose m - s
unfolding distance approach
distance-approach pose s m =
    let e = wrap_hours (pose.ha_h -ℤ m.ha_h) in
    let d = pose.dec_deg -ℤ m.dec_deg in
    rw
      (
        wrap_step pose.ha_h m.ha_h s,
        dec_step pose.dec_deg m.dec_deg s,
        toward_left s e,
        toward_left s d,
      )
      (omega arith)

there_at_zero : (pose : Pose) (m : VirtualMount) → distance pose m ≡ 0 → is_there pose m ≡ true
unfolding distance is_there
there_at_zero pose m h = ground arith

-- Ticks every dt milliseconds.
unfoldable pub run_ticks : Rates → ℕ → ℕ → ℕ → VirtualMount → VirtualMount
run_ticks r dt zero now m = m
run_ticks r dt (suc n) now m = run_ticks r dt n (now + dt) (tick r now m).1

-- A slew to HOME with nothing else going on.
pub record IsHoming (now : ℕ) (m : VirtualMount) : Type 0 where
  pub slews : m.motion ≡ slewing
  pub aims : m.target_kind ≡ some home
  pub untracked : m.tracking ≡ false
  pub unguided : m.guiding_until ≤ now

pub record IsAtHome (m : VirtualMount) : Type 0 where
  pub rests : m.motion ≡ idle
  pub reports : m.at_home ≡ true
  pub ha : m.ha_h ≡ m.config.home_pose.ha_h
  pub dec : m.dec_deg ≡ m.config.home_pose.dec_deg
  pub side : m.pier_side ≡ m.config.home_pose.pier_side

undrifted :
    (r : Rates) (now : ℕ) (m : VirtualMount)
    → m.tracking ≡ false
    → m.guiding_until ≤ now
    → drift r now m ≡ m
unfolding drift is_guiding
undrifted r now m t g = ground (arith, t, g)

-- The step of a slew to HOME.
abbrev homed : Rates → ℕ → VirtualMount → VirtualMount
homed r now m =
    let pose = m.config.home_pose in
    let moved = approach pose r.slewing m in
    if is_there pose moved then land pose now moved else moved

homing_tick :
    (r : Rates) (now : ℕ) (m : VirtualMount) → IsHoming now m → (tick r now m).1 ≡ homed r now m
unfolding tick advance step_goto goal
homing_tick r now m s =
    let pose = m.config.home_pose in
    let moved = approach pose r.slewing m in
    rw (undrifted r now m s.untracked s.unguided) (elim (Bool-cases (is_there pose moved)) [
      | inl y ↦ ground (arith, s, y)
      | inr y ↦ ground (arith, s, y)
    ])

resting_tick :
    (r : Rates) (now : ℕ) (m : VirtualMount)
    → m.motion ≡ idle
    → m.tracking ≡ false
    → m.guiding_until ≤ now
    → (tick r now m).1 ≡ m
unfolding tick advance
resting_tick r now m i t g = rw (undrifted r now m t g) (ground (arith, i))

approach-IsHoming :
    (r : Rates) (now later : ℕ) (m : VirtualMount)
    → IsHoming now m
    → now ≤ later
    → IsHoming later (approach m.config.home_pose r.slewing m)
unfolding approach
approach-IsHoming r now later m s h = record {
  slews = s.slews;
  aims = s.aims;
  untracked = s.untracked;
  unguided = ground (arith, s.unguided);
}

land-IsAtHome :
    (r : Rates) (now : ℕ) (m : VirtualMount)
    → IsHoming now m
    → IsAtHome (land m.config.home_pose now (approach m.config.home_pose r.slewing m))
unfolding approach land
land-IsAtHome r now m s = ground (arith, s)

landed_quiet :
    (r : Rates) (now : ℕ) (m : VirtualMount)
    → IsHoming now m
    → ((land m.config.home_pose now (approach m.config.home_pose r.slewing m)).tracking ≡ false)
      × ((land m.config.home_pose now (approach m.config.home_pose r.slewing m)).guiding_until
          ≤ now)
unfolding approach land
landed_quiet r now m s = ground (arith, s)

resting_ticks :
    (r : Rates) (dt n now : ℕ) (m : VirtualMount)
    → m.motion ≡ idle
    → m.tracking ≡ false
    → m.guiding_until ≤ now
    → run_ticks r dt n now m ≡ m
unfolding run_ticks
resting_ticks r dt zero now m i t g = refl
resting_ticks r dt (suc n) now m i t g =
    rw (resting_tick r now m i t g) (resting_ticks r dt n (now + dt) m i t (omega (arith, g)))

-- A mount that has landed at HOME stays there.
landed_stays :
    (r : Rates) (dt n now later : ℕ) (m : VirtualMount)
    → IsHoming now m
    → now ≤ later
    → IsAtHome (
        run_ticks r dt n later
          (land m.config.home_pose now (approach m.config.home_pose r.slewing m)))
landed_stays r dt n now later m s h =
    let there = land-IsAtHome r now m s in
    let (untracked, unguided) = landed_quiet r now m s in
    rw
      (resting_ticks r dt n later
        (land m.config.home_pose now (approach m.config.home_pose r.slewing m)) there.rests
        untracked (omega (arith, unguided, h)))
      there

moved_near :
    (r : Rates) (n : ℕ) (m : VirtualMount)
    → distance m.config.home_pose m ≤ suc n * r.slewing
    → distance m.config.home_pose (approach m.config.home_pose r.slewing m) ≤ n * r.slewing
moved_near r n m near = rw (distance-approach m.config.home_pose r.slewing m) (grind (arith, near))

moved_nearer :
    (r : Rates) (n : ℕ) (m : VirtualMount)
    → distance m.config.home_pose m ≤ suc n * r.slewing
    → distance
        (approach m.config.home_pose r.slewing m).config.home_pose
        (approach m.config.home_pose r.slewing m)
      ≤ n * r.slewing
unfolding approach
moved_nearer r n m near = moved_near r n m near

-- A slew to HOME of a mount that neither tracks nor guides has arrived after as many ticks as the
-- longer way of the two axes has steps of the slew, and the mount stays there: it is idle, reports
-- HOME and has exactly the pose of HOME, however often the clock ticks on.
pub home_in_time :
    (r : Rates) (dt n now : ℕ) (m : VirtualMount)
    → IsHoming now m
    → distance m.config.home_pose m ≤ suc n * r.slewing
    → IsAtHome (run_ticks r dt (suc n) now m)
unfolding run_ticks
home_in_time r dt zero now m s near =
    let moved = approach m.config.home_pose r.slewing m in
    let there : is_there m.config.home_pose moved ≡ true =
      there_at_zero m.config.home_pose moved (omega (arith, moved_near r zero m near)) in
    rw (homing_tick r now m s, there) (land-IsAtHome r now m s)
home_in_time r dt (suc n) now m s near =
    let moved = approach m.config.home_pose r.slewing m in
    rw (homing_tick r now m s) (elim (Bool-cases (is_there m.config.home_pose moved)) [
      | inl y ↦ rw y (landed_stays r dt (suc n) now (now + dt) m s (omega arith))
      | inr y ↦ rw y (
          home_in_time r dt n (now + dt) moved
            (approach-IsHoming r now (now + dt) m s (omega arith)) (moved_nearer r (suc n) m near))
    ])
