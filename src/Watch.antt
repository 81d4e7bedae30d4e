-- ===== src/Watch.antt =====
-- What the tracking and guiding routines are given: the callbacks `observe`, `meridian_status` and
-- `emergency_stop`, and the sleep of the thread while others run.
use on_step_adapter.Base.{
  ℕ, suc, ◌≡◌, if◌then◌else◌, Bool-cases, inl, inr, ◌+◌, ◌≤◌, Bool, true, false, any, arith,
}
use on_step_adapter.Base.Int.{ℤ, ◌≤ℤ◌, ◌<ℤ◌, leb_ℤ, int_laws}
use on_step_adapter.Outcome.{ok}
use on_step_adapter.Snapshot.{IndiMountSnapshot, Blocker}
use on_step_adapter.Meridian.{IndiMeridianState}
use on_step_adapter.Transport.{World, Io, pass}
use on_step_adapter.Transport.Waiting.{SameWire, now-pass, pass-SameWire}

pub record Watch : Type 0 where
  pub observe : Io IndiMountSnapshot
  pub meridian_status : Io IndiMeridianState
  pub emergency_stop : Io (Unit {0})

-- `time.sleep`
unfoldable pub sleep : ℕ → World → World
sleep = pass

-- A number of observations in a row that are good, each with a newer status than the one before it,
-- the first newer than `low`; behind them the revision of the last one.
pub data Streak (observe : Io IndiMountSnapshot) (good : IndiMountSnapshot → Bool) (low : ℤ)
    : ℕ → ℤ → Type 0 where
  no_streak : (revision : ℤ) → low ≤ℤ revision → Streak observe good low 0 revision
  longer :
      {n : ℕ} {revision : ℤ} (w : World) (s : IndiMountSnapshot)
      → Streak observe good low n revision
      → (observe w).0 ≡ ok s
      → good s ≡ true
      → revision <ℤ s.status_revision
      → Streak observe good low (suc n) s.status_revision

not_leb→< : (a b : ℤ) → leb_ℤ a b ≡ false → b <ℤ a
not_leb→< a b h = ground arith

-- A streak that ends, or goes on, with an observation that is newer.
pub Streak-step :
    (observe : Io IndiMountSnapshot) (good : IndiMountSnapshot → Bool) (low revision : ℤ) (n : ℕ)
    (w : World) (s : IndiMountSnapshot)
    → Streak observe good low n revision
    → low ≤ℤ revision
    → (observe w).0 ≡ ok s
    → leb_ℤ s.status_revision revision ≡ false
    → Streak observe good low (if good s then suc n else 0) s.status_revision
      × (low ≤ℤ s.status_revision)
Streak-step observe good low revision n w s k over seen fresh =
    let newer : revision <ℤ s.status_revision = not_leb→< s.status_revision revision fresh in
    let still : low ≤ℤ s.status_revision = omega (int_laws, over, newer) in
    elim (Bool-cases (good s)) [
      | inl e ↦ (rw e (longer w s k seen e newer), still)
      | inr e ↦ (rw e (no_streak s.status_revision still), still)
    ]

-- `names.intersection(snapshot.blockers)`, as a condition
abbrev pub meets : (Blocker → Bool) → IndiMountSnapshot → Bool
meets names s = any names s.blockers

-- A sleep lasts as long as it is asked to, and sends nothing.
sleep_lem : (d : ℕ) (w : World) → (w.now + d ≤ (sleep d w).now) × SameWire w (sleep d w)
unfolding sleep
sleep_lem d w = (ground (arith, now-pass d w), pass-SameWire d w)
