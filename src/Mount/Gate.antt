-- ===== src/Mount/Gate.antt =====
-- onstep_adapter/mount.py: what a goto that the controller was given has passed.
use on_step_adapter.Base.{
  true, false, not, Option, none, some, List, ◌≡◌, refl, arith, inl, inr, String, sym, ap,
  Option-cases, ◌∙◌,
}
use mathlib.Core.Path.{subst}
use on_step_adapter.Base.Int.{ℤ, ◌+ℤ◌, ◌-ℤ◌, ◌≤ℤ◌, ◌<ℤ◌, ltb_ℤ, leb_ℤ, int_laws}
use on_step_adapter.Mount.{
  Mount, OnStepSafetyConfig, Sky, returned, M, ◌>>◌, >>-parts, >>=-parts, return,
}
use on_step_adapter.Mount.Authority.{raise_if_locked}
use on_step_adapter.Mount.Readiness.{raise_if_not_astronomy_ready}
use on_step_adapter.Mount.Preflight.{
  Preflight, Blocker, Sample, judge_sample, conditions_of, blockers_of, no_blockers, is_trusted,
  is_unknown, is_slewing, motion_safety_preflight, take_sample,
}
use on_step_adapter.Mount.Verdict.{no_blockers-blockers_of, no_blockers→safe}
use on_step_adapter.Gu.{Side}
use on_step_adapter.Mount.Target.{
  check_limits, check_target_safe, check_here, effective_min_altitude, effective_max_altitude_at,
  smart_max_altitude_at, max_with, min_with, profile_at, require_home, preflight_if,
  require_preflight,
}

abbrev AtLeast : Option ℤ → ℤ → Type 0
AtLeast none x = Unit {0}
AtLeast (some y) x = y ≤ℤ x

abbrev AtMost : Option ℤ → ℤ → Type 0
AtMost none x = Unit {0}
AtMost (some y) x = x ≤ℤ y

-- A target within every limit, each of its own: those of the configuration, the horizon's profile,
-- and those read from the controller; the margin keeps it from the limits of altitude.
pub record IsWithin (sky : Sky) (c : OnStepSafetyConfig) (m : Mount) (margin dec ha alt az : ℤ)
    : Type 0 where
  pub over_dec_min : c.dec_min_deg ≤ℤ dec
  pub under_dec_max : dec ≤ℤ c.dec_max_deg
  pub west_of_east_limit : c.ha_east_limit ≤ℤ ha
  pub east_of_west_limit : ha <ℤ c.ha_west_limit
  pub over_configured : c.min_alt_deg ≤ℤ (alt -ℤ margin)
  pub over_horizon : AtLeast m.horizon_deg (alt -ℤ margin)
  pub over_profile : AtLeast (profile_at sky.horizon az) (alt -ℤ margin)
  pub under_corridor :
      (alt +ℤ margin) ≤ℤ smart_max_altitude_at c.max_alt_deg c.safe_overhead_corridors az
  pub under_overhead : AtMost m.overhead_deg (alt +ℤ margin)

max_with-le : (o : Option ℤ) (x y : ℤ) → max_with o x ≤ℤ y → (x ≤ℤ y) × AtLeast o y
max_with-le none x y h = (h, tt)
max_with-le (some z) x y h = ground arith

min_with-le : (o : Option ℤ) (x y : ℤ) → y ≤ℤ min_with o x → (y ≤ℤ x) × AtMost o y
min_with-le none x y h = (h, tt)
min_with-le (some z) x y h = ground arith

not_ltb→≤ : (a b : ℤ) → ltb_ℤ a b ≡ false → b ≤ℤ a
not_ltb→≤ a b h = ground arith

not_leb→< : (a b : ℤ) → leb_ℤ a b ≡ false → b <ℤ a
not_leb→< a b h = ground arith

add_le : (low margin x : ℤ) → low +ℤ margin ≤ℤ x → low ≤ℤ (x -ℤ margin)
add_le low margin x h = omega int_laws

le_sub : (high margin x : ℤ) → x ≤ℤ high -ℤ margin → (x +ℤ margin) ≤ℤ high
le_sub high margin x h = omega int_laws

-- The tests of the six limits.
pub record Passes (sky : Sky) (c : OnStepSafetyConfig) (m : Mount) (margin dec ha alt az : ℤ)
    : Type 0 where
  pub dec_low : ltb_ℤ dec c.dec_min_deg ≡ false
  pub dec_high : ltb_ℤ c.dec_max_deg dec ≡ false
  pub east : ltb_ℤ ha c.ha_east_limit ≡ false
  pub west : leb_ℤ c.ha_west_limit ha ≡ false
  pub low : ltb_ℤ alt (effective_min_altitude sky c m az +ℤ margin) ≡ false
  pub high : ltb_ℤ (effective_max_altitude_at c m az -ℤ margin) alt ≡ false

check_limits-Passes :
    (sky : Sky) (c : OnStepSafetyConfig) (command : String) (margin dec ha alt az : ℤ) (m : Mount)
    {m1 : Mount}
    → check_limits sky c command margin dec ha alt az m ≡ (returned tt, m1)
    → Passes sky c m margin dec ha alt az × (m1 ≡ m)
unfolding check_limits
check_limits-Passes sky c command margin dec ha alt az m h = (ground arith, ground arith)

Passes-IsWithin :
    (sky : Sky) (c : OnStepSafetyConfig) (m : Mount) (margin dec ha alt az : ℤ)
    → Passes sky c m margin dec ha alt az
    → IsWithin sky c m margin dec ha alt az
unfolding effective_min_altitude effective_max_altitude_at
Passes-IsWithin sky c m margin dec ha alt az p =
    let lowest =
      add_le (effective_min_altitude sky c m az) margin alt
        (not_ltb→≤ alt (effective_min_altitude sky c m az +ℤ margin) p.low) in
    let highest =
      le_sub (effective_max_altitude_at c m az) margin alt
        (not_ltb→≤ (effective_max_altitude_at c m az -ℤ margin) alt p.high) in
    let (rest, profile) =
      max_with-le (profile_at sky.horizon az) (max_with m.horizon_deg c.min_alt_deg) (alt -ℤ margin)
        lowest in
    let (base, horizon) = max_with-le m.horizon_deg c.min_alt_deg (alt -ℤ margin) rest in
    let (corridor, overhead) =
      min_with-le m.overhead_deg (smart_max_altitude_at c.max_alt_deg c.safe_overhead_corridors az)
        (alt +ℤ margin) highest in
    record {
      over_dec_min = not_ltb→≤ dec c.dec_min_deg p.dec_low;
      under_dec_max = not_ltb→≤ c.dec_max_deg dec p.dec_high;
      west_of_east_limit = not_ltb→≤ ha c.ha_east_limit p.east;
      east_of_west_limit = not_leb→< c.ha_west_limit ha p.west;
      over_configured = base;
      over_horizon = horizon;
      over_profile = profile;
      under_corridor = corridor;
      under_overhead = overhead;
    }

-- What the sample before a motion has to say.
pub record IsClear (p : Preflight) : Type 0 where
  pub trusts : is_trusted p.authority ≡ true
  pub knows_state : is_unknown p.state ≡ false
  pub not_parked : p.parked ≡ false
  pub not_slewing : is_slewing p.state ≡ false
  pub sides_agree : p.pier_consistent ≡ true
  pub below_hard_limit : p.counterweight.hard_limit_reached ≡ false
  pub is_safe : p.mechanical_safe ≡ true

judge_sample-IsClear :
    (c : OnStepSafetyConfig) (m : Mount) (initial : Option Side) (s : Sample)
    → no_blockers (judge_sample c true m initial s).blockers ≡ true
    → IsClear (judge_sample c true m initial s)
unfolding judge_sample conditions_of
judge_sample-IsClear c m initial s h =
    let k = conditions_of c true m initial s in
    let e = sym (no_blockers-blockers_of k) ∙ h in
    record {
      trusts = ground arith;
      knows_state = ground arith;
      not_parked = ground arith;
      not_slewing = ground arith;
      sides_agree = ground arith;
      below_hard_limit = ground arith;
      is_safe = rw (no_blockers→safe (blockers_of k) h) refl;
    }

-- What a target that may be moved to has passed: the lock and the HOME of the mount as it was; the
-- checks of clock, site and limits, which leave `checked`; the sample that was taken there, which
-- leaves `at`; and the limits in `at`.
pub record IsCleared (sky : Sky) (c : OnStepSafetyConfig) (command : String) (ra dec margin : ℤ)
    (m at : Mount) : Type 0 where
  pub unlocked : m.safety_lock ≡ none
  pub at_reference : m.home_confirmed ≡ true
  pub checked : Mount
  pub is_ready : raise_if_not_astronomy_ready sky c command m ≡ (returned tt, checked)
  pub sample : Preflight
  pub sampled : motion_safety_preflight sky c true checked ≡ (returned sample, at)
  pub clear : IsClear sample
  pub within :
      IsWithin sky c at margin dec
        (sky.hour_angle at.bus.now ra dec)
        (sky.altitude at.bus.now ra dec)
        (sky.azimuth at.bus.now ra dec)

clear_of : (l : List Blocker) → not (no_blockers l) ≡ false → no_blockers l ≡ true
clear_of l h = ground arith

returned-eq :
    {A : Type 0} (a : A) (s : Mount) {b : A} {t : Mount} → return a s ≡ (returned b, t) → a ≡ b
returned-eq a s h = cc

require_home_lem :
    (command : String) (m : Mount) {t : Mount}
    → require_home command m ≡ (returned tt, t)
    → (m.home_confirmed ≡ true) × (t ≡ m)
require_home_lem command m h = (ground arith, ground arith)

judge_sample-IsClear_of_unrefused :
    (c : OnStepSafetyConfig) (m : Mount) (initial : Option Side) (s : Sample)
    → (judge_sample c true m initial s).motion_refused ≡ false
    → IsClear (judge_sample c true m initial s)
unfolding judge_sample
judge_sample-IsClear_of_unrefused c m initial s h =
    judge_sample-IsClear c m initial s (clear_of (judge_sample c true m initial s).blockers h)

require_preflight_lem :
    (command : String) (p : Preflight) (m : Mount) {m1 : Mount}
    → require_preflight command p m ≡ (returned tt, m1)
    → (p.motion_refused ≡ false) × (m1 ≡ m)
unfolding require_preflight
require_preflight_lem command p m h = (ground arith, ground arith)

preflight-IsClear :
    (sky : Sky) (c : OnStepSafetyConfig) (m : Mount) {p : Preflight} {m1 : Mount}
    → motion_safety_preflight sky c true m ≡ (returned p, m1)
    → p.motion_refused ≡ false
    → IsClear p
unfolding motion_safety_preflight
preflight-IsClear sky c m h clear =
    let (t, m2, taken, reported) =
      >>=-parts (take_sample sky c) (λ t. return (judge_sample c true t.0 t.1 t.2)) m h in
    let e = returned-eq (judge_sample c true t.0 t.1 t.2) m2 reported in
    subst IsClear e (
      judge_sample-IsClear_of_unrefused c t.0 t.1 t.2
        (ap (λ (q : Preflight). q.motion_refused) e ∙ clear))

preflight_if-IsClear :
    (sky : Sky) (c : OnStepSafetyConfig) (command : String) (m : Mount) {m1 : Mount}
    → preflight_if sky c true command m ≡ (returned tt, m1)
    → (p : Preflight) × IsClear p × (motion_safety_preflight sky c true m ≡ (returned p, m1))
unfolding preflight_if
preflight_if-IsClear sky c command m h =
    let (p, m2, sampled, judged) =
      >>=-parts (motion_safety_preflight sky c true) (require_preflight command) m h in
    let (free, same) = require_preflight_lem command p m2 judged in
    (p, preflight-IsClear sky c m sampled free, sampled ∙ ap (λ k. (returned p, k)) (sym same))

raise_if_locked_lem :
    (command : String) (m : Mount) {t : Mount}
    → raise_if_locked command false m ≡ (returned tt, t)
    → (m.safety_lock ≡ none) × (m ≡ t)
unfolding raise_if_locked
raise_if_locked_lem command m h = elim (Option-cases m.safety_lock) [
  | inl e ↦ (e, ground arith)
  | inr (v, e) ↦ absurd (ground arith)
]

check_here-IsWithin :
    (sky : Sky) (c : OnStepSafetyConfig) (command : String) (ra dec margin : ℤ) (m : Mount)
    {at : Mount}
    → check_here sky c command ra dec margin m ≡ (returned tt, at)
    → IsWithin sky c at margin dec
        (sky.hour_angle at.bus.now ra dec)
        (sky.altitude at.bus.now ra dec)
        (sky.azimuth at.bus.now ra dec)
      × (at ≡ m)
unfolding check_here
check_here-IsWithin sky c command ra dec margin m h =
    let ha = sky.hour_angle m.bus.now ra dec in
    let alt = sky.altitude m.bus.now ra dec in
    let az = sky.azimuth m.bus.now ra dec in
    let (passed, same) = check_limits-Passes sky c command margin dec ha alt az m h in
    (
      subst
          (λ (k : Mount).
            IsWithin sky c k margin dec (sky.hour_angle k.bus.now ra dec)
              (sky.altitude k.bus.now ra dec) (sky.azimuth k.bus.now ra dec))
          (sym same) (Passes-IsWithin sky c m margin dec ha alt az passed),
      same,
    )

pub check_target_safe-IsCleared :
    (sky : Sky) (c : OnStepSafetyConfig) (command : String) (ra dec margin : ℤ) (m : Mount)
    {at : Mount}
    → check_target_safe sky c command ra dec margin true m ≡ (returned tt, at)
    → IsCleared sky c command ra dec margin m at
unfolding check_target_safe
check_target_safe-IsCleared sky c command ra dec margin m h =
    let last = check_here sky c command ra dec margin in
    let k3 : M (Unit {0}) = preflight_if sky c true command >> last in
    let k2 : M (Unit {0}) = raise_if_not_astronomy_ready sky c command >> k3 in
    let (t1, free, h1) =
      >>-parts (raise_if_locked command false) (require_home command >> k2) m h in
    let (t2, home, h2) = >>-parts (require_home command) k2 t1 h1 in
    let (t3, ready, h3) = >>-parts (raise_if_not_astronomy_ready sky c command) k3 t2 h2 in
    let (t4, sampled, h4) = >>-parts (preflight_if sky c true command) last t3 h3 in
    let (unlocked, same) = raise_if_locked_lem command m free in
    let (home_set, same2) = require_home_lem command t1 home in
    let (p, clear, taken) = preflight_if-IsClear sky c command t3 sampled in
    let (within, last_same) = check_here-IsWithin sky c command ra dec margin t4 h4 in
    let start : t2 ≡ m = same2 ∙ sym same in
    record {
      unlocked = unlocked;
      at_reference = ap (λ (k : Mount). k.home_confirmed) same ∙ home_set;
      checked = t3;
      is_ready = ap (λ k. raise_if_not_astronomy_ready sky c command k) (sym start) ∙ ready;
      sample = p;
      sampled = taken ∙ ap (λ k. (returned p, k)) (sym last_same);
      clear = clear;
      within = within;
    }
