-- ===== src/Mount.antt =====
-- onstep_adapter/mount.py: `OnStepMount`, the mount on the shared serial connection; its state, its
-- errors (with onstep_adapter/safety.py), and the calls on the connection. Angles are in µdeg, and
-- an hour angle or a right ascension is the angle that it is. Not modelled: the file of the last
-- state, the log, and of an error the numbers and the hint that it repeats.
pub mod Authority
pub mod Readiness
pub mod State
pub mod Preflight
pub mod Target
pub mod Runtime
pub mod Routes
pub mod Parking
pub mod Verdict
pub mod Gate
pub mod Slew
pub mod Clock
pub mod Ends
pub mod Stopped
pub mod Trust
pub mod Unpark
use on_step_adapter.Base.{
  ◌≡◌, refl, ap, sym, ◌∙◌, ◌⊎◌, inl, inr, arith, ℕ, ◌+◌, Bool, true, false, ◌||◌, Option, none,
  some, List, [], ◌∷◌, String,
}
use on_step_adapter.Base.Int.{ℤ}
use on_step_adapter.Base.Text.{Text, str_eq}
use on_step_adapter.Outcome.{Exc, Outcome, ok, raised}
use on_step_adapter.Gu.{Side}
use on_step_adapter.Serial.Status.{OnstepStatus}
use on_step_adapter.Bus.{Bus, send, send_fixed, write_no_reply, write_bypass}

pub data SafetySeverity : Type 0 where
  blocked limit_hit unknown : SafetySeverity

pub record SafetyViolation : Type 0 where
  pub reason : String
  pub command : String
  pub severity : SafetySeverity

-- OnStepSafetyError, its subclass OnStepLimitError, and any other exception; `out_of_fuel` is
-- none of the program, but a loop of the model that was given too little fuel.
pub data Fault : Type 0 where
  safety_error limit_error : SafetyViolation → Fault
  failed : Exc → Fault
  out_of_fuel : Fault

pub record OverheadCorridor : Type 0 where
  pub az_center_deg : ℤ
  pub az_half_width_deg : ℤ
  pub corridor_max_alt_deg : ℤ

pub record OnStepSafetyConfig : Type 0 where
  pub observer_lat : ℤ
  pub observer_lon : ℤ
  pub min_alt_deg : ℤ
  pub max_alt_deg : ℤ
  pub ha_east_limit : ℤ
  pub ha_west_limit : ℤ
  pub dec_min_deg : ℤ
  pub dec_max_deg : ℤ
  pub meridian_margin_deg : ℤ
  pub has_horizon_path : Bool
  pub require_home_confirmation : Bool
  pub require_onstep_limits : Bool
  pub allow_broad_onstep_limits : Bool
  -- whether `time_trust_source` is one of the trusted ones, and whether `time_offset_s` is not
  -- small
  pub trusted_time_source : Bool
  pub using_runtime_time : Bool
  pub location_warning_threshold_m : ℕ
  pub mechanical_axis1_min_deg : Option ℤ
  pub mechanical_axis1_max_deg : Option ℤ
  pub mechanical_axis2_min_deg : Option ℤ
  pub mechanical_axis2_max_deg : Option ℤ
  pub home_park_settle_ms : ℕ
  pub safe_overhead_corridors : List OverheadCorridor

-- What the code computes with floats, and how it reads and writes them: the hour angle, altitude
-- and azimuth of a right ascension and a declination at a time, the altitude of the horizon's
-- profile at an azimuth, the distance in metres of two sites, and the parsers, with none for an
-- exception.
pub record Sky : Type 0 where
  pub hour_angle : ℕ → ℤ → ℤ → ℤ
  pub altitude : ℕ → ℤ → ℤ → ℤ
  pub azimuth : ℕ → ℤ → ℤ → ℤ
  pub horizon : Option (ℤ → ℤ)
  pub distance_m : ℤ → ℤ → ℤ → ℤ → ℕ
  pub parse_ra : Text → Option ℤ
  pub parse_dec : Text → Option ℤ
  pub parse_degrees : Text → Option ℤ
  pub number : Text → Option ℤ
  pub format_ra : ℤ → Text
  pub format_dec : ℤ → Text

-- What the last checks of the clocks said; `connect` makes them.
pub record ClockChecks : Type 0 where
  pub system_valid : Bool
  pub onstep_warning : Bool
  pub onstep_available : Bool
  pub fresh_boot : Bool
  pub sidereal_ok : Bool
  pub sidereal_reason : Option String

pub record Mount : Type 0 where
  pub bus : Bus
  pub horizon_deg : Option ℤ
  pub overhead_deg : Option ℤ
  pub clocks : ClockChecks
  pub safety_lock : Option SafetyViolation
  pub home_confirmed : Bool
  pub park_pose_confirmed : Bool
  pub trust_invalidations : List String
  pub last_status : Text
  pub last_decoded_status : Option OnstepStatus
  pub at_mechanical_home : Bool
  pub mechanical_axis_position : Option (ℤ × ℤ)
  pub initial_pier_side : Option Side
  pub postflip_pier_side : Option Side
  pub flip_completed : Bool
  pub tracking_explicitly_requested : Bool
  pub suppress_unrequested_tracking_guard : Bool

pub data Ending (A : Type 0) : Type 0 where
  returned : A → Ending A
  threw : Fault → Ending A

abbrev pub M : Type 0 → Type 0
M A = Mount → Ending A × Mount

infixl 5 ◌>>=◌ ◌>>◌
abbrev pub ◌>>=◌ : {A B : Type 0} → M A → (A → M B) → M B
◌>>=◌ m f s = let (r, s') = m s in elim r [ returned a ↦ f a s' | threw e ↦ (threw e, s') ]

abbrev pub ◌>>◌ : {A B : Type 0} → M A → M B → M B
m >> k = m >>= λ _. k

abbrev pub return : {A : Type 0} → A → M A
return a s = (returned a, s)

abbrev pub raise : {A : Type 0} → Fault → M A
raise e s = (threw e, s)

abbrev pub gets : {A : Type 0} → (Mount → A) → M A
gets f s = (returned (f s), s)

abbrev pub modify : (Mount → Mount) → M (Unit {0})
modify f s = (returned tt, f s)

pub Run-cases :
    {A : Type 0} (r : Ending A × Mount)
    → ((a : A) × (t : Mount) × (r ≡ (returned a, t)))
      ⊎ ((e : Fault) × (t : Mount) × (r ≡ (threw e, t)))
Run-cases (returned a, t) = inl (a, t, refl)
Run-cases (threw e, t) = inr (e, t, refl)

-- One step of a chain, by what its first part ends with.
pub >>=-returned :
    {A B : Type 0} (x : M A) (f : A → M B) (s : Mount) {a : A} {t : Mount}
    → x s ≡ (returned a, t)
    → (x >>= f) s ≡ f a t
>>=-returned x f s e = ap (λ r. elim r.0 [ returned a ↦ f a r.1 | threw e ↦ (threw e, r.1) ]) e

pub >>=-threw :
    {A B : Type 0} (x : M A) (f : A → M B) (s : Mount) {e : Fault} {t : Mount}
    → x s ≡ (threw e, t)
    → (x >>= f) s ≡ (threw e, t)
>>=-threw x f s e = ap (λ r. elim r.0 [ returned a ↦ f a r.1 | threw e ↦ (threw e, r.1) ]) e

-- The two parts of a chain that returned.
pub >>-parts :
    {B : Type 0} (x : M (Unit {0})) (k : M B) (s : Mount) {b : B} {u : Mount}
    → (x >> k) s ≡ (returned b, u)
    → (t : Mount) × (x s ≡ (returned tt, t)) × (k t ≡ (returned b, u))
>>-parts x k s h = elim (Run-cases (x s)) [
  | inl (v, t, e) ↦ (t, e, sym (>>=-returned x (λ _. k) s e) ∙ h)
  | inr (f, t, e) ↦ absurd (ground (arith, >>=-threw x (λ _. k) s e))
]

pub >>=-parts :
    {A B : Type 0} (x : M A) (f : A → M B) (s : Mount) {b : B} {u : Mount}
    → (x >>= f) s ≡ (returned b, u)
    → (a : A) × (t : Mount) × (x s ≡ (returned a, t)) × (f a t ≡ (returned b, u))
>>=-parts x f s h = elim (Run-cases (x s)) [
  | inl (a, t, e) ↦ (a, t, e, sym (>>=-returned x f s e) ∙ h)
  | inr (e', t, e) ↦ absurd (ground (arith, >>=-threw x f s e))
]

-- `try: …; except Exception`, as a value
abbrev pub attempt : {A : Type 0} → M A → M (Option A)
attempt m s =
    let (r, s') = m s in
    elim r [ returned a ↦ (returned (some a), s') | threw e ↦ (returned none, s') ]

abbrev lifted : {A : Type 0} → Outcome A → Ending A
lifted (ok a) = returned a
lifted (raised e) = threw (failed e)

-- A call on the connection.
abbrev on_bus : {A : Type 0} → (Bus → Outcome A × Bus) → M A
on_bus call m = let (r, b) = call m.bus in (lifted r, record m { bus = b })

unfoldable pub send_text : Text → M Text
send_text cmd = on_bus (send cmd)

unfoldable pub fixed_reply : Text → ℕ → M Text
fixed_reply cmd size = on_bus (send_fixed cmd size)

unfoldable pub no_reply : Text → M (Unit {0})
no_reply cmd = on_bus (write_no_reply cmd)

unfoldable pub bypass_lock : Text → Mount → Mount
bypass_lock cmd m = record m { bus = write_bypass cmd m.bus }

-- `time.sleep`
abbrev pub slept : ℕ → Mount → Mount
slept ms m = record m { bus = record m.bus { now = m.bus.now + ms } }

abbrev pub is_clock_reason : String → Bool
is_clock_reason r = str_eq r "system_clock_invalid" || str_eq r "onstep_clock_invalid"

-- A flag of `_last_decoded_status`, false while there is none.
abbrev pub decoded : (OnstepStatus → Bool) → Mount → Bool
decoded flag m = elim m.last_decoded_status [ none ↦ false | some s ↦ flag s ]
