-- ===== src/Guiding.antt =====
-- onstep_adapter/indi_guiding.py: bounded guide pulses. Durations are in milliseconds.
-- Rates and offsets of a correction are in millionths of an arcsecond (per second).
pub mod Chunks
pub mod Pulse
pub mod Completion
pub mod Correction
use on_step_adapter.Base.{
  ℕ, zero, suc, ◌+◌, ◌-◌, ◌*◌, ◌/◌, ◌%◌, Bool, true, false, ◌&&◌, ◌||◌, not, Option, none, some,
  List, [], ◌∷◌, String, ltb, leb, ◌==◌, if◌then◌else◌,
}
use on_step_adapter.Base.Int.{ℤ, pos, negsuc, abs, ltb_ℤ, leb_ℤ}
use on_step_adapter.Base.Text.{str_eq}
use on_step_adapter.Outcome.{
  Exc, Outcome, ok, raised, raise_if, ◌>>=◌, ◌>>◌, value_error, is_caught, runtime_error,
  timeout_error, out_of_fuel,
}
use on_step_adapter.Policy.{Real, finite, non_finite}
use on_step_adapter.Snapshot.{Blocker, IndiMountSnapshot, mechanical_terminal_state}
use on_step_adapter.Meridian.{
  Phase, flip_required_phase, hard_stop, firmware_limit, IndiMeridianState,
}
use on_step_adapter.Tracking.{AuthorityPolicy, is_strict, is_hard, is_authority, is_allowed}
use on_step_adapter.Watch.{meets}

pub data GuideAxis : Type 0 where
  ra dec : GuideAxis

pub data GuideDirection : Type 0 where
  north south east west : GuideDirection

abbrev pub min_guide_pulse_ms : ℕ
min_guide_pulse_ms = 20

abbrev pub max_guide_pulse_ms : ℕ
max_guide_pulse_ms = 5000

abbrev guide_chunk_ms : ℕ
guide_chunk_ms = 500

-- `_GUIDE_PROPERTIES`
unfoldable pub guide_property : GuideDirection → String × String
guide_property north = ("TELESCOPE_TIMED_GUIDE_NS", "TIMED_GUIDE_N")
guide_property south = ("TELESCOPE_TIMED_GUIDE_NS", "TIMED_GUIDE_S")
guide_property east = ("TELESCOPE_TIMED_GUIDE_WE", "TIMED_GUIDE_E")
guide_property west = ("TELESCOPE_TIMED_GUIDE_WE", "TIMED_GUIDE_W")

-- `_DIRECTION_ALIASES`, looked up with a name that is stripped and in lower case already.
unfoldable pub normalize_direction : String → Outcome GuideDirection
normalize_direction name =
    if str_eq name "n" || str_eq name "north"
    then ok north
    else if str_eq name "s" || str_eq name "south"
    then ok south
    else if str_eq name "e" || str_eq name "east"
    then ok east
    else if str_eq name "w" || str_eq name "west"
    then ok west
    else raised (value_error "Guide direction must be north, south, east or west")

-- `_AUTHORITY_BLOCKERS` of this module: those of tracking without the mechanical terminal state.
abbrev is_guide_authority : Blocker → Bool
is_guide_authority mechanical_terminal_state = false
is_guide_authority b = is_authority b

-- `_STRICT_ALLOWED_PHASES`
abbrev is_guide_phase : Phase → Bool
is_guide_phase flip_required_phase = true
is_guide_phase p = is_allowed p

abbrev is_refused_phase : Phase → Bool
is_refused_phase hard_stop = true
is_refused_phase firmware_limit = true
is_refused_phase _ = false

-- Why `_preflight` refuses; its order decides between several reasons.
pub data Refusal : Type 0 where
  inputs_unavailable not_tracking meridian_phase no_authority : Refusal

unfoldable pub preflight : AuthorityPolicy → IndiMountSnapshot → IndiMeridianState → Option Refusal
preflight policy s m =
    if meets is_hard s || not s.status_live
    then some inputs_unavailable
    else if not s.tracking || s.parked || s.at_home || s.slewing || s.at_limit
    then some not_tracking
    else if m.tracking_stop_required || is_refused_phase m.phase
    then some meridian_phase
    else if is_strict policy
        && (meets is_guide_authority s
            || not s.coordinates_live
            || not s.time_site_authority
            || not s.home_authority
            || not (is_guide_phase m.phase))
    then some no_authority
    else none

-- The loop that splits a pulse. It ends since each chunk is at least one millisecond; the fuel is
-- the duration.
unfoldable pub split : ℕ → ℕ → ℕ → List ℕ
split zero chunk_ms remaining = remaining ∷ []
split (suc fuel) chunk_ms remaining = elim (ltb chunk_ms remaining) [
  | false ↦ remaining ∷ []
  | true ↦
      let chunk =
        if ltb (remaining - chunk_ms) min_guide_pulse_ms
        then remaining - min_guide_pulse_ms
        else chunk_ms in
      chunk ∷ split fuel chunk_ms (remaining - chunk)
]

unfoldable pub chunks_of : ℕ → ℕ → List ℕ
chunks_of chunk_ms duration = split duration chunk_ms duration

-- The guard of the constructor, and that of `pulse` on the duration.
abbrev pub is_pulse_length : ℕ → Bool
is_pulse_length ms = leb min_guide_pulse_ms ms && leb ms max_guide_pulse_ms
