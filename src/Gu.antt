-- ===== src/Gu.antt =====
-- onstep_adapter/indi_gu.py: the compact status text that OnStep returns for `:GU#`.
-- `decode_gu` returns `none` where the code raises ValueError. The regular expression's `\d` is
-- taken on ASCII digits. `local_sidereal_hours` works on the system's date and time, and is a
-- parameter of the code that calls it.
pub mod Format
use on_step_adapter.Base.{
  ℕ, Bool, false, ◌&&◌, ◌||◌, not, Option, none, some, [], ◌∷◌, ◌==◌, if◌then◌else◌,
}
use on_step_adapter.Base.Text.{Text, has, is_letter, is_digit, drop_while, rstrip, strip}

pub data Side : Type 0 where
  east west : Side

-- `unknown` is the reader's word for a status that could not be decoded.
pub data MotionState : Type 0 where
  parked park_failed at_limit slewing tracking home unparked unknown : MotionState

pub record Gu : Type 0 where
  pub raw : Text
  pub parked : Bool
  pub not_parked : Bool
  pub park_failed : Bool
  pub at_limit : Bool
  pub tracking : Bool
  pub slewing : Bool
  pub not_slewing : Bool
  pub at_home : Bool
  pub guiding : Bool
  pub pier_side : Option Side
  pub motion_state : MotionState

abbrev pub is_hash : ℕ → Bool
is_hash c = c == b'#'

abbrev three_digits : Text → Bool
three_digits (a ∷ b ∷ c ∷ []) = is_digit a && is_digit b && is_digit c
three_digits _ = false

-- `re.fullmatch(r"[A-Za-z]*\d{3}", raw)`
abbrev full_match : Text → Bool
full_match raw = three_digits (drop_while is_letter raw)

-- The guard at the head of `decode_gu`, negated. A text that holds `|`, or none at all, is refused.
unfoldable pub accepts : Text → Bool
accepts raw =
    not (has b'|' raw)
    && full_match raw
    && (has b'p' raw || has b'I' raw || has b'P' raw || has b'F' raw)

motion_state_of : Bool → Bool → Bool → Bool → Bool → Bool → MotionState
motion_state_of is_parked failed limit moving tracks homed =
    if is_parked
    then parked
    else if failed
    then park_failed
    else if limit
    then at_limit
    else if moving
    then slewing
    else if tracks
    then tracking
    else if homed
    then home
    else unparked

unfoldable pub flags_of : Text → Gu
unfolding motion_state_of
flags_of raw =
    let is_parked = has b'P' raw in
    let failed = has b'F' raw in
    let limit = has b'l' raw in
    let tracks = not (has b'n' raw) in
    let moving = not (has b'N' raw) in
    let homed = has b'H' raw in
    record {
      raw = raw;
      parked = is_parked;
      not_parked = has b'p' raw && not is_parked;
      park_failed = failed;
      at_limit = limit;
      tracking = tracks;
      slewing = moving;
      not_slewing = not moving;
      at_home = homed;
      guiding = has b'G' raw;
      pier_side = if has b'T' raw then some east else if has b'W' raw then some west else none;
      motion_state = motion_state_of is_parked failed limit moving tracks homed;
    }

unfoldable pub decode_gu : Text → Option Gu
decode_gu value =
    let raw = rstrip is_hash (strip value) in if accepts raw then some (flags_of raw) else none
