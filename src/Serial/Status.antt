-- ===== src/Serial/Status.antt =====
-- onstep_adapter/mount.py, `_decode_onstep_status`. The lists of the letters themselves
-- (core_flags, unknown_flags, flags) are not modelled.
use on_step_adapter.Base.{
  ℕ, Bool, true, false, ◌&&◌, ◌||◌, not, Option, none, some, List, [], ◌∷◌, any, ◌==◌,
  if◌then◌else◌,
}
use on_step_adapter.Base.Text.{Text, has, eq_text, rstrip, strip}
use on_step_adapter.Gu.{Side, east, west, is_hash}

pub data MotionState : Type 0 where
  parked parking park_failed at_limit slewing tracking home unparked unknown : MotionState

pub data ParkingState : Type 0 where
  failed parking parked not_parked unknown : ParkingState

pub data MountType : Type 0 where
  gem fork altaz altalt : MountType

pub record OnstepStatus : Type 0 where
  pub raw : Text
  pub tokens : List Text
  pub motion_state : MotionState
  pub parking_state : ParkingState
  pub parked : Bool
  pub not_parked : Bool
  pub park_in_progress : Bool
  pub park_failed : Bool
  pub at_home : Bool
  pub not_slewing : Bool
  pub slewing : Bool
  pub tracking : Bool
  pub at_limit : Bool
  pub pec_recorded : Bool
  pub guiding : Bool
  pub gps_pps_synced : Bool
  pub auto_meridian_flip : Bool
  pub mount_type : Option MountType
  pub pier_side : Option Side

abbrev push : ℕ → List Text → List Text
push c [] = (c ∷ []) ∷ []
push c (p ∷ ps) = (c ∷ p) ∷ ps

abbrev pub is_nonempty : Text → Bool
is_nonempty [] = false
is_nonempty (c ∷ t) = true

-- `raw.split("|")`
pieces : Text → List Text
pieces [] = [] ∷ []
pieces (c ∷ t) = let rest = pieces t in if c == b'|' then [] ∷ rest else push c rest

nonempty : List Text → List Text
nonempty [] = []
nonempty (p ∷ ps) = let rest = nonempty ps in if is_nonempty p then p ∷ rest else rest

unfoldable pub tokens_of : Text → List Text
unfolding pieces nonempty
tokens_of raw = if has b'|' raw then nonempty (pieces raw) else []

abbrev has_token : ℕ → List Text → Bool
has_token c tokens = any (λ p. eq_text p (c ∷ [])) tokens

-- Tracking, a goto and the pier side, in the format with tokens.
unfoldable pub of_tokens : List Text → Bool × Bool × Option Side
of_tokens tokens = (
  has_token b'T' tokens,
  has_token b'S' tokens,
  if has_token b'E' tokens && not (has_token b'W' tokens)
      then some east
      else if has_token b'W' tokens && not (has_token b'E' tokens)
      then some west
      else none,
)

-- The same in the compact format.
unfoldable pub of_letters : Text → Bool × Bool × Option Side
of_letters raw = (
  not (has b'n' raw),
  not (has b'N' raw),
  if has b'T' raw then some east else if has b'W' raw then some west else none,
)

unfoldable pub motion_of : Text → Bool → Bool → MotionState
motion_of raw tracks moves =
    if has b'P' raw
    then parked
    else if has b'I' raw
    then parking
    else if has b'F' raw
    then park_failed
    else if has b'l' raw || has b'L' raw
    then at_limit
    else if moves
    then slewing
    else if tracks
    then tracking
    else if has b'H' raw
    then home
    else if has b'p' raw || has b'n' raw
    then unparked
    else unknown

unfoldable pub parking_of : Text → ParkingState
parking_of raw =
    if has b'F' raw
    then failed
    else if has b'I' raw
    then parking
    else if has b'P' raw
    then parked
    else if has b'p' raw || has b'n' raw
    then not_parked
    else unknown

unfoldable pub mount_type_of : Bool → Text → Option MountType
mount_type_of pipes raw =
    if has b'E' raw && not pipes
    then some gem
    else if has b'K' raw && not pipes
    then some fork
    else if has b'A' raw && not pipes
    then some altaz
    else if has b'L' raw && not pipes
    then some altalt
    else none

unfoldable pub read_flags : Text → OnstepStatus
read_flags raw =
    let pipes = has b'|' raw in
    let tokens = tokens_of raw in
    let (tracks, moves, side) = (if pipes then of_tokens tokens else of_letters raw) in
    record {
      raw = raw;
      tokens = tokens;
      motion_state = motion_of raw tracks moves;
      parking_state = parking_of raw;
      parked = has b'P' raw;
      not_parked = has b'p' raw || (has b'n' raw && not (has b'P' raw));
      park_in_progress = has b'I' raw;
      park_failed = has b'F' raw;
      at_home = has b'H' raw;
      not_slewing = not moves;
      slewing = moves;
      tracking = tracks;
      at_limit = has b'l' raw || has b'L' raw;
      pec_recorded = has b'R' raw;
      guiding = has b'G' raw;
      gps_pps_synced = if pipes then false else has b'S' raw;
      auto_meridian_flip = has b'a' raw;
      mount_type = mount_type_of pipes raw;
      pier_side = side;
    }

-- `_decode_onstep_status`
unfoldable pub decode_onstep_status : Text → OnstepStatus
decode_onstep_status status = read_flags (rstrip is_hash (strip status))
