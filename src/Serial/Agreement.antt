-- ===== src/Serial/Agreement.antt =====
-- The decoder of the serial adapter against that of the INDI adapter.
use on_step_adapter.Base.{◌≡◌, true, false, some, arith}
use on_step_adapter.Base.Text.{Text, has, rstrip, strip}
use on_step_adapter.Gu.{Gu, decode_gu, accepts, flags_of, is_hash}
use on_step_adapter.Gu.Format.{decode_gu-eq_some}
use on_step_adapter.Gu.{
  MotionState, parked, park_failed, at_limit, slewing, tracking, home, unparked, unknown,
}
use on_step_adapter.Serial.Status.{
  MotionState as SerialState, OnstepStatus, read_flags, of_letters, motion_of, decode_onstep_status,
}

-- A motion state of the INDI adapter in the words of the serial one.
abbrev pub same_word : MotionState → SerialState
same_word parked = SerialState.parked
same_word park_failed = SerialState.park_failed
same_word at_limit = SerialState.at_limit
same_word slewing = SerialState.slewing
same_word tracking = SerialState.tracking
same_word home = SerialState.home
same_word unparked = SerialState.unparked
same_word unknown = SerialState.unknown

-- Both decoders read the same state of the mount.
pub record Agree (g : Gu) (s : OnstepStatus) : Type 0 where
  pub raw : s.raw ≡ g.raw
  pub motion_state : s.motion_state ≡ same_word g.motion_state
  pub parked : s.parked ≡ g.parked
  pub park_failed : s.park_failed ≡ g.park_failed
  pub at_limit : s.at_limit ≡ g.at_limit
  pub tracking : s.tracking ≡ g.tracking
  pub slewing : s.slewing ≡ g.slewing
  pub at_home : s.at_home ≡ g.at_home
  pub guiding : s.guiding ≡ g.guiding
  pub pier_side : s.pier_side ≡ g.pier_side

read_flags-Agree :
    (raw : Text)
    → accepts raw ≡ true
    → has b'I' raw ≡ false
    → has b'L' raw ≡ false
    → Agree (flags_of raw) (read_flags raw)
unfolding accepts flags_of read_flags of_letters motion_of
read_flags-Agree raw h i l = ground arith

-- Every status text that the INDI adapter decodes, unless it holds the letter of a park in progress
-- or that of an alt-alt mount, is read by the serial adapter as the same state: park, limit,
-- tracking, slew, HOME, guiding, pier side and the word for the motion.
pub decoders-Agree :
    (t : Text) (g : Gu)
    → decode_gu t ≡ some g
    → has b'I' g.raw ≡ false
    → has b'L' g.raw ≡ false
    → Agree g (decode_onstep_status t)
unfolding decode_onstep_status flags_of
decoders-Agree t g h i l =
    let (fine, same) = decode_gu-eq_some t g h in
    rw same (
      read_flags-Agree (rstrip is_hash (strip t)) fine (ground (arith, same))
        (ground (arith, same)))
