-- ===== src/Gu/Format.antt =====
-- What an accepted `:GU#` status looks like, and that its fields agree with one another.
use on_step_adapter.Base.{◌≡◌, ◌↔◌, true, false, some, ◌&&◌, not, arith}
use on_step_adapter.Base.Text.{Text, rstrip, strip}
use on_step_adapter.Gu.{Gu, parked, slewing, tracking, decode_gu, accepts, flags_of, is_hash}

-- A decoded status is the flags of the stripped text, and that text was accepted.
pub decode_gu-eq_some :
    (t : Text) (g : Gu)
    → decode_gu t ≡ some g
    → (accepts (rstrip is_hash (strip t)) ≡ true) × (g ≡ flags_of (rstrip is_hash (strip t)))
unfolding decode_gu
decode_gu-eq_some t g h = ground arith

-- The fields of one status, which consumers read one by one, do not contradict each other.
pub record Coherent (g : Gu) : Type 0 where
  pub one_park_state : (g.parked && g.not_parked) ≡ false
  pub slewing_opposite : g.not_slewing ≡ not g.slewing
  pub parked_first : (g.motion_state ≡ parked) ↔ (g.parked ≡ true)
  pub slewing_state : g.motion_state ≡ slewing → (g.slewing ≡ true) × (g.parked ≡ false)
  pub tracking_state : (g.motion_state ≡ tracking) ↔ (
      (g.tracking && not g.slewing && not g.parked && not g.park_failed && not g.at_limit) ≡ true)

flags_of-Coherent : (t : Text) → Coherent (flags_of t)
unfolding flags_of
flags_of-Coherent t = ground arith

-- Every status that decodes is coherent: it is never both parked and not parked, `not_slewing` is
-- the opposite of `slewing`, its motion state is `parked` exactly when the parked flag is set,
-- `slewing` only while it slews unparked, and `tracking` exactly when it tracks with no slew, park,
-- park failure or limit.
decode_gu-Coherent : (t : Text) (g : Gu) → decode_gu t ≡ some g → Coherent g
decode_gu-Coherent t g h = rw ((decode_gu-eq_some t g h).1) (flags_of-Coherent _)
