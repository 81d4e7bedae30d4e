-- ===== src/Mock/Commands.antt =====
-- What every sequence of commands to the virtual mount keeps.
use on_step_adapter.Base.{
  ℕ, ◌≡◌, refl, Bool, true, false, ◌&&◌, ◌||◌, Option, is_some, List, [], ◌∷◌, ◌++◌, String, arith,
}
use on_step_adapter.Base.Int.{ℤ}
use on_step_adapter.Mock.{
  Motion, slewing, Target, VirtualMount, is_faulted, is_idle, is_manual, is_zero, is_slewing,
  unparked, set_tracking, unpark, start_goto, start_manual, guide, abort, set_fault,
}

-- What a client or a test asks of the mount, each at a time.
pub data Command : Type 0 where
  tracking_command : Bool → Command
  unpark_command abort_command : Command
  goto_command : Target → ℤ → ℤ → Command
  manual_command : Bool → ℤ → Command
  guide_command : Bool → ℤ → ℕ → Command
  fault_command : Option String → Command

unfoldable pub obey : Command → ℕ → VirtualMount → VirtualMount
obey (tracking_command on) now m = (set_tracking on now m).1
obey unpark_command now m = (unpark now m).1
obey abort_command now m = abort now m
obey (goto_command kind ra dec) now m = (start_goto kind now ra dec m).1
obey (manual_command ns direction) now m = (start_manual ns direction m).1
obey (guide_command ns direction ms) now m = (guide ns direction ms now m).1
obey (fault_command fault) now m = set_fault fault now m

unfoldable pub run : List (ℕ × Command) → VirtualMount → VirtualMount
run [] m = m
run ((now, c) ∷ rest) m = run rest (obey c now m)

abbrev is_gliding : Motion → Bool
is_gliding slewing = true
is_gliding _ = false

-- A mount whose fields agree.
pub record IsSound (m : VirtualMount) : Type 0 where
  pub timed : is_some m.tracking_since ≡ m.tracking
  pub no_fault : m.tracking ≡ true → is_faulted m.fault ≡ false
  pub tracks_unparked : m.tracking ≡ true → m.parked ≡ false
  pub still_parked : m.parked ≡ true → is_idle m.motion ≡ true
  pub aimed : is_gliding m.motion ≡ true → is_some m.target_kind ≡ true
  pub faulted_still :
      is_faulted m.fault ≡ true → (is_gliding m.motion || is_manual m.motion) ≡ false
  pub pushed : is_manual m.motion ≡ true → (is_zero m.manual_ns && is_zero m.manual_we) ≡ false

set_tracking-IsSound :
    (on : Bool) (now : ℕ) (m : VirtualMount) → IsSound m → IsSound (set_tracking on now m).1
unfolding set_tracking
set_tracking-IsSound on now m s = ground arith

unpark-IsSound : (now : ℕ) (m : VirtualMount) → IsSound m → IsSound (unpark now m).1
unfolding unpark
unpark-IsSound now m s =
    let free : VirtualMount = record m { parked = false; events = m.events ++ unparked ∷ [] } in
    let free_sound : IsSound free = record {
      timed = s.timed;
      no_fault = s.no_fault;
      tracks_unparked = λ _. refl;
      still_parked = λ h. cc;
      aimed = s.aimed;
      faulted_still = s.faulted_still;
      pushed = s.pushed;
    } in
    ground (arith, s, free_sound, set_tracking-IsSound true now free free_sound)

start_goto-IsSound :
    (kind : Target) (now : ℕ) (ra dec : ℤ) (m : VirtualMount)
    → IsSound m
    → IsSound (start_goto kind now ra dec m).1
unfolding start_goto set_tracking
start_goto-IsSound kind now ra dec m s = ground arith

start_manual-IsSound :
    (ns : Bool) (direction : ℤ) (m : VirtualMount)
    → IsSound m
    → IsSound (start_manual ns direction m).1
unfolding start_manual
start_manual-IsSound ns direction m s = ground arith

guide-IsSound :
    (ns : Bool) (direction : ℤ) (ms now : ℕ) (m : VirtualMount)
    → IsSound m
    → IsSound (guide ns direction ms now m).1
unfolding guide
guide-IsSound ns direction ms now m s = ground arith

abort-IsSound : (now : ℕ) (m : VirtualMount) → IsSound m → IsSound (abort now m)
unfolding abort is_slewing
abort-IsSound now m s = ground arith

set_fault-IsSound :
    (fault : Option String) (now : ℕ) (m : VirtualMount)
    → IsSound m
    → IsSound (set_fault fault now m)
unfolding set_fault abort set_tracking is_slewing
set_fault-IsSound fault now m s = ground arith

obey-IsSound : (c : Command) (now : ℕ) (m : VirtualMount) → IsSound m → IsSound (obey c now m)
unfolding obey
obey-IsSound (tracking_command on) now m s = set_tracking-IsSound on now m s
obey-IsSound unpark_command now m s = unpark-IsSound now m s
obey-IsSound abort_command now m s = abort-IsSound now m s
obey-IsSound (goto_command kind ra dec) now m s = start_goto-IsSound kind now ra dec m s
obey-IsSound (manual_command ns direction) now m s = start_manual-IsSound ns direction m s
obey-IsSound (guide_command ns direction ms) now m s = guide-IsSound ns direction ms now m s
obey-IsSound (fault_command fault) now m s = set_fault-IsSound fault now m s

-- Any sequence of commands keeps a sound virtual mount sound, its faults included: it tracks only
-- while unparked and not faulted, with a start time exactly while it tracks; it stands still while
-- parked; a fault leaves it neither slewing nor in manual motion; a slew has a target, and manual
-- motion a direction.
pub run-IsSound : (l : List (ℕ × Command)) (m : VirtualMount) → IsSound m → IsSound (run l m)
unfolding run
run-IsSound [] m s = s
run-IsSound ((now, c) ∷ rest) m s = run-IsSound rest (obey c now m) (obey-IsSound c now m s)
