-- ===== src/SerialFocuser.antt =====
-- onstep_adapter/focuser.py: `OnStepFocuser`, the focuser on the shared serial connection. A
-- position is an integer of steps. `integer` stands for Python's `int` on a text, `decimal` for
-- its text of an integer, `calibrated` for the number that `_load_calibrated_max_position` reads
-- from a file, zero for none.
pub mod Travel
use on_step_adapter.Base.{
  ℕ, zero, suc, ◌+◌, Bool, true, false, ◌&&◌, ◌||◌, not, Option, none, some, List, [], ◌∷◌, ◌++◌,
  ◌==◌, String, if◌then◌else◌, get_or,
}
use on_step_adapter.Base.Int.{ℤ, pos, abs, ltb_ℤ}
use on_step_adapter.Base.Text.{Text, codes, is_text}
use on_step_adapter.Outcome.{Exc, Outcome, ok, raised}
use on_step_adapter.Bus.{Bus, send, send_fixed, write_bypass}
use on_step_adapter.Policy.{min_ℤ}

pub record FocuserConfig : Type 0 where
  pub focuser_min_position : ℤ
  pub focuser_max_position : ℤ

pub record SerialFocuser : Type 0 where
  pub bus : Bus
  pub available : Bool
  pub max_position : ℤ

-- The errors of a move: the two of OnStepSafetyError, with its limit or its reply, and any other.
pub data MoveError : Type 0 where
  focuser_limit : ℤ → MoveError
  focuser_move_rejected : Text → MoveError
  failed : Exc → MoveError

pub record FocuserMoveResult : Type 0 where
  pub accepted : Bool
  pub target_position : ℤ
  pub start_position : ℤ
  pub onstep_reply : Text

pub data MoveEnd : Type 0 where
  moved : FocuserMoveResult → MoveEnd
  refused : MoveError → MoveEnd

pub record FocuserStatus : Type 0 where
  pub is_available : Bool
  pub position : ℤ
  pub maximum : ℤ
  pub moving : Bool

abbrev pub is_zero : ℤ → Bool
is_zero x = abs x == 0

-- `a or b`
abbrev or_else : ℤ → ℤ → ℤ
or_else a b = if is_zero a then b else a

abbrev set_bus : SerialFocuser → Bus → SerialFocuser
set_bus f b = record f { bus = b }

abbrev pub pause : ℕ → Bus → Bus
pause ms b = record b { now = b.now + ms }

module _ (config : FocuserConfig) where
  -- The maximum of a new connection: what the controller says, the calibration, the configuration.
  unfoldable pub maximum_of : ℤ → ℤ → ℤ
  maximum_of reported calibrated =
      if is_zero reported
      then or_else calibrated config.focuser_max_position
      else if is_zero calibrated
      then reported
      else min_ℤ reported calibrated

  unfoldable set_calibrated_max_position : ℤ → SerialFocuser → SerialFocuser
  set_calibrated_max_position x f =
      let low = config.focuser_min_position in
      record f { max_position = if ltb_ℤ low x then x else low }

  -- The upper limit of a move.
  unfoldable pub upper_limit : SerialFocuser → ℤ
  upper_limit f = or_else f.max_position config.focuser_max_position

module _ (integer : Text → Option ℤ) (config : FocuserConfig) where
  -- `_send` of a question whose answer is a number, zero for a text that is none
  unfoldable pub ask_number : String → Bus → Outcome ℤ × Bus
  ask_number cmd b =
      let (r, b1) = send (codes cmd) b in
      elim r [ raised e ↦ (raised e, b1) | ok t ↦ (ok (get_or (integer t) (pos 0)), b1) ]

  unfoldable pub get_position : SerialFocuser → Outcome ℤ × SerialFocuser
  get_position f = let (r, b) = ask_number ":FG#" f.bus in (r, set_bus f b)

  -- `_fetch_max_position`
  unfoldable pub fetch_max_position : SerialFocuser → Outcome ℤ × SerialFocuser
  fetch_max_position f = let (r, b) = ask_number ":FM#" f.bus in (r, set_bus f b)

  unfoldable pub is_moving : SerialFocuser → Outcome Bool × SerialFocuser
  is_moving f =
      let (r, b) = send (codes ":FT#") f.bus in
      elim r [ raised e ↦ (raised e, set_bus f b) | ok t ↦ (ok (is_text t "M"), set_bus f b) ]

  unfoldable pub status : SerialFocuser → Outcome FocuserStatus × SerialFocuser
  status f = elim f.available [
    | false ↦ (
      ok (record {
        is_available = false;
        position = pos 0;
        maximum = f.max_position;
        moving = false;
      }),
      f,
    )
    | true ↦
        let (r, f1) = get_position f in
        elim r [
          | raised e ↦ (raised e, f1)
          | ok x ↦
              let (q, f2) = is_moving f1 in
              elim q [
                | raised e ↦ (raised e, f2)
                | ok m ↦ (
                  ok (record {
                    is_available = true;
                    position = x;
                    maximum = f.max_position;
                    moving = m;
                  }),
                  f2,
                )
              ]
        ]
  ]

  -- The attempts of `connect`, with a pause before each but the first.
  unfoldable pub attempts : ℕ → Bool → SerialFocuser → Outcome (Unit {0}) × SerialFocuser
  attempts zero again f = (ok tt, f)
  attempts (suc n) again f =
      let (r, b) = send (codes ":FA#") (pause (if again then 300 else 0) f.bus) in
      elim r [
        | raised e ↦ (raised e, set_bus f b)
        | ok t ↦ elim (is_text t "1") [
          | true ↦ (ok tt, record f { bus = b; available = true })
          | false ↦ attempts n true (record f { bus = b; available = false })
        ]
      ]

  unfoldable pub connect : ℤ → SerialFocuser → Outcome Bool × SerialFocuser
  connect calibrated f = elim f.available [
    | true ↦ elim (is_zero f.max_position) [
      | false ↦ (ok true, f)
      | true ↦
          let (r, f1) = fetch_max_position f in
          elim r [
            | raised e ↦ (raised e, f1)
            | ok x ↦ (ok true, record f1 { max_position = or_else x config.focuser_max_position })
          ]
    ]
    | false ↦
        let (r, f1) = attempts 3 false f in
        elim r [
          | raised e ↦ (raised e, f1)
          | ok u ↦ elim f1.available [
            | false ↦ (ok true, f1)
            | true ↦
                let (q, f2) = fetch_max_position f1 in
                elim q [
                  | raised e ↦ (raised e, f2)
                  | ok x ↦ (ok true, record f2 { max_position = maximum_of config x calibrated })
                ]
          ]
        ]
  ]

  abbrev start_of : SerialFocuser → Outcome ℤ × SerialFocuser
  start_of f = elim f.available [ true ↦ get_position f | false ↦ (ok (pos 0), f) ]

  -- The command of a move and its reply.
  unfoldable pub command_move : (ℤ → Text) → ℤ → ℤ → SerialFocuser → MoveEnd × SerialFocuser
  command_move decimal steps start f =
      let (r, b) = send_fixed (codes ":FS" ++ (decimal steps ++ codes "#")) 1 f.bus in
      elim r [
        | raised e ↦ (refused (failed e), set_bus f b)
        | ok t ↦ elim (is_text t "1") [
          | false ↦ (refused (focuser_move_rejected t), set_bus f b)
          | true ↦ (
            moved (record {
              accepted = true;
              target_position = steps;
              start_position = start;
              onstep_reply = t;
            }),
            set_bus f b,
          )
        ]
      ]

  unfoldable pub move_absolute : (ℤ → Text) → ℤ → SerialFocuser → MoveEnd × SerialFocuser
  move_absolute decimal steps f =
      let low = config.focuser_min_position in
      let high = upper_limit config f in
      elim (ltb_ℤ steps low || ltb_ℤ high steps) [
        | true ↦ (refused (focuser_limit (if ltb_ℤ high steps then high else low)), f)
        | false ↦
            let (r, f1) = start_of f in
            elim r [
              | raised e ↦ (refused (failed e), f1)
              | ok start ↦ command_move decimal steps start f1
            ]
      ]

-- `stop`
unfoldable pub stop : SerialFocuser → SerialFocuser
stop f = set_bus f (write_bypass (codes ":FQ#") f.bus)
