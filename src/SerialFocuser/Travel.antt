-- ===== src/SerialFocuser/Travel.antt =====
-- onstep_adapter/focuser.py: the range of the moves.
use on_step_adapter.Base.{
  Bool, true, false, ◌&&◌, ◌||◌, ◌≡◌, arith, Option, ◌⊎◌, inl, inr, if◌then◌else◌, Bool-cases,
}
use on_step_adapter.Base.Int.{ℤ, ◌≤ℤ◌, ◌<ℤ◌, ltb_ℤ, leb_ℤ}
use on_step_adapter.Base.Text.{Text}
use on_step_adapter.SerialFocuser.{
  SerialFocuser, FocuserConfig, MoveEnd, moved, refused, focuser_limit, move_absolute, command_move,
  upper_limit,
}

-- The end of a move that was not refused by its target.
abbrev pub is_commanded : ℤ → MoveEnd → Bool
is_commanded steps (moved r) = leb_ℤ r.target_position steps && leb_ℤ steps r.target_position
is_commanded steps (refused (focuser_limit x)) = false
is_commanded steps (refused e) = true

outside :
    (steps low high : ℤ)
    → (ltb_ℤ steps low || ltb_ℤ high steps) ≡ true
    → (steps <ℤ low) ⊎ (high <ℤ steps)
outside steps low high h = ground arith

module _ (integer : Text → Option ℤ) (config : FocuserConfig) (decimal : ℤ → Text) where
  -- Either the target of a move lies below the configured minimum or above the limit in use, and
  -- the move is refused and leaves the focuser and its connection as they were; or the target
  -- lies within both bounds, and the move ends with its acceptance, its rejection by the
  -- controller, or an error.
  pub move_absolute_bounds :
      (steps : ℤ) (f : SerialFocuser)
      → (((steps <ℤ config.focuser_min_position) ⊎ (upper_limit config f <ℤ steps))
          × ((e : ℤ) × ((move_absolute integer config decimal steps f).0
                ≡ refused (focuser_limit e)))
          × ((move_absolute integer config decimal steps f).1 ≡ f))
        ⊎ ((config.focuser_min_position ≤ℤ steps)
            × (steps ≤ℤ upper_limit config f)
            × (is_commanded steps (move_absolute integer config decimal steps f).0 ≡ true))
  unfolding move_absolute command_move
  move_absolute_bounds steps f =
      elim (Bool-cases
        (ltb_ℤ steps config.focuser_min_position || ltb_ℤ (upper_limit config f) steps)) [
          | inl out ↦ inl (
            outside steps config.focuser_min_position (upper_limit config f) out,
            (
              if ltb_ℤ (upper_limit config f) steps
                  then upper_limit config f
                  else config.focuser_min_position,
              ground arith,
            ),
            ground arith,
          )
          | inr within ↦ inr (ground arith, ground arith, ground arith)
        ]
