-- ===== src/Tests/Ports.antt =====
-- The shared serial connection and the focuser on it at concrete replies.
use on_step_adapter.Base.{[], ◌∷◌, some, false, true, ◌≡◌, refl, ◌⊎◌}
use on_step_adapter.Base.Int.{ℤ, pos, ◌≤ℤ◌, ◌<ℤ◌}
use on_step_adapter.Base.Text.{codes}
use on_step_adapter.Outcome.{other_error}
use on_step_adapter.Bus.{Bus, replies, read_fails, send, raw_send, exchange}
use on_step_adapter.Bus.Silence.{
  sending, bypassing, uses, use_bus, outcome_of, failed_use_is_silent,
}
use on_step_adapter.SerialFocuser.{
  SerialFocuser, FocuserConfig, focuser_limit, refused, move_absolute, upper_limit,
}
use on_step_adapter.SerialFocuser.Travel.{is_commanded, move_absolute_bounds}

-- A read that raises, and a reply that nobody will read.
abbrev broken : Bus
broken = record {
  is_open = true;
  now = 0;
  answers =
      record { took = 10; locked = false; result = read_fails other_error }
      ∷ record { took = 10; locked = false; result = replies (codes "nNp#") }
      ∷ [];
  sent = [];
}

failed_use_is_silent_example :
    (uses
      (bypassing (codes ":Q#") ∷ sending (codes ":GU#") ∷ [])
      (use_bus (sending (codes ":GU#")) broken)).sent
    ≡ (use_bus (sending (codes ":GU#")) broken).sent
unfolding outcome_of send raw_send exchange
failed_use_is_silent_example =
    failed_use_is_silent (sending (codes ":GU#")) broken
      (bypassing (codes ":Q#") ∷ sending (codes ":GU#") ∷ []) refl refl

abbrev travel : FocuserConfig
travel = record { focuser_min_position = pos 0; focuser_max_position = pos 50000 }

abbrev focuser : SerialFocuser
focuser = record {
  bus = record {
    is_open = true;
    now = 0;
    answers =
        record { took = 10; locked = false; result = replies (codes "1200#") }
        ∷ record { took = 10; locked = false; result = replies (codes "1") }
        ∷ [];
    sent = [];
  };
  available = true;
  max_position = pos 9000;
}

move_absolute_bounds_example :
    (((pos 2000 <ℤ pos 0) ⊎ (upper_limit travel focuser <ℤ pos 2000))
      × ((e : ℤ) × ((move_absolute
              (λ t. some (pos 1200))
              travel
              (λ x. codes "2000")
              (pos 2000)
              focuser).0
            ≡ refused (focuser_limit e)))
      × ((move_absolute (λ t. some (pos 1200)) travel (λ x. codes "2000") (pos 2000) focuser).1
          ≡ focuser))
    ⊎ ((pos 0 ≤ℤ pos 2000)
        × (pos 2000 ≤ℤ upper_limit travel focuser)
        × (is_commanded
              (pos 2000)
              (move_absolute (λ t. some (pos 1200)) travel (λ x. codes "2000") (pos 2000) focuser).0
            ≡ true))
move_absolute_bounds_example =
    move_absolute_bounds (λ t. some (pos 1200)) travel (λ x. codes "2000") (pos 2000) focuser
