-- ===== src/Tests/Sessions.antt =====
-- The client's moves, the HOME authority and the baseline at concrete runs.
use on_step_adapter.Base.{ℕ, ◌≡◌, ◌↔◌, refl, true, Option, none, some, List, [], ◌∷◌}
use on_step_adapter.Base.Int.{ℤ, pos, negsuc, ◌-ℤ◌}
use on_step_adapter.Base.Text.{Text, codes}
use on_step_adapter.Outcome.{ok}
use on_step_adapter.Policy.{Real, finite}
use on_step_adapter.Transport.{
  switch_kind, text_kind, number_kind, World, wait_property, wait_loop, round, latch, newer,
  get_property, lookup, value_of, arrive, record_vector, store, merged, update, set_value, is_open,
}
use on_step_adapter.Requests.{confirm, send}
use on_step_adapter.Requests.Values.{
  set_text, set_number, set_values, are_known, written, matches_value,
}
use on_step_adapter.Motion.{threw, motion_stopped, new_handle, finish, set_done}
use on_step_adapter.Client.{
  start_motion, finish_motion, signal_done, active_motion, emergency_stop, change_at, handle_at,
}
use on_step_adapter.Client.Commands.{Command, begin, end, signal, ask, exec, run, no_motions}
use on_step_adapter.Client.Refinement.{replay, view, run_refines}
use on_step_adapter.Client.Exclusive.{one_running}
use on_step_adapter.Client.Session.{
  SyncRequest, sync_result, sync_time_location, sync_both, sync_site, no_session,
}
use on_step_adapter.Client.Baseline.{sync_time_location_baseline}
use on_step_adapter.Tests.{status_property, still_home, writable_property, value_update, world_with}

-- A move that ends, another that starts, and a third that is refused.
abbrev commands : List (Command ℕ)
commands = begin ∷ ask ∷ end 0 (threw (motion_stopped none)) ∷ signal 0 ∷ begin ∷ begin ∷ []

run_refines_example : view (run commands no_motions) ≡ replay commands (view {R = ℕ} no_motions)
run_refines_example = run_refines commands no_motions

second_runs : (run commands no_motions).motion ≡ some 1
unfolding run exec start_motion active_motion handle_at finish_motion signal_done change_at finish
    set_done new_handle emergency_stop
second_runs = refl

abbrev second : ℕ
second = 1

one_running_example : second ≡ second
unfolding run exec start_motion active_motion handle_at finish_motion signal_done change_at finish
    set_done new_handle emergency_stop
one_running_example = one_running commands second second refl refl

-- The client with and without its connection.
abbrev connected : World
connected =
    world_with
      (writable_property switch_kind "CONNECTION" (("CONNECT", codes "On") ∷ [])
        ∷ status_property still_home (pos 1)
        ∷ writable_property text_kind "TIME_UTC" (("UTC", codes "?") ∷ ("OFFSET", codes "?") ∷ [])
        ∷ writable_property number_kind "GEOGRAPHIC_COORD"
            (("LAT", 0 ∷ []) ∷ ("LONG", 0 ∷ []) ∷ ("ELEV", 0 ∷ []) ∷ [])
        ∷ [])
      ((20, value_update text_kind "TIME_UTC" (("UTC", codes "T") ∷ ("OFFSET", codes "0") ∷ []))
        ∷ (
          40,
          value_update number_kind "GEOGRAPHIC_COORD"
              (("LAT", 48 ∷ []) ∷ ("LONG", 11 ∷ []) ∷ ("ELEV", 5 ∷ []) ∷ []),
        )
        ∷ [])

abbrev lost : World
lost = record connected { closed = true }

-- Numbers as texts of one code point, which is the number.
abbrev format : ℤ → Text
format (pos n) = n ∷ []
format (negsuc n) = []

abbrev float : Text → Option Real
float (n ∷ []) = some (finite (pos n))
float _ = none

abbrev sync_request : SyncRequest
sync_request = record {
  user_approved = true;
  observer = some (record { lat = finite (pos 48); lon = finite (pos 11); alt = finite (pos 5) });
  is_local = true;
  clock = some (codes "T", codes "0");
  timeout = 500;
}

sync_run :
    (sync_time_location float format "OnStep" sync_request no_session connected).0
    ≡ ok (sync_result true true none)
unfolding sync_time_location sync_both sync_site set_text set_number set_values are_known written
    matches_value confirm send is_open wait_property wait_loop round latch newer get_property lookup
    value_of arrive record_vector store merged update set_value ◌-ℤ◌
sync_run = refl

sync_time_location_baseline_example :
    ((sync_time_location float format "OnStep" sync_request no_session connected).1.accepted ≡ true)
    × ((sync_time_location float format "OnStep" sync_request no_session connected).1.accepted
          ≡ true
        ↔ (sync_result true true none).error ≡ none)
sync_time_location_baseline_example =
    sync_time_location_baseline float format "OnStep" sync_request no_session connected
      (sync_result true true none) sync_run
