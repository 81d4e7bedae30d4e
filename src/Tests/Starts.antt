-- ===== src/Tests/Starts.antt =====
-- The start of a session at concrete schedules.
use on_step_adapter.Base.{
  Bool, ◌≡◌, refl, true, false, Option, none, some, List, [], ◌∷◌, String, arith,
}
use on_step_adapter.Base.Int.{pos, negsuc, scale, ◌-ℤ◌}
use on_step_adapter.Base.Text.{Text, codes}
use on_step_adapter.Outcome.{Outcome, ok, raised, value_error}
use on_step_adapter.Policy.{
  Real, finite, MeridianPolicy, derive_meridian_policy, values, guard_of, flip_of, stop_of,
  budget_of, sidereal_seconds,
}
use on_step_adapter.Transport.{
  Kind, switch_kind, text_kind, number_kind, State, idle, ok_state, writable, Event, vector, World,
  wait_property, wait_loop, round, latch, newer, get_property, lookup, value_of, arrive,
  record_vector, store, merged, update, set_value, is_open,
}
use on_step_adapter.Requests.{set_switch, confirm, switched, is_writable, send}
use on_step_adapter.Requests.Connection.{connect, open_socket}
use on_step_adapter.Config.{IndiRuntimeConfig, validate, numeric, check_mover, check_guide}
use on_step_adapter.Config.Accepted.{accepted_config_starts}
use on_step_adapter.Client.Startup.{
  Client, IndiStartupStatus, blank, policy_input, check_device, check_time, enable_flip, safe_flip,
  guard, derive, prepare_session, build, close_and_raise, try_connect, connect_client,
}
use on_step_adapter.Client.Ready.{IsReady, connect_client-IsReady, failed_connect_closes}
use on_step_adapter.Tests.{world_with}

abbrev site : IndiRuntimeConfig
site = record {
  host = "127.0.0.1";
  port = pos 7624;
  device = "OnStep";
  observer_lat = finite (pos 48000000);
  observer_lon = finite (pos 11000000);
  observer_alt_m = finite (pos 500);
  flip_request_deg = finite (pos 2000000);
  tracking_stop_deg = finite (pos 4000000);
  flip_allowance_seconds = finite (pos 432000000000000);
  reserve_seconds = finite (pos 108000000000000);
  safe_meridian_flip_via_home = some true;
  focuser_max_position = none;
  home_motion_enabled = some false;
  tracking_authority_policy = "strict";
  movement_min_alt_deg = finite (negsuc 1999999);
  movement_min_dec_deg = finite (negsuc 79999999);
  movement_max_dec_deg = finite (pos 80000000);
}

-- Guards at 5 degrees, in texts of one code point that is the guard_number.
abbrev guard_number : Text → Option Real
guard_number (n ∷ []) = some (finite (pos n))
guard_number _ = none

abbrev any_time : Text → Bool
any_time t = true

abbrev definition : Kind → String → State → List (String × Text) → Event
definition kind name state values = vector (record {
  device = some "OnStep";
  name = some name;
  kind = kind;
  state = some state;
  permission = some writable;
  values = values;
})

abbrev starting : Text → World
starting key =
    record (world_with [] (
      (10, definition switch_kind "CONNECTION" ok_state (("CONNECT", codes "On") ∷ []))
      ∷ (20, definition text_kind "TIME_UTC" ok_state (("UTC", codes "T") ∷ []))
      ∷ (30, definition switch_kind "SAFE_MERIDIAN_FLIP" idle (("ON", codes "Off") ∷ []))
      ∷ (40, definition switch_kind "SAFE_MERIDIAN_FLIP" ok_state (("ON", codes "On") ∷ []))
      ∷ (
        50,
        definition number_kind "Minutes Past Meridian" ok_state
            (("East", 5000000 ∷ []) ∷ ("West", key) ∷ []),
      )
      ∷ [])) { closed = true; has_socket = false; reader_alive = false }

abbrev made : Outcome (Unit {0})
made = ok tt

abbrev site_policy : MeridianPolicy
site_policy = record {
  firmware_guard_deg = pos 5000000;
  flip_request_deg = pos 2000000;
  hard_stop_deg = pos 4000000;
  seconds_flip_to_stop = pos 1723281810000000;
  max_exposure_seconds_at_flip = pos 1183281810000000;
  flip_allowance_seconds = pos 432000000000000;
  reserve_seconds = pos 108000000000000;
}

abbrev started : IndiStartupStatus
started = record { safe_meridian_flip_enabled = true; meridian_policy = site_policy }

started_run :
    (connect_client any_time guard_number "OnStep" true 500 made made
      (some site)
      blank
      (starting (5000000 ∷ []))).0
    ≡ ok started
unfolding connect_client try_connect prepare_session connect open_socket check_device check_time
    safe_flip enable_flip derive guard policy_input build check_mover check_guide
    derive_meridian_policy values guard_of flip_of stop_of budget_of sidereal_seconds ◌-ℤ◌
    set_switch confirm switched is_writable send is_open wait_property wait_loop round latch newer
    get_property lookup value_of arrive record_vector store merged update set_value scale
started_run = refl

connect_client-IsReady_example :
    IsReady any_time guard_number "OnStep" true 500 made
      (some site)
      (starting (5000000 ∷ []))
      (connect_client any_time guard_number "OnStep" true 500 made made
        (some site)
        blank
        (starting (5000000 ∷ []))).1
      started
connect_client-IsReady_example =
    connect_client-IsReady any_time guard_number "OnStep" true 500 made made (some site) blank
      (starting (5000000 ∷ [])) started started_run

-- The guard on the west side is no guard_number.
failed_run :
    (connect_client any_time guard_number "OnStep" true 500 made made
      (some site)
      blank
      (starting [])).0
    ≡ raised (value_error "could not convert string to float")
unfolding connect_client try_connect prepare_session connect open_socket check_device check_time
    safe_flip enable_flip derive guard close_and_raise set_switch confirm switched is_writable send
    is_open wait_property wait_loop round latch newer get_property lookup value_of arrive
    record_vector store merged update set_value
failed_run = refl

abbrev failed : Client × World
failed =
    let (r, c, w) =
      connect_client any_time guard_number "OnStep" true 500 made made (some site) blank
        (starting []) in
    (c, w)

failed_connect_closes_example :
    (is_open failed.1 ≡ false) × (failed.0.supervised ≡ false) × (failed.0.session.accepted ≡ false)
unfolding is_open
failed_connect_closes_example =
    failed_connect_closes any_time guard_number "OnStep" true 500 made made (some site) blank
      (starting []) (value_error "could not convert string to float") refl refl failed_run refl

accepted_site : validate site ≡ ok site
unfolding validate numeric
accepted_site = refl

accepted_config_starts_example :
    (p : MeridianPolicy) × (derive_meridian_policy
        (policy_input (some site) (finite (pos 5000000)) (finite (pos 6000000)))
      ≡ ok p)
    × ((build (some site) p).0 ≡ ok tt)
unfolding guard_of policy_input budget_of flip_of stop_of sidereal_seconds ◌-ℤ◌ scale
accepted_config_starts_example =
    accepted_config_starts site site (finite (pos 5000000)) (finite (pos 6000000)) accepted_site
      refl refl (omega arith) (omega arith)
