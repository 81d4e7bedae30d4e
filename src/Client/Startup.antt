-- ===== src/Client/Startup.antt =====
-- onstep_adapter/indi_client.py: `connect`. `socket` is what opening the socket ends with,
-- `closing` what the close of a supervisor that is left ends with; `is_time` says of a text
-- whether `datetime.fromisoformat` reads it, and `minutes` is `float` in the units of the guards.
-- The age of the reported time is not modelled. The objects that `connect` builds are the fields
-- that say so.
use on_step_adapter.Base.{
  ℕ, Bool, true, false, ◌&&◌, ◌||◌, not, Option, none, some, String, is_some, if◌then◌else◌,
}
use on_step_adapter.Base.Int.{pos, negsuc}
use on_step_adapter.Base.Text.{Text}
use on_step_adapter.Outcome.{
  Exc, Outcome, ok, raised, connection_error, runtime_error, value_error, key_error, is_caught,
}
use on_step_adapter.Policy.{Real, finite, MeridianPolicy, PolicyInput, derive_meridian_policy}
use on_step_adapter.Transport.{
  State, busy, IndiProperty, World, Io, ◌>>=◌, ◌>>◌, return, when, value_of, is_value, is_open,
  wait_property,
}
use on_step_adapter.Requests.{is_alert, is_ok, set_switch}
use on_step_adapter.Requests.Connection.{connect, close}
use on_step_adapter.Config.{IndiRuntimeConfig, check_mover, check_guide}
use on_step_adapter.Client.Session.{Session, no_session}

-- What `connect` sets of the client. `home_authority` is the flag of the router, if there is one.
pub record Client : Type 0 where
  pub policy : Option MeridianPolicy
  pub supervised : Bool
  pub session : Session
  pub home_authority : Option Bool

pub record IndiStartupStatus : Type 0 where
  pub safe_meridian_flip_enabled : Bool
  pub meridian_policy : MeridianPolicy

abbrev pub blank : Client
blank = record { policy = none; supervised = false; session = no_session; home_authority = none }

abbrev is_busy : State → Bool
is_busy busy = true
is_busy _ = false

abbrev pub is_on : IndiProperty → Bool
is_on p = is_value p.values "ON" "On"

abbrev lift : {A : Type 0} → Outcome A → Io A
lift r w = (r, w)

-- What is given to `derive_meridian_policy`, with the defaults of both.
unfoldable pub policy_input : Option IndiRuntimeConfig → Real → Real → PolicyInput
policy_input none east west = record {
  east_guard_minutes = east;
  west_guard_minutes = west;
  flip_lead_deg = finite (pos 1000000);
  stop_margin_deg = finite (pos 250000);
  flip_allowance_seconds = finite (pos 432000000000000);
  reserve_seconds = finite (pos 108000000000000);
  flip_request_deg = none;
  hard_stop_deg = none;
}
policy_input (some c) east west = record {
  east_guard_minutes = east;
  west_guard_minutes = west;
  flip_lead_deg = finite (pos 1000000);
  stop_margin_deg = finite (pos 250000);
  flip_allowance_seconds = c.flip_allowance_seconds;
  reserve_seconds = c.reserve_seconds;
  flip_request_deg = some c.flip_request_deg;
  hard_stop_deg = some c.tracking_stop_deg;
}

module _ (is_time : Text → Bool) (minutes : Text → Option Real) (device : String) (via_home : Bool)
    (timeout : ℕ) where
  unfoldable pub check_device : Io (Unit {0})
  check_device = do
    p ← wait_property device "CONNECTION" timeout (negsuc 0)
    when (not (is_value p.values "CONNECT" "On"))
        (connection_error "OnStep INDI device is not connected")

  unfoldable pub check_time : Io (Unit {0})
  check_time = do
    p ← wait_property device "TIME_UTC" timeout (negsuc 0)
    lift (elim (value_of p.values "UTC") [
      | none ↦ raised (key_error "UTC")
      | some t ↦ if is_time t then ok tt else raised (value_error "Invalid isoformat string")
    ])

  unfoldable pub enable_flip : IndiProperty → Io IndiProperty
  enable_flip p w = elim (via_home && not (is_on p)) [
    | true ↦ set_switch device "SAFE_MERIDIAN_FLIP" "ON" timeout w
    | false ↦ (ok p, w)
  ]

  unfoldable pub safe_flip : Io IndiProperty
  safe_flip = do
    p ← wait_property device "SAFE_MERIDIAN_FLIP" timeout (negsuc 0)
    when (is_alert p.state || is_busy p.state)
        (runtime_error "Safe HOME-route flip property is not ready")
    q ← enable_flip p
    when (via_home && not (is_on q)) (runtime_error "Safe HOME-route flip could not be verified")
    when (via_home && not (is_ok q.state))
        (runtime_error "Safe HOME-route flip activation was not confirmed")
    return q

  unfoldable pub guard : IndiProperty → String → Outcome Real
  guard p side = elim (value_of p.values side) [
    | none ↦ raised (key_error side)
    | some t ↦ elim (minutes t) [
      | none ↦ raised (value_error "could not convert string to float")
      | some x ↦ ok x
    ]
  ]

  unfoldable pub derive : Option IndiRuntimeConfig → Io MeridianPolicy
  derive config = do
    limits ← wait_property device "Minutes Past Meridian" timeout (negsuc 0)
    when (is_alert limits.state)
        (runtime_error "Firmware meridian guard readback is in Alert state")
    east ← lift (guard limits "East")
    west ← lift (guard limits "West")
    lift (derive_meridian_policy (policy_input config east west))

  -- The `try` block up to the policy.
  unfoldable pub prepare_session :
      Outcome (Unit {0}) → Option IndiRuntimeConfig → Io IndiStartupStatus
  prepare_session socket config = do
    connect socket
    check_device
    check_time
    flip ← safe_flip
    policy ← derive config
    return (record { safe_meridian_flip_enabled = is_on flip; meridian_policy = policy })

-- The rest of it: the objects that a configuration asks for.
unfoldable pub build : Option IndiRuntimeConfig → MeridianPolicy → Outcome (Unit {0}) × Client
build none policy = (ok tt, record blank { policy = some policy })
build (some c) policy =
    let routed : Client = record blank { policy = some policy; home_authority = some false } in
    elim (check_mover c) [
      | raised e ↦ (raised e, routed)
      | ok mover ↦ elim (check_guide c) [
        | raised e ↦ (raised e, routed)
        | ok guide ↦ (ok tt, record routed { supervised = true })
      ]
    ]

abbrev pub is_handled : Exc → Bool
is_handled (key_error _) = true
is_handled e = is_caught e

-- What a call leaves: its result, the client and the world.
abbrev Started : Type 0
Started = Outcome IndiStartupStatus × Client × World

-- The `except` block.
unfoldable pub close_and_raise : Exc → Client → World → Started
close_and_raise e c w = (raised e, c, if is_handled e then close w else w)

module _ (is_time : Text → Bool) (minutes : Text → Option Real) (device : String) (via_home : Bool)
    (timeout : ℕ) (socket closing : Outcome (Unit {0})) (config : Option IndiRuntimeConfig) where
  unfoldable pub try_connect : World → Started
  try_connect w =
      let (r, w1) = prepare_session is_time minutes device via_home timeout socket config w in
      elim r [
        | raised e ↦ close_and_raise e blank w1
        | ok status ↦
            let (built, c) = build config status.meridian_policy in
            elim built [ raised e ↦ close_and_raise e c w1 | ok done ↦ (ok status, c, w1) ]
      ]

  -- `connect`
  unfoldable pub connect_client : Client → World → Started
  connect_client c w =
      if is_open w && is_some c.policy
      then (raised (runtime_error "INDI client is already connected"), c, w)
      else elim (if c.supervised then closing else ok tt) [
        | raised e ↦ (raised e, c, w)
        | ok closed ↦ try_connect w
      ]
