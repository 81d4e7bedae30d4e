-- ===== src/Client/Session.antt =====
-- onstep_adapter/indi_client.py: the HOME authority, the session's time and site baseline, and
-- `sync_time_location`. Both flags are only ever withdrawn by a read; a new route or a new sync
-- grants them. `clock` is what `self._clock` gives, formatted: the time in UTC and its offset, or
-- none for a time without a zone.
use on_step_adapter.Base.{
  ℕ, Bool, true, false, ◌&&◌, ◌||◌, not, Option, none, some, List, [], ◌∷◌, String, all,
  if◌then◌else◌,
}
use on_step_adapter.Base.Int.{ℤ}
use on_step_adapter.Base.Text.{Text, eq_text}
use on_step_adapter.Outcome.{
  Exc, Outcome, ok, raised, is_caught, permission_error, value_error, connection_error,
}
use on_step_adapter.Gu.{Gu}
use on_step_adapter.Policy.{Real}
use on_step_adapter.Transport.{IndiProperty, World, get_property, is_open, value_of}
use on_step_adapter.Requests.{is_alert}
use on_step_adapter.Requests.Values.{set_text, set_number}
use on_step_adapter.Status.{is_connected, reports_error}
use on_step_adapter.Stop.{decoded_of, status_text}

abbrev is_faulty_gu : Option Gu → Bool
is_faulty_gu none = true
is_faulty_gu (some g) = g.parked || g.park_failed || g.at_limit

abbrev is_faulty : Option IndiProperty → Bool
is_faulty none = true
is_faulty (some p) =
    is_alert p.state || reports_error p || is_faulty_gu (decoded_of (status_text p))

-- Whether what the store holds withdraws the HOME authority.
unfoldable pub revokes_home : String → World → Bool
revokes_home device w =
    not (is_open w)
    || not (is_connected (get_property device "CONNECTION" w))
    || is_faulty (get_property device "OnStep Status" w)

-- `home_authority_established`, of the router's flag, or of no router.
unfoldable pub home_authority : String → World → Option Bool → Bool × Option Bool
home_authority device w none = (false, none)
home_authority device w (some false) = (false, some false)
home_authority device w (some true) = elim (revokes_home device w) [
  | true ↦ (false, some false)
  | false ↦ (true, some true)
]

abbrev pub Values : Type 0
Values = List (String × Text)

abbrev has_value : Values → String × Text → Bool
has_value d kv = elim (value_of d kv.0) [ none ↦ false | some t ↦ eq_text t kv.1 ]

-- `==` of two dictionaries, whose keys do not repeat
abbrev same_values : Values → Values → Bool
same_values a b = all (has_value b) a && all (has_value a) b

abbrev is_accepted : Option IndiProperty → Option Values → Bool
is_accepted (some p) (some d) = same_values p.values d
is_accepted _ _ = false

-- The fields of the client that say what this session accepted.
pub record Session : Type 0 where
  pub accepted : Bool
  pub time_values : Option Values
  pub site_values : Option Values

-- `session_baseline_accepted`; a missing property or device withdraws the baseline, a transport
-- that is not open does not.
unfoldable baseline_accepted : String → World → Session → Bool × Session
baseline_accepted device w s =
    if not s.accepted || not (is_open w)
    then (false, s)
    else if not (is_connected (get_property device "CONNECTION" w))
        || not (is_accepted (get_property device "TIME_UTC" w) s.time_values)
        || not (is_accepted (get_property device "GEOGRAPHIC_COORD" w) s.site_values)
    then (false, record s { accepted = false })
    else (true, s)

abbrev pub no_session : Session
no_session = record { accepted = false; time_values = none; site_values = none }

pub record Observer : Type 0 where
  pub lat : Real
  pub lon : Real
  pub alt : Real

pub record IndiSyncResult : Type 0 where
  pub time_accepted : Bool
  pub location_accepted : Bool
  pub error : Option Exc

pub record SyncRequest : Type 0 where
  pub user_approved : Bool
  pub observer : Option Observer
  pub is_local : Bool
  pub clock : Option (Text × Text)
  pub timeout : ℕ

-- The result, the session and the world behind a call.
abbrev Synced : Type 0
Synced = Outcome IndiSyncResult × Session × World

abbrev pub sync_result : Bool → Bool → Option Exc → IndiSyncResult
sync_result time site error = record {
  time_accepted = time;
  location_accepted = site;
  error = error;
}

module _ (float : Text → Option Real) (format : ℤ → Text) (device : String) where
  -- The second write of the `try` block, behind a time that was accepted.
  unfoldable pub sync_site : Observer → ℕ → Values → World → Synced
  sync_site o timeout time_values w =
      let (r, w') =
        set_number float format device "GEOGRAPHIC_COORD"
          (("LAT", o.lat) ∷ ("LONG", o.lon) ∷ ("ELEV", o.alt) ∷ []) timeout w in
      elim r [
        | raised e ↦
            if is_caught e
            then (ok (sync_result true false (some e)), no_session, w')
            else (raised e, no_session, w')
        | ok p ↦ (
          ok (sync_result true true none),
          record { accepted = true; time_values = some time_values; site_values = some p.values },
          w',
        )
      ]

  -- The part behind the guards: the old baseline is gone, whatever comes of the writes.
  unfoldable pub sync_both : Observer → Text × Text → ℕ → World → Synced
  sync_both o (utc, offset) timeout w =
      let (r, w') =
        set_text float device "TIME_UTC" (("UTC", utc) ∷ ("OFFSET", offset) ∷ []) timeout w in
      elim r [
        | raised e ↦
            if is_caught e
            then (ok (sync_result false false (some e)), no_session, w')
            else (raised e, no_session, w')
        | ok p ↦ sync_site o timeout p.values w'
      ]

  -- `sync_time_location`
  unfoldable pub sync_time_location : SyncRequest → Session → World → Synced
  sync_time_location q s w =
      if not q.user_approved
      then (raised (permission_error "User approval is required"), s, w)
      else elim q.observer [
        | none ↦ (raised (value_error "Observer configuration is required"), s, w)
        | some o ↦
            if not q.is_local
            then (raised (value_error "Raspberry time sync requires a local INDI server"), s, w)
            else if not (is_open w)
            then (raised (connection_error "INDI client is not connected"), s, w)
            else if not (is_connected (get_property device "CONNECTION" w))
            then (raised (connection_error "OnStep INDI device is not connected"), s, w)
            else elim q.clock [
              | none ↦ (raised (value_error "Raspberry time source must be timezone-aware"), s, w)
              | some t ↦ sync_both o t q.timeout w
            ]
      ]
