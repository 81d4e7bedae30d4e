-- ===== src/Mount/Readiness.antt =====
-- onstep_adapter/mount.py: whether time, location and limits allow motion on the sky; what is
-- modelled of a report is `ready` and `reasons`. The altitude of a site is never read (`alt_m` is
-- None).
use on_step_adapter.Base.{
  Bool, true, false, ◌&&◌, ◌||◌, not, Option, none, some, List, [], ◌∷◌, ◌++◌, String, max, ltb,
  is_none, get_or, if◌then◌else◌,
}
use on_step_adapter.Base.Int.{ℤ, pos, ◌-ℤ◌, leb_ℤ}
use on_step_adapter.Base.Text.{codes}
use on_step_adapter.Mount.{
  Mount, OnStepSafetyConfig, Sky, SafetySeverity, safety_error, M, ◌>>=◌, ◌>>◌, return, raise,
  send_text, ClockChecks, returned, threw,
}

pub record Readiness : Type 0 where
  pub ready : Bool
  pub reasons : List String

abbrev pub note : Bool → String → List String
note true r = r ∷ []
note false r = []

abbrev no_reasons : List String → Bool
no_reasons [] = true
no_reasons (r ∷ l) = false

-- `_time_readiness`
unfoldable pub time_readiness : OnStepSafetyConfig → ClockChecks → Readiness
time_readiness c k =
    let trusted = c.trusted_time_source || c.using_runtime_time in
    let warning = k.onstep_warning || not k.onstep_available in
    record {
      ready = k.system_valid && trusted && not warning && k.sidereal_ok;
      reasons =
          note (not k.system_valid) "raspberry_time_invalid"
          ++ (note (k.system_valid && not trusted) "raspberry_time_plausible_not_trusted"
              ++ (note k.fresh_boot "onstep_fresh_boot_clock"
                  ++ (note warning "onstep_clock_invalid"
                      ++ note (not k.sidereal_ok)
                          (get_or k.sidereal_reason "onstep_sidereal_time_mismatch"))));
    }

-- `read_onstep_site`: the latitude and the longitude, or none for an unavailable site.
unfoldable pub read_onstep_site : Sky → M (Option (ℤ × ℤ))
read_onstep_site sky m =
    let (lat, m1) = send_text (codes ":Gt#") m in
    elim lat [
      | threw e ↦ (returned none, m1)
      | returned t ↦
          let (lon, m2) = send_text (codes ":Gg#") m1 in
          elim lon [
            | threw e ↦ (returned none, m2)
            | returned u ↦ elim (sky.parse_degrees t) [
              | none ↦ (returned none, m2)
              | some x ↦ elim (sky.parse_degrees u) [
                | none ↦ (returned none, m2)
                | some y ↦ (returned (some (x, pos 0 -ℤ y)), m2)
              ]
            ]
          ]
    ]

abbrev same_sign : ℤ → ℤ → Bool
same_sign a b = if leb_ℤ (pos 0) a then leb_ℤ (pos 0) b else not (leb_ℤ (pos 0) b)

-- A site that was read against the configured one; 1200 m is the precision of the readback.
unfoldable pub judge_site : Sky → OnStepSafetyConfig → Option (ℤ × ℤ) → Readiness
judge_site sky c none = record { ready = false; reasons = "onstep_location_unavailable" ∷ [] }
judge_site sky c (some (lat, lon)) =
    let distance = sky.distance_m c.observer_lat c.observer_lon lat lon in
    let far = ltb (max c.location_warning_threshold_m 1200) distance in
    let hemisphere = not (same_sign c.observer_lat lat) in
    record {
      ready = not far && not hemisphere;
      reasons =
          note far "onstep_location_mismatch"
          ++ (note (not far && ltb c.location_warning_threshold_m distance)
                "onstep_location_readback_precision_limited"
              ++ note hemisphere "wrong_hemisphere_warning");
    }

-- `_location_readiness`
unfoldable pub location_readiness : Sky → OnStepSafetyConfig → M Readiness
location_readiness sky c = do site ← read_onstep_site sky; return (judge_site sky c site)

abbrev at_most : Option ℤ → ℤ → Bool
at_most none k = false
at_most (some x) k = leb_ℤ x k

abbrev at_least : Option ℤ → ℤ → Bool
at_least none k = false
at_least (some x) k = leb_ℤ k x

-- `_limit_readiness`; the configured limits are numbers, so they are never missing.
unfoldable pub limit_readiness : Sky → OnStepSafetyConfig → Mount → Readiness
limit_readiness sky c m =
    let missing = is_none m.horizon_deg || is_none m.overhead_deg in
    let broad =
      at_most m.horizon_deg (pos 0 -ℤ pos 5000000) && at_least m.overhead_deg (pos 89500000) in
    let reasons =
      note (is_none m.horizon_deg) "onstep_horizon_limit_missing"
      ++ (note (is_none m.overhead_deg) "onstep_overhead_limit_missing"
          ++ (note (broad && not c.allow_broad_onstep_limits) "firmware_limits_broad"
              ++ (note (c.require_onstep_limits && missing) "required_onstep_limits_unavailable"
                  ++ note (c.has_horizon_path && is_none sky.horizon)
                      "horizon_profile_missing"))) in
    record { ready = no_reasons reasons; reasons = reasons }

abbrev first_reason : String → List String → String
first_reason fallback [] = fallback
first_reason fallback (r ∷ l) = r

-- One of the three checks: an error with the first reason, if it is not ready.
unfoldable pub require : String → String → Readiness → M (Unit {0})
require command fallback r =
    if r.ready
    then return tt
    else raise (
        safety_error (record {
          reason = first_reason fallback r.reasons;
          command = command;
          severity = SafetySeverity.unknown;
        }))

-- `_raise_if_not_astronomy_ready`; all three are read before the first is judged.
unfoldable pub raise_if_not_astronomy_ready : Sky → OnStepSafetyConfig → String → M (Unit {0})
raise_if_not_astronomy_ready sky c command m =
    let time = time_readiness c m.clocks in
    let (r, m1) = location_readiness sky c m in
    elim r [
      | threw e ↦ (threw e, m1)
      | returned location ↦
          (do
            require command "time_not_trusted" time
            require command "location_unverified" location
            require command "limits_unverified" (limit_readiness sky c m1))
            m1
    ]
