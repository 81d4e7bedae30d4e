-- ===== src/Client/Ready.antt =====
-- What `connect` leaves, whether it returns or raises.
use on_step_adapter.Base.{
  Bool-cases, if◌then◌else◌, ℕ, ◌≡◌, refl, inl, inr, Bool, true, false, ◌&&◌, ◌||◌, not, Option,
  none, some, String, is_some, arith,
}
use on_step_adapter.Base.Int.{negsuc}
use on_step_adapter.Base.Text.{Text}
use on_step_adapter.Outcome.{Exc, Outcome, ok, raised, Outcome-cases}
use on_step_adapter.Policy.{Real, MeridianPolicy}
use on_step_adapter.Policy.Bounds.{IsSafe, derive_meridian_policy-IsSafe}
use on_step_adapter.Transport.{IndiProperty, World, is_open, wait_property}
use on_step_adapter.Requests.Connection.{connect, is_open-close}
use on_step_adapter.Config.{IndiRuntimeConfig}
use on_step_adapter.Client.Startup.{
  Client, IndiStartupStatus, is_on, policy_input, check_device, check_time, enable_flip, safe_flip,
  guard, derive, prepare_session, build, is_handled, close_and_raise, try_connect, connect_client,
}

abbrev is_granted : Option Bool → Bool
is_granted (some true) = true
is_granted _ = false

-- A policy that is safe for the two guards that the property of them says, as it is read in `w`.
pub record IsDerived (is_time : Text → Bool) (minutes : Text → Option Real) (device : String)
    (via_home : Bool) (timeout : ℕ) (config : Option IndiRuntimeConfig) (w : World)
    (p : MeridianPolicy) : Type 0 where
  pub limits : IndiProperty
  pub reported : (wait_property device "Minutes Past Meridian" timeout (negsuc 0) w).0 ≡ ok limits
  pub east : Real
  pub west : Real
  pub east_read : guard is_time minutes device via_home timeout limits "East" ≡ ok east
  pub west_read : guard is_time minutes device via_home timeout limits "West" ≡ ok west
  pub safe : IsSafe (policy_input config east west) p

-- The world in which `connect` reads the guards: behind the connection and its three checks.
abbrev pub checked :
    (Text → Bool) → (Text → Option Real) → String → Bool → ℕ → Outcome (Unit {0}) → World → World
checked is_time minutes device via_home timeout socket w =
    (safe_flip is_time minutes device via_home timeout
      (check_time is_time minutes device via_home timeout
        (check_device is_time minutes device via_home timeout (connect socket w).1).1).1).1

-- What a status that `connect` returns says of the client and of the mount.
pub record IsReady (is_time : Text → Bool) (minutes : Text → Option Real) (device : String)
    (via_home : Bool) (timeout : ℕ) (socket : Outcome (Unit {0}))
    (config : Option IndiRuntimeConfig) (w : World) (c : Client) (s : IndiStartupStatus)
    : Type 0 where
  pub derived :
      IsDerived is_time minutes device via_home timeout config
        (checked is_time minutes device via_home timeout socket w)
        s.meridian_policy
  pub flip : (not via_home || s.safe_meridian_flip_enabled) ≡ true
  pub policy : c.policy ≡ some s.meridian_policy
  pub supervised : c.supervised ≡ is_some config
  pub no_baseline : c.session.accepted ≡ false
  pub no_authority : is_granted c.home_authority ≡ false

build-ok :
    (config : Option IndiRuntimeConfig) (p : MeridianPolicy)
    → (build config p).0 ≡ ok tt
    → ((build config p).1.policy ≡ some p) × ((build config p).1.supervised ≡ is_some config)
unfolding build
build-ok none p h = (refl, refl)
build-ok (some c) p h = ground arith

build-blank :
    (config : Option IndiRuntimeConfig) (p : MeridianPolicy)
    → ((build config p).1.session.accepted ≡ false)
      × (is_granted (build config p).1.home_authority ≡ false)
unfolding build
build-blank none p = (refl, refl)
build-blank (some c) p = ground arith

build-raised :
    (config : Option IndiRuntimeConfig) (p : MeridianPolicy) (e : Exc)
    → (build config p).0 ≡ raised e
    → (build config p).1.supervised ≡ false
unfolding build
build-raised none p e h = cc
build-raised (some c) p e h = ground arith

module _ (is_time : Text → Bool) (minutes : Text → Option Real) (device : String) (via_home : Bool)
    (timeout : ℕ) where
  safe_flip-is_on :
      (w : World) (q : IndiProperty)
      → (safe_flip is_time minutes device via_home timeout w).0 ≡ ok q
      → (not via_home || is_on q) ≡ true
  unfolding safe_flip
  safe_flip-is_on w q h =
      let (k, w1) = wait_property device "SAFE_MERIDIAN_FLIP" timeout (negsuc 0) w in
      elim (Outcome-cases k) [
        | inr (e, z) ↦ absurd (ground arith)
        | inl (p, z) ↦
            elim (Outcome-cases (enable_flip is_time minutes device via_home timeout p w1).0) [
              | inr (e, u) ↦ ground arith
              | inl (r, u) ↦ ground arith
            ]
      ]

  derive-IsSafe :
      (config : Option IndiRuntimeConfig) (w : World) (p : MeridianPolicy)
      → (derive is_time minutes device via_home timeout config w).0 ≡ ok p
      → IsDerived is_time minutes device via_home timeout config w p
  unfolding derive
  derive-IsSafe config w p h =
      let (k, w1) = wait_property device "Minutes Past Meridian" timeout (negsuc 0) w in
      elim (Outcome-cases k) [
        | inr (e, z) ↦ absurd (ground arith)
        | inl (limits, z) ↦
            elim (Outcome-cases (guard is_time minutes device via_home timeout limits "East")) [
              | inr (e, u) ↦ absurd (ground arith)
              | inl (east, u) ↦
                  elim (Outcome-cases
                    (guard is_time minutes device via_home timeout limits "West")) [
                      | inr (e, v) ↦ absurd (ground arith)
                      | inl (west, v) ↦ record {
                        limits = limits;
                        reported = z;
                        east = east;
                        west = west;
                        east_read = u;
                        west_read = v;
                        safe =
                            derive_meridian_policy-IsSafe (policy_input config east west) p
                              (ground arith);
                      }
                    ]
            ]
      ]

  prepare_session-ok :
      (socket : Outcome (Unit {0})) (config : Option IndiRuntimeConfig) (w : World)
      (s : IndiStartupStatus)
      → (prepare_session is_time minutes device via_home timeout socket config w).0 ≡ ok s
      → ((not via_home || s.safe_meridian_flip_enabled) ≡ true)
        × IsDerived is_time minutes device via_home timeout config
            (checked is_time minutes device via_home timeout socket w)
            s.meridian_policy
  unfolding prepare_session
  prepare_session-ok socket config w s h =
      let (k0, w0) = connect socket w in
      let (k1, w1) = check_device is_time minutes device via_home timeout w0 in
      let (k2, w2) = check_time is_time minutes device via_home timeout w1 in
      let (k3, w3) = safe_flip is_time minutes device via_home timeout w2 in
      let (k4, w4) = derive is_time minutes device via_home timeout config w3 in
      elim (Outcome-cases k0) [
        | inr (e, z) ↦ absurd (ground arith)
        | inl (a, z0) ↦ elim (Outcome-cases k1) [
          | inr (e, z) ↦ absurd (ground arith)
          | inl (b, z1) ↦ elim (Outcome-cases k2) [
            | inr (e, z) ↦ absurd (ground arith)
            | inl (c, z2) ↦ elim (Outcome-cases k3) [
              | inr (e, z) ↦ absurd (ground arith)
              | inl (q, z3) ↦ elim (Outcome-cases k4) [
                | inr (e, z) ↦ absurd (ground arith)
                | inl (p, z4) ↦
                    let derived = derive-IsSafe config w3 p z4 in
                    let same : s
                        ≡ record { safe_meridian_flip_enabled = is_on q; meridian_policy = p } =
                      ground arith in
                    (ground (arith, same, safe_flip-is_on w2 q z3), rw same derived)
              ]
            ]
          ]
        ]
      ]

module _ (is_time : Text → Bool) (minutes : Text → Option Real) (device : String) (via_home : Bool)
    (timeout : ℕ) (socket closing : Outcome (Unit {0})) (config : Option IndiRuntimeConfig) where
  try_connect-ok :
      (w : World) (s : IndiStartupStatus)
      → (try_connect is_time minutes device via_home timeout socket closing config w).0 ≡ ok s
      → ((prepare_session is_time minutes device via_home timeout socket config w).0 ≡ ok s)
        × ((build config s.meridian_policy).0 ≡ ok tt)
        × ((try_connect is_time minutes device via_home timeout socket closing config w).1
            ≡ (build config s.meridian_policy).1)
  unfolding try_connect close_and_raise
  try_connect-ok w s h =
      let (r, w1) = prepare_session is_time minutes device via_home timeout socket config w in
      elim (Outcome-cases r) [
        | inr (e, z) ↦ absurd (ground arith)
        | inl (t, z) ↦ elim (Outcome-cases (build config t.meridian_policy).0) [
          | inr (e, u) ↦ absurd (ground arith)
          | inl (done, u) ↦ let same : t ≡ s = ground arith in ground (arith, same)
        ]
      ]

  try_connect-IsReady :
      (w : World) (s : IndiStartupStatus)
      → (try_connect is_time minutes device via_home timeout socket closing config w).0 ≡ ok s
      → IsReady is_time minutes device via_home timeout socket config w
          (try_connect is_time minutes device via_home timeout socket closing config w).1
          s
  try_connect-IsReady w s h =
      let (prepared, built, same) = try_connect-ok w s h in
      let (flip, derived) =
        prepare_session-ok is_time minutes device via_home timeout socket config w s prepared in
      let (policy, supervised) = build-ok config s.meridian_policy built in
      let (no_baseline, no_authority) = build-blank config s.meridian_policy in
      rw same (record {
        derived = derived;
        flip = flip;
        policy = policy;
        supervised = supervised;
        no_baseline = no_baseline;
        no_authority = no_authority;
      })

  try_connect-raised :
      (w : World) (e : Exc)
      → (try_connect is_time minutes device via_home timeout socket closing config w).0 ≡ raised e
      → is_handled e ≡ true
      → (is_open (try_connect is_time minutes device via_home timeout socket closing config w).2
          ≡ false)
        × ((try_connect is_time minutes device via_home timeout socket closing config
              w).1.supervised
            ≡ false)
        × ((try_connect is_time minutes device via_home timeout socket closing config
              w).1.session.accepted
            ≡ false)
  unfolding try_connect close_and_raise
  try_connect-raised w e h handled =
      let (r, w1) = prepare_session is_time minutes device via_home timeout socket config w in
      elim (Outcome-cases r) [
        | inr (x, z) ↦ ground (arith, is_open-close w1)
        | inl (t, z) ↦ elim (Outcome-cases (build config t.meridian_policy).0) [
          | inl (done, u) ↦ absurd (ground arith)
          | inr (x, u) ↦ ground (
            arith,
            is_open-close w1,
            build-raised config t.meridian_policy x u,
            build-blank config t.meridian_policy,
          )
        ]
      ]

  -- A connect that returns has derived a policy that is safe for the two guards that the property
  -- of them said when it was read behind the connection and its checks, has the flip over HOME
  -- enabled where it is asked for, keeps that policy, has a supervisor exactly if it has a
  -- configuration, and starts with no accepted baseline and no HOME authority.
  pub connect_client-IsReady :
      (c : Client) (w : World) (s : IndiStartupStatus)
      → (connect_client is_time minutes device via_home timeout socket closing config c w).0 ≡ ok s
      → IsReady is_time minutes device via_home timeout socket config w
          (connect_client is_time minutes device via_home timeout socket closing config c w).1
          s
  unfolding connect_client
  connect_client-IsReady c w s h = elim (Bool-cases (is_open w && is_some c.policy)) [
    | inl p ↦ absurd (ground arith)
    | inr p ↦ elim (Outcome-cases (if c.supervised then closing else ok tt)) [
      | inr (e, z) ↦ absurd (ground arith)
      | inl (a, z) ↦
          let tried : (try_connect is_time minutes device via_home timeout socket closing config
                w).0
              ≡ ok s =
            ground arith in
          rw (p, z) (try_connect-IsReady w s tried)
    ]
  ]

  -- Where a connect gets past its guard and the close of an old supervisor, and then raises an
  -- error of the classes that it handles, the transport is not open, no supervisor runs and no
  -- baseline is accepted, at whatever step it failed.
  pub failed_connect_closes :
      (c : Client) (w : World) (e : Exc)
      → (is_open w && is_some c.policy) ≡ false
      → closing ≡ ok tt
      → (connect_client is_time minutes device via_home timeout socket closing config c w).0
        ≡ raised e
      → is_handled e ≡ true
      → (is_open
            (connect_client is_time minutes device via_home timeout socket closing config c w).2
          ≡ false)
        × ((connect_client is_time minutes device via_home timeout socket closing config c
              w).1.supervised
            ≡ false)
        × ((connect_client is_time minutes device via_home timeout socket closing config c
              w).1.session.accepted
            ≡ false)
  unfolding connect_client
  failed_connect_closes c w e shut closed h handled = ground (arith, try_connect-raised w e)
