-- ===== src/Axis/Move.antt =====
-- onstep_adapter/indi_axis_motion.py: `move`, its two loops and the handler round them.
use on_step_adapter.Base.{
  ℕ, zero, suc, ◌+◌, ◌/◌, max, Bool, true, false, ◌&&◌, ◌||◌, not, none, some, [], ◌∷◌, String, ltb,
  leb, if◌then◌else◌,
}
use on_step_adapter.Base.Int.{ℤ, ◌+ℤ◌, ◌-ℤ◌, abs, pos, mod_ℤ, ltb_ℤ, leb_ℤ}
use on_step_adapter.Outcome.{
  Exc, Outcome, ok, raised, runtime_error, timeout_error, motion_stopped, out_of_fuel, other_error,
}
use on_step_adapter.Policy.{Real}
use on_step_adapter.Snapshot.{IndiMountSnapshot}
use on_step_adapter.Status.{full_turn}
use on_step_adapter.Transport.{World, Io}
use on_step_adapter.Requests.{set_switch, issue_switch}
use on_step_adapter.Requests.Values.{issue_numbers}
use on_step_adapter.Axis.{
  is_ra, IndiAxisMoveResult, check, MoveRequest, validate_request, arrival_tolerance, pause,
  same_side, Start, delta_of, coordinates_of, arrived, braking, stale, moved, judge_view,
}

module _ (observe : Io IndiMountSnapshot) (stoppable : Bool) (q : MoveRequest) (b : Start) where
  -- The loop up to the arrival: the last observation and the samples.
  unfoldable pub drive_loop : ℕ → ℕ → ℤ → Bool → ℕ → Io (IndiMountSnapshot × ℕ)
  drive_loop deadline zero revision seen count w = (raised out_of_fuel, w)
  drive_loop deadline (suc fuel) revision seen count w = elim (leb deadline w.now) [
    | true ↦ (raised (timeout_error "Axis move did not reach its finite target"), w)
    | false ↦
        let (p, w1) = pause stoppable q.poll w in
        elim p [
          | raised e ↦ (raised e, w1)
          | ok slept ↦
              let (r, w2) = observe w1 in
              elim r [
                | raised e ↦ (raised e, w2)
                | ok s ↦ elim (judge_view q.axis q.offset b seen revision s) [
                  | raised e ↦ (raised e, w2)
                  | ok (counted, verdict) ↦
                      let count' : ℕ = if counted then suc count else count in
                      let revision' : ℤ = if counted then s.coordinates_revision else revision in
                      elim verdict [
                        | arrived ↦ (ok (s, count'), w2)
                        | braking ↦ drive_loop deadline fuel revision' true count' w2
                        | stale ↦ drive_loop deadline fuel revision' seen count' w2
                        | moved ↦ drive_loop deadline fuel revision' seen count' w2
                      ]
                ]
              ]
        ]
  ]

  -- The loop that confirms the stop: the last observation that is newer than those before.
  unfoldable pub settle_loop : ℕ → ℕ → ℤ → ℕ → IndiMountSnapshot → Io IndiMountSnapshot
  settle_loop deadline zero revision stopped latest w = (raised out_of_fuel, w)
  settle_loop deadline (suc fuel) revision stopped latest w = elim (leb 2 stopped) [
    | true ↦ (ok latest, w)
    | false ↦ elim (leb deadline w.now) [
      | true ↦ (raised (timeout_error "Axis move tracking-off was not confirmed"), w)
      | false ↦
          let (p, w1) = pause stoppable (max q.poll 150) w in
          elim p [
            | raised e ↦ (raised e, w1)
            | ok slept ↦
                let (r, w2) = observe w1 in
                elim r [
                  | raised e ↦ (raised e, w2)
                  | ok s ↦ elim (check true false s) [
                    | raised e ↦ (raised e, w2)
                    | ok checked ↦ elim (same_side s.pier_side (some b.side)) [
                      | false ↦ (raised (runtime_error "Pier side changed after axis move"), w2)
                      | true ↦ elim (leb_ℤ s.status_revision revision) [
                        | true ↦ settle_loop deadline fuel revision stopped latest w2
                        | false ↦
                            settle_loop deadline fuel s.status_revision
                              (if not s.tracking && not s.slewing then suc stopped else 0) s w2
                      ]
                    ]
                  ]
                ]
          ]
    ]
  ]

  -- The result, of the last observation.
  unfoldable pub conclude : IndiMountSnapshot → ℕ → Outcome IndiAxisMoveResult
  conclude s count = elim (coordinates_of s) [
    | raised e ↦ raised e
    | ok (ra_hours, dec_deg) ↦
        let measured = delta_of q.axis b ra_hours dec_deg in
        if ltb (arrival_tolerance q.offset) (abs (measured -ℤ q.offset))
        then raised (runtime_error "Axis move ended outside its scaled verification tolerance")
        else ok (record {
          axis = q.axis;
          requested_deg = q.offset;
          measured_deg = measured;
          initial_ra = b.ra_hours;
          final_ra = ra_hours;
          initial_dec_deg = b.dec_deg;
          final_dec_deg = dec_deg;
          pier_side = b.side;
          stop_confirmed = true;
          samples = count;
        })
  ]

  -- The tracking-off behind the arrival, its confirmation and the result.
  unfoldable pub settle : String → IndiMountSnapshot → ℕ → Io IndiAxisMoveResult
  settle device s count w =
      let (r, w1) = issue_switch device "TELESCOPE_TRACK_STATE" "TRACK_OFF" 3000 w in
      elim r [
        | raised e ↦ (raised e, w1)
        | ok revision ↦
            let (z, w2) = settle_loop (w1.now + 5000) 36 s.status_revision 0 s w1 in
            elim z [ raised e ↦ (raised e, w2) | ok last ↦ (conclude last count, w2) ]
      ]

  abbrev pub target_ra : ℤ
  target_ra = pos (mod_ℤ (if is_ra q.axis then b.ra_hours -ℤ q.offset else b.ra_hours) full_turn)

  abbrev pub target_dec : ℤ
  target_dec = if is_ra q.axis then b.dec_deg else b.dec_deg +ℤ q.offset

  -- Enough rounds: each pauses for 50 ms at least.
  abbrev pub drive_rounds : ℕ
  drive_rounds = q.timeout / 50 + 3

  -- Everything behind the point at which a failure stops the mount.
  unfoldable pub drive : String → Io IndiAxisMoveResult
  drive device w =
      let (r, w1) =
        issue_numbers device "EQUATORIAL_EOD_COORD" (("RA", target_ra) ∷ ("DEC", target_dec) ∷ [])
          3000 w in
      elim r [
        | raised e ↦ (raised e, w1)
        | ok sent ↦
            let (z, w2) =
              drive_loop (w1.now + q.timeout) drive_rounds b.view.coordinates_revision false 0 w1 in
            elim z [ raised e ↦ (raised e, w2) | ok (s, count) ↦ settle device s count w2 ]
      ]

-- The local bounds of the constructor.
pub record Bounds : Type 0 where
  pub min_alt : ℤ
  pub min_dec : ℤ
  pub max_dec : ℤ

-- The first observation, where it passes `_check` and has what is read of it.
unfoldable pub start_of : IndiMountSnapshot → Outcome Start
start_of s = elim (check false true s) [
  | raised e ↦ raised e
  | ok checked ↦ elim (coordinates_of s) [
    | raised e ↦ raised e
    | ok (ra_hours, dec_deg) ↦ elim s.pier_side [
      | none ↦ raised other_error
      | some side ↦ ok (record { view = s; ra_hours = ra_hours; dec_deg = dec_deg; side = side })
    ]
  ]
]

module _ (altitude : ℤ → ℤ → ℤ) (bounds : Bounds) (observe : Io IndiMountSnapshot)
    (stoppable : Bool) (q : MoveRequest) where
  abbrev is_too_low : Start → Bool
  is_too_low b = elim b.view.ha_deg [
    | none ↦ false
    | some ha ↦
        ltb_ℤ
          (altitude (if is_ra q.axis then ha +ℤ q.offset else ha)
            (target_dec observe stoppable q b))
          bounds.min_alt
  ]

  -- Whether the target stays within the bounds.
  unfoldable pub check_target : Start → Outcome Start
  check_target b =
      if ltb_ℤ (target_dec observe stoppable q b) bounds.min_dec
        || ltb_ℤ bounds.max_dec (target_dec observe stoppable q b)
      then raised (runtime_error "Projected DEC leaves the local movement bound")
      else if is_too_low b
      then raised (runtime_error "Projected altitude leaves the local movement bound")
      else ok b

  -- Everything up to that point.
  unfoldable pub prepare : String → Io Start
  prepare device w =
      let (r, w1) = observe w in
      elim r [
        | raised e ↦ (raised e, w1)
        | ok s ↦ elim (start_of s) [
          | raised e ↦ (raised e, w1)
          | ok b0 ↦ elim (check_target b0) [
            | raised e ↦ (raised e, w1)
            | ok b ↦ elim (stoppable && w1.stop_requested) [
              | true ↦ (raised motion_stopped, w1)
              | false ↦
                  let (z, w2) = set_switch device "ON_COORD_SET" "SLEW" 3000 w1 in
                  elim z [ raised e ↦ (raised e, w2) | ok p ↦ (ok b, w2) ]
            ]
          ]
        ]
      ]

abbrev pub is_motion_stopped : Exc → Bool
is_motion_stopped motion_stopped = true
is_motion_stopped _ = false

-- The `except` blocks, once the command went out: a stop was sent by who asked for it; any other
-- failure stops the mount.
unfoldable pub stop_on_failure :
    Io (Unit {0}) → Outcome IndiAxisMoveResult × World → Outcome IndiAxisMoveResult × World
stop_on_failure emergency_stop (ok r, w) = (ok r, w)
stop_on_failure emergency_stop (raised e, w) = elim (is_motion_stopped e) [
  | true ↦ (raised e, w)
  | false ↦
      let (r, w') = emergency_stop w in
      elim r [ raised x ↦ (raised x, w') | ok done ↦ (raised e, w') ]
]

module _ (altitude : ℤ → ℤ → ℤ) (bounds : Bounds) (observe : Io IndiMountSnapshot)
    (emergency_stop : Io (Unit {0})) (device : String) (stoppable : Bool) where
  unfoldable pub move_request : MoveRequest → Io IndiAxisMoveResult
  move_request q w =
      let (r, w1) = prepare altitude bounds observe stoppable q device w in
      elim r [
        | raised e ↦ (raised e, w1)
        | ok b ↦ stop_on_failure emergency_stop (drive observe stoppable q b device w1)
      ]

  -- `move`
  unfoldable pub move : Bool → String → Real → Real → Real → String → Io IndiAxisMoveResult
  move busy name offset timeout poll mode w =
      elim (validate_request name offset timeout poll mode) [
        | raised e ↦ (raised e, w)
        | ok q ↦ elim busy [
          | true ↦ (raised (runtime_error "Another axis motion is active"), w)
          | false ↦ move_request q w
        ]
      ]
