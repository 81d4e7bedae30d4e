-- ===== src/Mount/Verdict.antt =====
-- onstep_adapter/mount.py: the judgement of a running tracking as a whole.
use on_step_adapter.Base.{
  Bool, true, false, ◌&&◌, ◌||◌, not, Option, List, [], ◌∷◌, ◌++◌, ◌≡◌, refl, arith, any, ◌∙◌, sym,
  ap, is_some, is_none, none, some,
}
use on_step_adapter.Base.Int.{ℤ}
use on_step_adapter.Gu.{Side}
use on_step_adapter.Serial.Limits.{Limits}
use on_step_adapter.Mount.{Mount, OnStepSafetyConfig, Sky, decoded, returned, return, >>=-parts}
use on_step_adapter.Mount.Authority.{mechanical_position_authority}
use on_step_adapter.Base.Text.{str_eq}
use on_step_adapter.Serial.Protection.{CounterweightState}
use on_step_adapter.Mount.Preflight.{
  Preflight, Blocker, Sample, judge_sample, motion_safety_preflight, take_sample, no_blockers, flag,
  is_mechanical, Conditions, blockers_of, conditions_of, weight_of, tracks_of, is_unknown,
  is_trusted, state_of, side_of, consistent, down_of, at_home_of,
}
use on_step_adapter.Mount.Runtime.{
  TrackingSafety, Validation, allowed, not_validated, violated, judge_tracking,
  current_tracking_safety, tracking_safety_after, tracking_verdict, validation_of, is_allowed,
  is_excused,
}

no_blockers-flag :
    (b : Bool) (x : Blocker) (l : List Blocker)
    → no_blockers (flag b x ++ l) ≡ (not b && no_blockers l)
no_blockers-flag true x l = refl
no_blockers-flag false x l = refl

no_blockers-append : (l k : List Blocker) → no_blockers (l ++ k) ≡ (no_blockers l && no_blockers k)
no_blockers-append [] k = refl
no_blockers-append (x ∷ l) k = refl

pub no_blockers→safe : (l : List Blocker) → no_blockers l ≡ true → any is_mechanical l ≡ false
no_blockers→safe [] h = refl
no_blockers→safe (x ∷ l) h = absurd (cc)

no_blockers_last : (b : Bool) (x : Blocker) → no_blockers (flag b x) ≡ not b
no_blockers_last true x = refl
no_blockers_last false x = refl

pub no_blockers-blockers_of :
    (k : Conditions)
    → no_blockers (blockers_of k) ≡ (
        not k.no_state
        && (not k.no_position
            && (not k.no_sidereal
                && (not k.untrusted
                    && (not k.unclear
                        && (not k.park_failure
                            && (not k.limit
                                && (not k.inconsistent
                                    && (not k.no_side
                                        && (not k.no_hour
                                            && (not k.hard_limit
                                                && (not k.down && not k.moving))))))))))))
unfolding blockers_of
no_blockers-blockers_of k = simp (no_blockers-flag, no_blockers_last)

-- A hard limit is a blocker.
hard_limit_blocks : (k : Conditions) → (k.hard_limit && no_blockers (blockers_of k)) ≡ false
hard_limit_blocks k = rw (no_blockers-blockers_of k) (ground arith)

-- What the judgement of a preflight relies on.
pub record IsSound (p : Preflight) : Type 0 where
  pub safe_if_clear : (no_blockers p.blockers && not p.mechanical_safe) ≡ false
  pub stop_is_blocked : (p.tracking_stop_required && no_blockers p.blockers) ≡ false

safe_lem : (l : List Blocker) → (no_blockers l && not (not (any is_mechanical l))) ≡ false
safe_lem [] = refl
safe_lem (x ∷ l) = refl

and_lem : (a b c : Bool) → (b && c) ≡ false → ((a && b) && c) ≡ false
and_lem a b c h = ground arith

judge_sample-IsSound :
    (c : OnStepSafetyConfig) (normal : Bool) (m : Mount) (initial : Option Side) (s : Sample)
    → IsSound (judge_sample c normal m initial s)
unfolding judge_sample conditions_of
judge_sample-IsSound c normal m initial s = record {
  safe_if_clear = safe_lem (blockers_of (conditions_of c normal m initial s));
  stop_is_blocked =
      and_lem (tracks_of m s) (weight_of c m initial s).hard_limit_reached _
        (hard_limit_blocks (conditions_of c normal m initial s));
}

-- No blocker for a tracking that runs, by what the sample read in `m`: the state, the position
-- and the hour angle are known, the position is trusted, the status shows neither a failed park
-- nor a limit, the two sides agree, one is known where the mount is not parked or at HOME, and
-- the counterweight is not at its hard limit.
abbrev pub found_clear : OnStepSafetyConfig → Mount → Option Side → Sample → Bool
found_clear c m initial s =
    is_some s.read_state
    && (not (is_unknown (state_of s.read_state))
        && (is_some s.position
            && (is_some s.hour
                && (is_trusted (mechanical_position_authority m).state
                    && (not (decoded (λ k. k.park_failed) m)
                        && (not (decoded (λ k. k.at_limit) m)
                            && (consistent s.direct s.derived
                                && ((is_some (side_of s) || down_of m s || at_home_of m)
                                    && not (weight_of c m initial s).hard_limit_reached))))))))

conditions_lem :
    (state position hour : Bool) (trusted unclear failed limit agree side parked home hard : Bool)
    → (not (not state)
        && (not (not position)
            && (not (position && not hour)
                && (not (not trusted)
                    && (not unclear
                        && (not failed
                            && (not limit
                                && (not (not agree)
                                    && (not (not side && not (parked || home))
                                        && (not (not hour && not (parked || home))
                                            && (not hard && (not false && not false))))))))))))
      ≡ (state
          && (not unclear
              && (position
                  && (hour
                      && (trusted
                          && (not failed
                              && (not limit
                                  && (agree && ((side || parked || home) && not hard)))))))))
conditions_lem state position hour trusted unclear failed limit agree side parked home hard =
    ground arith

is_none-not : {A : Type 0} (o : Option A) → is_none o ≡ not (is_some o)
is_none-not none = refl
is_none-not (some a) = refl

found_clear_lem :
    (c : OnStepSafetyConfig) (m : Mount) (initial : Option Side) (s : Sample)
    → no_blockers (blockers_of (conditions_of c false m initial s)) ≡ found_clear c m initial s
unfolding conditions_of
found_clear_lem c m initial s =
    rw
      (
        no_blockers-blockers_of (conditions_of c false m initial s),
        is_none-not s.read_state,
        is_none-not s.position,
        is_none-not s.hour,
        is_none-not (side_of s),
      )
      (conditions_lem (is_some s.read_state) (is_some s.position) (is_some s.hour)
        (is_trusted (mechanical_position_authority m).state) (is_unknown (state_of s.read_state))
        (decoded (λ k. k.park_failed) m) (decoded (λ k. k.at_limit) m)
        (consistent s.direct s.derived) (is_some (side_of s)) (down_of m s) (at_home_of m)
        (weight_of c m initial s).hard_limit_reached)

-- The target is safe at HOME, where it was allowed, and where only its hour angle was refused and
-- the counterweight is down.
abbrev pub is_target_safe : Bool → CounterweightState → Validation → Bool
is_target_safe true weight v = true
is_target_safe false weight allowed = true
is_target_safe false weight not_validated = false
is_target_safe false CounterweightState.normal (violated v) =
    str_eq v.reason "hour_angle_east" || str_eq v.reason "meridian_limit"
is_target_safe false weight (violated v) = false

stop_lem :
    (stop safe home target clear : Bool)
    → (home && not target) ≡ false
    → (clear && not safe) ≡ false
    → (stop && clear) ≡ false
    → ((stop || (not (clear && not (not home && not target)) || not target))
        ≡ not (clear && target))
      × ((safe && target && (clear && not (not home && not target))) ≡ (clear && target))
stop_lem stop safe home target clear g h k = (ground arith, ground arith)

home_target :
    (home : Bool) (weight : CounterweightState) (v : Validation)
    → (home && not (is_target_safe home weight v)) ≡ false
home_target true weight v = refl
home_target false weight v = refl

target_lem :
    (home : Bool) (weight : CounterweightState) (v : Validation)
    → (is_allowed v || is_excused weight v || home) ≡ is_target_safe home weight v
target_lem true weight not_validated = refl
target_lem true weight allowed = refl
target_lem true weight (violated v) = ground arith
target_lem false weight not_validated = refl
target_lem false weight allowed = refl
target_lem false weight (violated v) = elim weight [
  | CounterweightState.normal ↦ ground arith
  | _ ↦ ground arith
]

judged_stop :
    (c : OnStepSafetyConfig) (limits : Limits) (m : Mount) (p : Preflight) (v : Validation)
    → IsSound p
    → p.tracking ≡ true
    → (judge_tracking c limits m p v).tracking_stop_required
      ≡ not
          (no_blockers p.blockers && is_target_safe p.at_home p.counterweight.counterweight_state v)
unfolding judge_tracking
judged_stop c limits m p v sound tracks =
    let weight = p.counterweight.counterweight_state in
    rw (no_blockers-append, no_blockers_last, tracks, target_lem p.at_home weight v)
      (stop_lem p.tracking_stop_required p.mechanical_safe p.at_home
        (is_target_safe p.at_home weight v) (no_blockers p.blockers)
        (home_target p.at_home weight v) sound.safe_if_clear sound.stop_is_blocked).0

judged_safe :
    (c : OnStepSafetyConfig) (limits : Limits) (m : Mount) (p : Preflight) (v : Validation)
    → IsSound p
    → p.tracking ≡ true
    → (judge_tracking c limits m p v).tracking_safe_now
      ≡ (no_blockers p.blockers && is_target_safe p.at_home p.counterweight.counterweight_state v)
unfolding judge_tracking
judged_safe c limits m p v sound tracks =
    let weight = p.counterweight.counterweight_state in
    rw (no_blockers-append, no_blockers_last, tracks, target_lem p.at_home weight v)
      (stop_lem p.tracking_stop_required p.mechanical_safe p.at_home
        (is_target_safe p.at_home weight v) (no_blockers p.blockers)
        (home_target p.at_home weight v) sound.safe_if_clear sound.stop_is_blocked).1

-- What the run read, and what the verdict says of it: the sample that was taken, in which `m` stood
-- behind the read of the state, and the validation of the position that the sample found.
pub record IsVerdict (sky : Sky) (c : OnStepSafetyConfig) (limits : Limits) (margin : ℤ)
    (start end : Mount) (s : TrackingSafety) : Type 0 where
  pub seen : Mount
  pub initial : Option Side
  pub sample : Sample
  pub after : Mount
  pub sampled : take_sample sky c start ≡ (returned (seen, initial, sample), after)
  pub validation : Validation
  pub validated :
      validation_of sky c limits margin sample.position after ≡ (returned validation, end)
  pub stop :
      s.tracking_stop_required
      ≡ not (
          found_clear c seen initial sample
          && is_target_safe
              (at_home_of seen)
              (weight_of c seen initial sample).counterweight_state
              validation)
  pub safe : s.tracking_safe_now ≡ (
      found_clear c seen initial sample
      && is_target_safe
          (at_home_of seen)
          (weight_of c seen initial sample).counterweight_state
          validation)

sample_fields :
    (c : OnStepSafetyConfig) (m : Mount) (initial : Option Side) (s : Sample)
    → let p = judge_sample c false m initial s in
      (no_blockers p.blockers ≡ found_clear c m initial s)
      × (p.at_home ≡ at_home_of m)
      × (p.counterweight ≡ weight_of c m initial s)
      × (p.logical_position ≡ s.position)
unfolding judge_sample
sample_fields c m initial s = (found_clear_lem c m initial s, refl, refl, refl)

return-eq :
    {A : Type 0} (a : A) (s : Mount) {b : A} {t : Mount}
    → return a s ≡ (returned b, t)
    → (a ≡ b) × (s ≡ t)
return-eq a s h = (cc, cc)

tracking_lem :
    (c : OnStepSafetyConfig) (limits : Limits) (m : Mount) (p : Preflight) (v : Validation)
    → (judge_tracking c limits m p v).tracking ≡ p.tracking
unfolding judge_tracking
tracking_lem c limits m p v = refl

verdict_lem :
    (sky : Sky) (c : OnStepSafetyConfig) (limits : Limits) (margin : ℤ) (start after end m : Mount)
    (t : Mount × Option Side × Sample) (v : Validation) {s : TrackingSafety}
    → take_sample sky c start ≡ (returned t, after)
    → validation_of sky c limits margin (judge_sample c false t.0 t.1 t.2).logical_position after
      ≡ (returned v, end)
    → judge_tracking c limits m (judge_sample c false t.0 t.1 t.2) v ≡ s
    → s.tracking ≡ true
    → IsVerdict sky c limits margin start end s
verdict_lem sky c limits margin start after end m (seen, initial, sample) v sampled validated same
      tracks =
    let p = judge_sample c false seen initial sample in
    let (clear, home, weight, position) = sample_fields c seen initial sample in
    let on =
      sym (tracking_lem c limits m p v) ∙ ap (λ (k : TrackingSafety). k.tracking) same ∙ tracks in
    let sound = judge_sample-IsSound c false seen initial sample in
    let verdict : Bool =
      found_clear c seen initial sample
      && is_target_safe (at_home_of seen) (weight_of c seen initial sample).counterweight_state v in
    let found : (no_blockers p.blockers
          && is_target_safe p.at_home p.counterweight.counterweight_state v)
        ≡ verdict =
      rw (clear, home, weight) refl in
    record {
      seen = seen;
      initial = initial;
      sample = sample;
      after = after;
      sampled = sampled;
      validation = v;
      validated = ap (λ o. validation_of sky c limits margin o after) (sym position) ∙ validated;
      stop =
          ap (λ (k : TrackingSafety). k.tracking_stop_required) (sym same)
          ∙ judged_stop c limits m p v sound on
          ∙ ap not found;
      safe =
          ap (λ (k : TrackingSafety). k.tracking_safe_now) (sym same)
          ∙ judged_safe c limits m p v sound on
          ∙ found;
    }

-- A running tracking is to be stopped exactly when it is not safe now, and it is safe exactly
-- when what was sampled is clear and the target is safe. The sample is clear where the state, the
-- position and the hour angle were read, the state is not unknown, the position is trusted, the
-- status shows neither a failed park nor a limit, the two pier sides agree, one is known unless
-- the mount is parked or at HOME, and the counterweight is not at its hard limit. The target is
-- safe at HOME, where the validation of the sampled position allowed it, and where it refused
-- only the hour angle and the counterweight is down.
pub current_tracking_safety_stop :
    (sky : Sky) (c : OnStepSafetyConfig) (limits : Limits) (margin : ℤ) (m : Mount)
    {s : TrackingSafety} {m1 : Mount}
    → current_tracking_safety sky c limits margin m ≡ (returned s, m1)
    → s.tracking ≡ true
    → IsVerdict sky c limits margin m m1 s
unfolding current_tracking_safety tracking_safety_after tracking_verdict motion_safety_preflight
current_tracking_safety_stop sky c limits margin m {m1 = m1} h tracks =
    let after = tracking_safety_after sky c limits margin in
    let (p, m2, taken, h2) = >>=-parts (motion_safety_preflight sky c false) after m h in
    let (t, m3, sampled, reported) =
      >>=-parts (take_sample sky c) (λ t. return (judge_sample c false t.0 t.1 t.2)) m taken in
    let (v, m4, validated, h3) =
      >>=-parts (validation_of sky c limits margin p.logical_position)
        (tracking_verdict sky c limits p) m2 h2 in
    let (same_p, same_m) = return-eq (judge_sample c false t.0 t.1 t.2) m3 reported in
    let (same_s, same_end) = return-eq (judge_tracking c limits m4 p v) m4 h3 in
    verdict_lem sky c limits margin m m3 m1 m4 t v sampled
      (ap (λ (q : Preflight). validation_of sky c limits margin q.logical_position m3) same_p
        ∙ ap (validation_of sky c limits margin p.logical_position) same_m
        ∙ validated
        ∙ ap (λ k. (returned v, k)) same_end)
      (ap (λ q. judge_tracking c limits m4 q v) same_p ∙ same_s) tracks
