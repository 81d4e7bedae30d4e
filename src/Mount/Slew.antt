-- ===== src/Mount/Slew.antt =====
-- onstep_adapter/mount.py: a goto that the controller was given, from the checks to the commands.
use on_step_adapter.Base.{
  Bool, true, false, [], ◌∷◌, ◌++◌, ◌≡◌, arith, inl, inr, ap, ◌∙◌, if◌then◌else◌, Bool-cases,
}
use on_step_adapter.Base.Int.{ℤ, pos}
use on_step_adapter.Base.Text.{Text, codes, is_text}
use on_step_adapter.Bus.{send, raw_send, exchange}
use on_step_adapter.Mount.{
  Mount, OnStepSafetyConfig, Sky, returned, M, ◌>>=◌, ◌>>◌, >>-parts, >>=-parts, send_text, modify,
}
use on_step_adapter.Mount.Target.{check_target_safe}
use on_step_adapter.Mount.Routes.{goto, set_target, judge_slew, prepare_goto}
use on_step_adapter.Mount.Gate.{IsCleared, check_target_safe-IsCleared}

-- A command that returned was written on an open connection, or its connection is closed.
record Written (cmd t : Text) (m m1 : Mount) : Type 0 where
  pub stays : m1.bus.is_open ≡ m.bus.is_open
  pub wrote : m1.bus.sent ≡ (if m.bus.is_open then cmd ∷ m.bus.sent else m.bus.sent)
  pub silent : m.bus.is_open ≡ false → t ≡ []

send_text-Written :
    (cmd : Text) (m : Mount) {t : Text} {m1 : Mount}
    → send_text cmd m ≡ (returned t, m1)
    → Written cmd t m m1
unfolding send_text send raw_send exchange
send_text-Written cmd m h = elim (Bool-cases m.bus.is_open) [
  | inl on ↦ record { stays = ground arith; wrote = ground arith; silent = λ off. absurd (cc) }
  | inr off ↦ record { stays = ground arith; wrote = ground arith; silent = λ off. ground arith }
]

nothing_read : {t : Text} → t ≡ [] → is_text t "0" ≡ true → ⊥
nothing_read e zero = ground arith

judge_slew_lem :
    (t : Text) (m : Mount) {done : Bool} {m1 : Mount}
    → judge_slew t m ≡ (returned done, m1)
    → (is_text t "0" ≡ true) × (m1 ≡ m)
unfolding judge_slew
judge_slew_lem t m h = elim (Bool-cases (is_text t "0")) [
  | inl e ↦ (e, ground arith)
  | inr e ↦ absurd (ground arith)
]

abbrev pub ra_command : Sky → ℤ → Text
ra_command sky ra = codes ":Sr" ++ (sky.format_ra ra ++ codes "#")

abbrev pub dec_command : Sky → ℤ → Text
dec_command sky dec = codes ":Sd" ++ (sky.format_dec dec ++ codes "#")

prepare_goto_lem :
    (keep : Bool) (m : Mount) {m1 : Mount}
    → modify (prepare_goto keep) m ≡ (returned tt, m1)
    → m1.bus.sent ≡ m.bus.sent
unfolding prepare_goto
prepare_goto_lem true m h = ground arith
prepare_goto_lem false m h = ground arith

module _ (sky : Sky) (ra dec : ℤ) where
  set_target_sent :
      (cmd : Text) (m : Mount) {t : Text} {m1 : Mount}
      → set_target sky ra dec cmd m ≡ (returned t, m1)
      → is_text t "0" ≡ true
      → m1.bus.sent ≡ cmd ∷ dec_command sky dec ∷ ra_command sky ra ∷ m.bus.sent
  unfolding set_target
  set_target_sent cmd m h zero =
      let (a, m2, p, h2) =
        >>=-parts (send_text (ra_command sky ra))
          (λ a. do b ← send_text (dec_command sky dec); send_text cmd) m h in
      let (b, m3, q, h3) = >>=-parts (send_text (dec_command sky dec)) (λ b. send_text cmd) m2 h2 in
      let x = send_text-Written (ra_command sky ra) m p in
      let y = send_text-Written (dec_command sky dec) m2 q in
      let z = send_text-Written cmd m3 h3 in
      elim (Bool-cases m.bus.is_open) [
        | inl on ↦ ground arith
        | inr off ↦
            let off2 = x.stays ∙ off in
            let off3 = y.stays ∙ off2 in absurd (nothing_read (z.silent off3) zero)
      ]

module _ (sky : Sky) (c : OnStepSafetyConfig) where
  -- A goto that returns was allowed, and was given to the controller as it should be: the mount
  -- was not locked and its HOME confirmed; clock, site and limits were checked; the preflight
  -- that was sampled behind that check found a trusted position, no hard limit, the two pier
  -- sides in agreement and a mount that is neither parked nor slewing; the target lies within
  -- every limit of altitude, hour angle and declination in the state and at the time that the
  -- sample left; and from there the target and then the slew were written, and nothing else.
  pub goto-IsCleared :
      (ra dec : ℤ) (keep done : Bool) (m : Mount) {m1 : Mount}
      → goto sky c ra dec keep m ≡ (returned done, m1)
      → (at : Mount) × IsCleared sky c "goto" ra dec (pos 0) m at
        × (m1.bus.sent ≡ codes ":MS#" ∷ dec_command sky dec ∷ ra_command sky ra ∷ at.bus.sent)
  unfolding goto
  goto-IsCleared ra dec keep done m h =
      let slew : M Bool = (do t ← set_target sky ra dec (codes ":MS#"); judge_slew t) in
      let (at, checked, h1) =
        >>-parts (check_target_safe sky c "goto" ra dec (pos 0) true)
          (modify (prepare_goto keep) >> slew) m h in
      let (m2, prepared, h2) = >>-parts (modify (prepare_goto keep)) slew at h1 in
      let (t, m3, sent, h3) = >>=-parts (set_target sky ra dec (codes ":MS#")) judge_slew m2 h2 in
      let (zero, same) = judge_slew_lem t m3 h3 in
      let log = set_target_sent sky ra dec (codes ":MS#") m2 sent zero in
      (
        at,
        check_target_safe-IsCleared sky c "goto" ra dec (pos 0) m checked,
        ap (λ (k : Mount). k.bus.sent) same
            ∙ (log
                ∙ ap (λ l. codes ":MS#" ∷ dec_command sky dec ∷ ra_command sky ra ∷ l)
                    (prepare_goto_lem keep at prepared)),
      )
