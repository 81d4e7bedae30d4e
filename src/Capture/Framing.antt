-- ===== src/Capture/Framing.antt =====
-- onstep_adapter/capture/stream.py: the loop of `_lx200` against an automaton that reads one byte
-- at a time.
use mathlib.Core.List.{append_assoc, append-nil}
use on_step_adapter.Base.{
  ℕ, zero, suc, ◌<◌, true, false, ◌≡◌, refl, sym, ap, ◌∙◌, ◌⊎◌, arith, Option, none, some, List, [],
  ◌∷◌, ◌++◌, length, if◌then◌else◌, ◌==◌, Bool-cases, inl, inr, Option-cases,
}
use on_step_adapter.Base.Text.{Text}
use on_step_adapter.Capture.{Frame, ack, command, cut, after, frames}

-- The automaton: the first argument is what it has read of a command.
unfoldable pub scan : Text → Text → List Frame × Text
scan p [] = ([], p)
scan [] (c ∷ t) =
    let rest = scan [] t in
    let longer = scan (c ∷ []) t in
    if c == 6
    then after ack rest
    else if c == b'#'
    then after (command (b'#' ∷ [])) rest
    else longer
scan (d ∷ p) (c ∷ t) =
    let rest = scan [] t in
    let longer = scan (d ∷ p ++ c ∷ []) t in
    if c == b'#' then after (command (d ∷ p ++ b'#' ∷ [])) rest else longer

-- What it does from a place inside a command on.
abbrev resumed : Text → Text → Option (Text × Text) → List Frame × Text
resumed p t none = ([], p ++ t)
resumed p t (some (a, b)) = after (command (p ++ a)) (scan [] b)

-- One more byte on the way to a `#`.
abbrev behind : ℕ → Option (Text × Text) → Option (Text × Text)
behind c none = none
behind c (some (a, b)) = some (c ∷ a, b)

resumed-behind :
    (p : Text) (c : ℕ) (t : Text) (o : Option (Text × Text))
    → resumed (p ++ c ∷ []) t o ≡ resumed p (c ∷ t) (behind c o)
resumed-behind p c t none = ap (λ x. ([], x)) (append_assoc p (c ∷ []) t)
resumed-behind p c t (some (a, b)) =
    ap (λ x. after (command x) (scan [] b)) (append_assoc p (c ∷ []) a)

scan-cut : (d : ℕ) (p t : Text) → scan (d ∷ p) t ≡ resumed (d ∷ p) t (cut t)
unfolding scan cut
scan-cut d p [] = ap (λ x. ([], d ∷ x)) (sym (append-nil p))
scan-cut d p (c ∷ t) =
    ground (arith, scan-cut d (p ++ c ∷ []) t, resumed-behind (d ∷ p) c t (cut t))

scan-cut_first :
    (c : ℕ) (t : Text) → (c == 6) ≡ false → scan [] (c ∷ t) ≡ resumed [] (c ∷ t) (cut (c ∷ t))
unfolding scan cut
scan-cut_first c t h = ground (arith, scan-cut c [] t, resumed-behind [] c t (cut t))

cut_shorter : (t a b : Text) → cut t ≡ some (a, b) → length b < length t
unfolding cut
cut_shorter [] a b h = absurd (cc)
cut_shorter (c ∷ t) a b h = elim (Option-cases (cut t)) [
  | inl e ↦ ground arith
  | inr ((a', b'), e) ↦ ground (arith, cut_shorter t a' b')
]

scan_ack : (c : ℕ) (t : Text) → (c == 6) ≡ true → scan [] (c ∷ t) ≡ after ack (scan [] t)
unfolding scan
scan_ack c t h = ground arith

pub scan_nil : scan [] [] ≡ ([], [])
unfolding scan
scan_nil = refl

-- One round of the loop on fuel is enough for each byte, and the loop does what the automaton does.
pub frames_lem : (fuel : ℕ) (t : Text) → length t < fuel → frames fuel t ≡ scan [] t
unfolding frames
frames_lem zero t h = absurd (omega arith)
frames_lem (suc fuel) [] h = sym scan_nil
frames_lem (suc fuel) (c ∷ t) h = elim (Bool-cases (c == 6)) [
  | inl e ↦ ground (arith, scan_ack c t, frames_lem fuel t)
  | inr e ↦ elim (Option-cases (cut (c ∷ t))) [
    | inl o ↦ ground (arith, scan-cut_first c t)
    | inr ((a, b), o) ↦
        ground (arith, scan-cut_first c t, cut_shorter (c ∷ t) a b, frames_lem fuel b)
  ]
]

abbrev joined : List Frame × Text → Text → List Frame × Text
joined (l, p) t = let (k, q) = scan p t in (l ++ k, q)

pub scan-append : (p a b : Text) → scan p (a ++ b) ≡ joined (scan p a) b
unfolding scan
scan-append p [] b = refl
scan-append [] (c ∷ a) b = ground (arith, scan-append [] a b, scan-append (c ∷ []) a b)
scan-append (d ∷ p) (c ∷ a) b =
    ground (arith, scan-append [] a b, scan-append (d ∷ p ++ c ∷ []) a b)

-- What the automaton has read of a command starts a command again when it is read anew.
abbrev pub IsPartial : Text → Type 0
IsPartial p = scan [] p ≡ ([], p)

IsPartial-single : (c : ℕ) → (c == 6) ≡ false → (c == b'#') ≡ false → IsPartial (c ∷ [])
unfolding scan
IsPartial-single c h k = ground arith

scan_end : (d c : ℕ) (p t : Text) → (c == b'#') ≡ true → (scan (d ∷ p) (c ∷ t)).1 ≡ (scan [] t).1
unfolding scan
scan_end d c p t k = ground arith

scan_longer :
    (d c : ℕ) (p t : Text) → (c == b'#') ≡ false → scan (d ∷ p) (c ∷ t) ≡ scan (d ∷ p ++ c ∷ []) t
unfolding scan
scan_longer d c p t k = ground arith

-- The first byte of a command, or one that is a command.
scan_first :
    (c : ℕ) (t : Text)
    → ((scan [] (c ∷ t)).1 ≡ (scan [] t).1)
      ⊎ (((c == 6) ≡ false) × ((c == b'#') ≡ false) × (scan [] (c ∷ t) ≡ scan (c ∷ []) t))
unfolding scan
scan_first c t = elim (Bool-cases (c == 6)) [
  | inl e ↦ inl (ground arith)
  | inr e ↦ elim (Bool-cases (c == b'#')) [
    | inl k ↦ inl (ground arith)
    | inr k ↦ inr (e, k, ground arith)
  ]
]

pub scan_one : (p : Text) → scan p [] ≡ ([], p)
unfolding scan
scan_one [] = refl
scan_one (d ∷ p) = refl

IsPartial-longer :
    (d c : ℕ) (p : Text) → IsPartial (d ∷ p) → (c == b'#') ≡ false → IsPartial (d ∷ p ++ c ∷ [])
IsPartial-longer d c p h k =
    scan-append [] (d ∷ p) (c ∷ [])
    ∙ ap (λ x. joined x (c ∷ [])) h
    ∙ ap (λ x. ([] ++ x.0, x.1)) (scan_longer d c p [] k ∙ scan_one (d ∷ p ++ c ∷ []))

pub scan-IsPartial : (p t : Text) → IsPartial p → IsPartial (scan p t).1
scan-IsPartial p [] h = rw (scan_one p) h
scan-IsPartial [] (c ∷ t) h = elim (scan_first c t) [
  | inl e ↦ rw (e) (scan-IsPartial [] t h)
  | inr (e, k, more) ↦ rw (more) (scan-IsPartial (c ∷ []) t (IsPartial-single c e k))
]
scan-IsPartial (d ∷ p) (c ∷ t) h = elim (Bool-cases (c == b'#')) [
  | inl k ↦ rw (scan_end d c p t k) (scan-IsPartial [] t scan_nil)
  | inr k ↦
      rw (scan_longer d c p t k) (scan-IsPartial (d ∷ p ++ c ∷ []) t (IsPartial-longer d c p h k))
]

pub scan-partial : (p t : Text) → IsPartial p → scan [] (p ++ t) ≡ scan p t
scan-partial p t h = scan-append [] p t ∙ ap (λ x. joined x t) h
