-- ===== src/Capture/Chunks.antt =====
-- onstep_adapter/capture/stream.py: the commands of an LX200 stream, however it is cut into chunks.
use mathlib.Core.List.{append_assoc, append-nil}
use on_step_adapter.Base.{
  ℕ, suc, ◌-◌, ◌≤◌, max, Bool, false, ◌≡◌, refl, sym, ap, ◌∙◌, arith, some, List, [], ◌∷◌, ◌++◌,
  map, length, length-append, if◌then◌else◌, ◌==◌, inl, inr, keep_if, is_some, Option-cases,
}
use on_step_adapter.Base.Text.{Text, is_space, drop_while}
use on_step_adapter.Capture.{
  Frame, ack, command, Writer, Entry, lx_ack, lx_command, lx200, c2s, forbidden_lx200, record_frame,
  record_frames, lx200_bytes, data_seen, last_256, drop, keep_frames,
}
use on_step_adapter.Capture.Framing.{
  scan, IsPartial, scan-IsPartial, scan-partial, frames_lem, scan_one, scan_nil, scan-append,
}

abbrev pub concat : List Text → Text
concat [] = []
concat (t ∷ l) = t ++ concat l

-- The most bytes without a `#` between them, with `n` of them before the text.
abbrev gap : ℕ → Text → ℕ
gap n [] = n
gap n (c ∷ t) =
    let short = gap 0 t in let long = gap (suc n) t in if c == b'#' then max n short else long

gap_up : (n : ℕ) (t : Text) → n ≤ gap n t
gap_up n [] = omega arith
gap_up n (c ∷ t) = ground (arith, gap_up (suc n) t)

gap_mono : (m n : ℕ) (t : Text) → m ≤ n → gap m t ≤ gap n t
gap_mono m n [] h = h
gap_mono m n (c ∷ t) h = ground (arith, gap_mono (suc m) (suc n) t (omega arith))

gap-scan : (p t rest : Text) → gap (length (scan p t).1) rest ≤ gap (length p) (t ++ rest)
unfolding scan
gap-scan p [] rest = omega arith
gap-scan [] (c ∷ t) rest =
    ground
      (arith, gap-scan [] t rest, gap-scan (c ∷ []) t rest, gap_mono 0 1 (t ++ rest) (omega arith))
gap-scan (d ∷ p) (c ∷ t) rest =
    ground (arith, gap-scan [] t rest, gap-scan (d ∷ p ++ c ∷ []) t rest, length-append p (c ∷ []))

drop_zero : (t : Text) → drop 0 t ≡ t
drop_zero t = refl

-- What a frame is recorded as, and whether it is marked.
abbrev pub entry_of : ℕ → Frame → Entry
entry_of conn ack = lx_ack conn
entry_of conn (command t) = lx_command conn t (forbidden_lx200 (drop_while is_space t))

abbrev pub is_marked : Entry → Bool
is_marked (lx_command conn t label) = is_some label
is_marked _ = false

-- What has been recorded of some frames on a connection.
record IsRecorded (conn : ℕ) (l : List Frame) (w v : Writer) : Type 0 where
  all_recorded : v.records ≡ w.records ++ map (entry_of conn) l
  marked_kept : v.forbidden ≡ w.forbidden ++ keep_if is_marked (map (entry_of conn) l)
  same_protocol : v.protocol ≡ w.protocol

frame_lem :
    (conn : ℕ) (w : Writer) (f : Frame)
    → ((record_frame conn w f).records ≡ w.records ++ entry_of conn f ∷ [])
      × ((record_frame conn w f).forbidden
          ≡ w.forbidden ++ keep_if is_marked (entry_of conn f ∷ []))
      × ((record_frame conn w f).protocol ≡ w.protocol)
unfolding record_frame
frame_lem conn w ack = (refl, sym (append-nil w.forbidden), refl)
frame_lem conn w (command t) = elim (Option-cases (forbidden_lx200 (drop_while is_space t))) [
  | inl e ↦ ground (arith, append-nil w.forbidden)
  | inr (label, e) ↦ ground arith
]

sub_zero : (n : ℕ) → n ≤ 256 → n - 256 ≡ 0
sub_zero n h = omega arith

keep_one :
    (e : Entry) (l : List Entry)
    → keep_if is_marked (e ∷ []) ++ keep_if is_marked l ≡ keep_if is_marked (e ∷ l)
keep_one e l = ground arith

IsRecorded-none : (conn : ℕ) (w : Writer) → IsRecorded conn [] w w
IsRecorded-none conn w = record {
  all_recorded = sym (append-nil w.records);
  marked_kept = sym (append-nil w.forbidden);
  same_protocol = refl;
}

record_frames-IsRecorded :
    (conn : ℕ) (l : List Frame) (w : Writer) → IsRecorded conn l w (record_frames conn w l)
unfolding record_frames
record_frames-IsRecorded conn [] w = IsRecorded-none conn w
record_frames-IsRecorded conn (f ∷ l) w =
    let h = record_frames-IsRecorded conn l (record_frame conn w f) in
    let (r, k, p) = frame_lem conn w f in
    record {
      all_recorded =
          h.all_recorded
          ∙ ap (λ x. x ++ map (entry_of conn) l) r
          ∙ append_assoc w.records (entry_of conn f ∷ []) (map (entry_of conn) l);
      marked_kept =
          h.marked_kept
          ∙ ap (λ x. x ++ keep_if is_marked (map (entry_of conn) l)) k
          ∙ append_assoc w.forbidden (keep_if is_marked (entry_of conn f ∷ []))
              (keep_if is_marked (map (entry_of conn) l))
          ∙ ap (λ x. w.forbidden ++ x) (keep_one (entry_of conn f) (map (entry_of conn) l));
      same_protocol = h.same_protocol ∙ p;
    }

-- One chunk behind a partial command.
chunk_lem :
    (conn : ℕ) (p t : Text) (w : Writer)
    → w.protocol conn ≡ some lx200
    → w.lx_buffer conn ≡ p
    → IsPartial p
    → data_seen conn c2s t [] false w ≡ keep_frames conn (scan p t) w
unfolding data_seen lx200_bytes
chunk_lem conn p t w on held partial =
    rw (on, held)
      (ap (λ x. keep_frames conn x w)
        (frames_lem (suc (length (p ++ t))) (p ++ t) (omega arith) ∙ scan-partial p t partial))

kept_short : (t : Text) → length t ≤ 256 → last_256 t ≡ t
kept_short t h = rw (sub_zero (length t) h) refl

keep_frames_lem :
    (conn : ℕ) (l : List Frame) (left : Text) (w : Writer)
    → length left ≤ 256
    → IsRecorded conn l w (keep_frames conn (l, left) w)
      × ((keep_frames conn (l, left) w).lx_buffer conn ≡ left)
unfolding keep_frames
keep_frames_lem conn l left w short =
    let h = record_frames-IsRecorded conn l w in
    (
      record {
        all_recorded = h.all_recorded;
        marked_kept = h.marked_kept;
        same_protocol = h.same_protocol;
      },
      ground (arith, kept_short left),
    )

-- The chunks of the client's stream, in their order.
unfoldable pub feed : ℕ → List Text → Writer → Writer
feed conn [] w = w
feed conn (t ∷ l) w = feed conn l (data_seen conn c2s t [] false w)

map-append : {A B : Type 0} (f : A → B) (l k : List A) → map f (l ++ k) ≡ map f l ++ map f k
map-append f [] k = refl
map-append f (x ∷ l) k = ap (λ y. f x ∷ y) (map-append f l k)

keep_if-append :
    {A : Type 0} (test : A → Bool) (l k : List A)
    → keep_if test (l ++ k) ≡ keep_if test l ++ keep_if test k
keep_if-append test [] k = refl
keep_if-append test (x ∷ l) k = ground (arith, keep_if-append test l k)

IsRecorded-cat :
    (conn : ℕ) (l k : List Frame) (u v w : Writer)
    → IsRecorded conn l u v
    → IsRecorded conn k v w
    → IsRecorded conn (l ++ k) u w
IsRecorded-cat conn l k u v w h g =
    let f = entry_of conn in
    let both = map-append f l k in
    record {
      all_recorded =
          g.all_recorded
          ∙ ap (λ x. x ++ map f k) h.all_recorded
          ∙ append_assoc u.records (map f l) (map f k)
          ∙ ap (λ x. u.records ++ x) (sym both);
      marked_kept =
          g.marked_kept
          ∙ ap (λ x. x ++ keep_if is_marked (map f k)) h.marked_kept
          ∙ append_assoc u.forbidden (keep_if is_marked (map f l)) (keep_if is_marked (map f k))
          ∙ ap (λ x. u.forbidden ++ x)
              (sym (keep_if-append is_marked (map f l) (map f k))
                ∙ ap (keep_if is_marked) (sym both));
      same_protocol = g.same_protocol ∙ h.same_protocol;
    }

feed-IsRecorded :
    (conn : ℕ) (cs : List Text) (p : Text) (w : Writer)
    → w.protocol conn ≡ some lx200
    → w.lx_buffer conn ≡ p
    → IsPartial p
    → gap (length p) (concat cs) ≤ 256
    → IsRecorded conn (scan p (concat cs)).0 w (feed conn cs w)
unfolding feed
feed-IsRecorded conn [] p w on held partial short = rw (scan_one p) (IsRecorded-none conn w)
feed-IsRecorded conn (t ∷ cs) p w on held partial short =
    let (l, left) = scan p t in
    let fits = gap-scan p t (concat cs) in
    let (h, e) =
      keep_frames_lem conn l left w
        (omega (arith, gap_up (length left) (concat cs), fits, short)) in
    let g =
      feed-IsRecorded conn cs left (keep_frames conn (l, left) w)
        (ap (λ x. x conn) h.same_protocol ∙ on) e (scan-IsPartial p t partial)
        (omega (arith, fits, short)) in
    rw (scan-append p t (concat cs), chunk_lem conn p t w on held partial)
      (IsRecorded-cat conn l (scan left (concat cs)).0 w (keep_frames conn (l, left) w)
        (feed conn cs (keep_frames conn (l, left) w)) h g)

-- On a new LX200 connection whose client never sends more than 256 bytes without a `#`, the
-- records of its commands and the marks of the forbidden ones are those of the whole stream read
-- one byte at a time, in its order, however the stream was cut into chunks.
pub commands_of_chunks :
    (conn : ℕ) (cs : List Text) (w : Writer)
    → w.protocol conn ≡ some lx200
    → w.lx_buffer conn ≡ []
    → gap 0 (concat cs) ≤ 256
    → ((feed conn cs w).records ≡ w.records ++ map (entry_of conn) (scan [] (concat cs)).0)
      × ((feed conn cs w).forbidden
          ≡ w.forbidden ++ keep_if is_marked (map (entry_of conn) (scan [] (concat cs)).0))
commands_of_chunks conn cs w on new short =
    let h = feed-IsRecorded conn cs [] w on new scan_nil short in (h.all_recorded, h.marked_kept)
