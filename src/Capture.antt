-- ===== src/Capture.antt =====
-- onstep_adapter/capture/stream.py: `CaptureWriter`, which turns the bytes seen on a connection
-- into records, and the marks of commands that must never be sent. What the XML parser made of a
-- chunk (`IndiElementDecoder`) is given: the elements it completed and whether it failed. Bytes
-- are code points, as latin-1 has them. The times of a record, the raw text of an element and the
-- decoded status that `gu_summary` adds are not modelled; records and marks are listed in the
-- order of time.
pub mod Framing
pub mod Chunks
use on_step_adapter.Base.{
  ℕ, zero, suc, ◌+◌, ◌-◌, Bool, true, false, ◌&&◌, ◌||◌, not, Option, none, some, List, [], ◌∷◌,
  ◌++◌, map, String, any, length, is_none, is_some, if◌then◌else◌, ◌==◌,
}
use on_step_adapter.Base.Text.{Text, codes, is_space, drop_while, eq_text, is_text}

abbrev pub starts_with : Text → Text → Bool
starts_with [] t = true
starts_with (c ∷ p) [] = false
starts_with (c ∷ p) (d ∷ t) = c == d && starts_with p t

abbrev is_on : Text → List (Text × Text) → Bool
is_on element = any (λ v. eq_text element v.0 && is_text v.1 "On")

-- `FORBIDDEN_INDI`, in its order
unfoldable pub forbidden_indi : Text → List (Text × Text) → Option String
forbidden_indi prop values =
    if is_text prop "TELESCOPE_HOME" && is_on (codes "SET") values
    then some "SET HOME"
    else if is_text prop "ON_COORD_SET" && is_on (codes "SYNC") values
    then some "SYNC"
    else if is_text prop "TELESCOPE_PARK_OPTION"
    then some "SET PARK"
    else none

-- `FORBIDDEN_LX200`, in its order
unfoldable pub forbidden_lx200 : Text → Option String
forbidden_lx200 command =
    if starts_with (codes ":hQ") command
    then some "SET PARK (:hQ#)"
    else if starts_with (codes ":hF") command
    then some "SET HOME (:hF#)"
    else if starts_with (codes ":CS") command
    then some "SYNC (:CS#)"
    else if starts_with (codes ":CM") command
    then some "SYNC (:CM#)"
    else none

-- An element of the INDI stream; `values` are its named children with their stripped texts.
pub record Node : Type 0 where
  pub tag : Text
  pub device : Text
  pub name : Text
  pub state : Text
  pub values : List (Text × Text)

pub data Direction : Type 0 where
  c2s s2c : Direction

pub data Protocol : Type 0 where
  indi lx200 : Protocol

-- A property as the capture has seen it.
pub record Prop : Type 0 where
  pub kind : Text
  pub values : List (Text × Text)
  pub revision : ℕ

pub data Entry : Type 0 where
  connected : ℕ → Protocol → Entry
  closed : ℕ → Entry
  sent : ℕ → Node → Option String → Entry
  message : ℕ → Node → Entry
  deleted : ℕ → Node → Entry
  -- the property after the element, and what the element changed
  received : ℕ → Node → Prop → List (Text × Text) → Entry
  decode_error : ℕ → Direction → Entry
  lx_reply : ℕ → Text → Entry
  lx_command : ℕ → Text → Option String → Entry
  lx_ack : ℕ → Entry

pub record Writer : Type 0 where
  pub protocol : ℕ → Option Protocol
  pub lx_buffer : ℕ → Text
  pub props : ℕ → Text → Text → Option Prop
  pub forbidden : List Entry
  pub records : List Entry

abbrev record_entry : Entry → Writer → Writer
record_entry e w = record w { records = w.records ++ e ∷ [] }

-- A record whose label is some mark is kept in the list of marks as well.
abbrev record_marked : Option String → Entry → Writer → Writer
record_marked none e w = record_entry e w
record_marked (some label) e w = record_entry e (record w { forbidden = w.forbidden ++ e ∷ [] })

unfoldable pub connect : ℕ → Protocol → Writer → Writer
connect conn p w =
    record_entry (connected conn p)
      (record w { protocol = λ k. if k == conn then some p else w.protocol k })

unfoldable pub close : ℕ → Writer → Writer
close conn w = if is_some (w.protocol conn) then record_entry (closed conn) w else w

unfoldable pub send : ℕ → Node → Writer → Writer
send conn node w =
    let label =
      if starts_with (codes "new") node.tag then forbidden_indi node.name node.values else none in
    record_marked label (sent conn node label) w

-- `dict.get`, and an update of a dict
abbrev pub lookup : Text → List (Text × Text) → Option Text
lookup k [] = none
lookup k (v ∷ l) = if eq_text k v.0 then some v.1 else lookup k l

abbrev put : Text → Text → List (Text × Text) → List (Text × Text)
put k x [] = (k, x) ∷ []
put k x (v ∷ l) = let rest = put k x l in if eq_text k v.0 then (v.0, x) ∷ l else v ∷ rest

abbrev pub merged : List (Text × Text) → List (Text × Text) → List (Text × Text)
merged old [] = old
merged old (v ∷ l) = merged (put v.0 v.1 old) l

abbrev is_value : Option Text → Text → Bool
is_value none x = false
is_value (some y) x = eq_text y x

abbrev changes : List (Text × Text) → List (Text × Text) → List (Text × Text)
changes old [] = []
changes old (v ∷ l) =
    let rest = changes old l in if is_value (lookup v.0 old) v.1 then rest else v ∷ rest

abbrev take : ℕ → Text → Text
take zero t = []
take (suc n) [] = []
take (suc n) (c ∷ t) = c ∷ take n t

abbrev pub drop : ℕ → Text → Text
drop zero t = t
drop (suc n) [] = []
drop (suc n) (c ∷ t) = drop n t

abbrev ends_with : Text → Text → Bool
ends_with p t = if eq_text (drop (length t - length p) t) p then true else false

-- `tag[3:-6] if tag.endswith("Vector") else tag`
abbrev kind_of : Text → Text
kind_of tag = if ends_with (codes "Vector") tag then drop 3 (take (length tag - 6) tag) else tag

abbrev new_prop : Text → Prop
new_prop tag = record { kind = kind_of tag; values = []; revision = 0 }

-- The property that an element is applied to: a definition starts it again.
unfoldable pub known : Text → Option Prop → Prop
known tag none = new_prop tag
known tag (some p) = if starts_with (codes "def") tag then new_prop tag else p

unfoldable pub updated : Node → Prop → Prop
updated node p = record p { values = merged p.values node.values; revision = suc p.revision }

abbrev set_prop : ℕ → Text → Text → Option Prop → Writer → Writer
set_prop conn device name p w = record w {
  props = λ k d n. if k == conn && eq_text d device && eq_text n name then p else w.props k d n;
}

unfoldable pub recv : ℕ → Node → Writer → Writer
recv conn node w =
    if is_text node.tag "message"
    then record_entry (message conn node) w
    else if is_text node.tag "delProperty"
    then record_entry (deleted conn node) (set_prop conn node.device node.name none w)
    else let p = known node.tag (w.props conn node.device node.name) in
      record_entry (received conn node (updated node p) (changes p.values node.values))
        (set_prop conn node.device node.name (some (updated node p)) w)

-- What the loop of `_lx200` takes off its buffer.
pub data Frame : Type 0 where
  ack : Frame
  command : Text → Frame

-- The text up to the first `#` and with it, and the text behind it.
unfoldable pub cut : Text → Option (Text × Text)
cut [] = none
cut (c ∷ t) =
    let rest = cut t in
    if c == b'#'
    then some (b'#' ∷ [], t)
    else elim rest [ none ↦ none | some (a, b) ↦ some (c ∷ a, b) ]

abbrev pub after : Frame → List Frame × Text → List Frame × Text
after f (l, t) = (f ∷ l, t)

-- The loop of `_lx200`: the frames of a buffer, and what is left of it.
unfoldable pub frames : ℕ → Text → List Frame × Text
frames zero buffer = ([], buffer)
frames (suc fuel) [] = ([], [])
frames (suc fuel) (c ∷ t) = elim (c == 6) [
  | true ↦ after ack (frames fuel t)
  | false ↦ elim (cut (c ∷ t)) [
    | none ↦ ([], c ∷ t)
    | some (a, b) ↦ after (command a) (frames fuel b)
  ]
]

unfoldable pub record_frame : ℕ → Writer → Frame → Writer
record_frame conn w ack = record_entry (lx_ack conn) w
record_frame conn w (command t) =
    let label = forbidden_lx200 (drop_while is_space t) in
    record_marked label (lx_command conn t label) w

unfoldable pub record_frames : ℕ → Writer → List Frame → Writer
record_frames conn w [] = w
record_frames conn w (f ∷ l) = record_frames conn (record_frame conn w f) l

-- `buffer[-256:]`
abbrev pub last_256 : Text → Text
last_256 t = drop (length t - 256) t

abbrev set_buffer : ℕ → Text → Writer → Writer
set_buffer conn t w = record w { lx_buffer = λ k. if k == conn then t else w.lx_buffer k }

-- The records of the frames, and the end of the rest for the next chunk.
unfoldable pub keep_frames : ℕ → List Frame × Text → Writer → Writer
keep_frames conn (l, left) w = set_buffer conn (last_256 left) (record_frames conn w l)

unfoldable pub lx200_bytes : ℕ → Direction → Text → Writer → Writer
lx200_bytes conn s2c text w = record_entry (lx_reply conn text) w
lx200_bytes conn c2s text w =
    let buffer = w.lx_buffer conn ++ text in
    keep_frames conn (frames (suc (length buffer)) buffer) w

unfoldable pub elements : ℕ → Direction → List Node → Writer → Writer
elements conn direction [] w = w
elements conn c2s (n ∷ l) w = elements conn c2s l (send conn n w)
elements conn s2c (n ∷ l) w = elements conn s2c l (recv conn n w)

abbrev is_lx200 : Option Protocol → Bool
is_lx200 (some lx200) = true
is_lx200 _ = false

-- `data`: `nodes` and `failed` are what the connection's parser makes of the chunk.
unfoldable pub data_seen : ℕ → Direction → Text → List Node → Bool → Writer → Writer
data_seen conn direction bytes nodes failed w =
    if is_lx200 (w.protocol conn)
    then lx200_bytes conn direction bytes w
    else let w1 = elements conn direction nodes w in
      if failed then record_entry (decode_error conn direction) w1 else w1
