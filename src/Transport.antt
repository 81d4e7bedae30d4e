-- ===== src/Transport.antt =====
-- onstep_adapter/indi_transport.py: the property store, the reader thread and the requests on one
-- socket, with the rest of the world as a schedule. A `World` holds the transport's fields, the
-- monotonic clock in milliseconds, and what is still to come: `inbox` lists what happens on other
-- threads (a parsed vector, the reader's end, a stop request), each with the earliest time at
-- which it does, and `send_faults` how long the next calls of `sendall` block, and what they
-- raise. A blocking call takes from the inbox what happens before its deadline. `sent` lists the
-- requests on the wire, the latest first. The XML parser, the sockets and the optional trace are
-- not modelled; a number is sent as the value itself, before `format`. A property's state, which
-- the code compares after `lower()`, its kind and its permission are the values that the code
-- tells apart.

pub mod Waiting
use on_step_adapter.Base.{
  ℕ, suc, ◌+◌, ◌-◌, max, Bool, true, false, ◌&&◌, ◌||◌, not, Option, none, some, List, [], ◌∷◌,
  ◌++◌, String, ltb, leb, get_or, if◌then◌else◌,
}
use on_step_adapter.Base.Int.{ℤ, pos, negsuc, ltb_ℤ}
use on_step_adapter.Base.Text.{Text, str_eq, is_text}
use on_step_adapter.Outcome.{
  Exc, Outcome, ok, raised, connection_error, timeout_error, value_error, runtime_error,
}

pub data Kind : Type 0 where
  switch_kind number_kind text_kind other_kind : Kind

pub data State : Type 0 where
  idle ok_state busy alert other_state : State

pub data Permission : Type 0 where
  read_only writable : Permission

pub record IndiProperty : Type 0 where
  pub device : String
  pub name : String
  pub kind : Kind
  pub state : State
  pub permission : Permission
  pub values : List (String × Text)
  pub received_at : ℕ
  pub revision : ℤ

-- A `def…Vector` or `set…Vector` element; an attribute that is missing is `none`.
pub record Vector : Type 0 where
  pub device : Option String
  pub name : Option String
  pub kind : Kind
  pub state : Option State
  pub permission : Option Permission
  pub values : List (String × Text)

pub data Event : Type 0 where
  vector : Vector → Event
  reader_failed reader_died stop_request : Event

pub data Request : Type 0 where
  get_properties : Request
  new_switch : String → String → String → Request
  new_number : String → String → List (String × ℤ) → Request
  new_values : Kind → String → String → List (String × Text) → Request

pub record World : Type 0 where
  pub now : ℕ
  pub properties : List IndiProperty
  pub closed : Bool
  pub has_socket : Bool
  pub failure : Bool
  pub reader_alive : Bool
  pub last_revision : ℕ
  pub stop_requested : Bool
  pub inbox : List (ℕ × Event)
  pub send_faults : List (ℕ × Option Exc)
  pub sent : List Request

abbrev pub Io : Type 0 → Type 0
Io A = World → Outcome A × World

infixl 5 ◌>>=◌ ◌>>◌
abbrev pub ◌>>=◌ : {A B : Type 0} → Io A → (A → Io B) → Io B
◌>>=◌ m f w = let (r, w') = m w in elim r [ ok a ↦ f a w' | raised e ↦ (raised e, w') ]

abbrev pub ◌>>◌ : {A B : Type 0} → Io A → Io B → Io B
m >> k = m >>= λ _. k

abbrev pub return : {A : Type 0} → A → Io A
return a w = (ok a, w)

abbrev pub raise : {A : Type 0} → Exc → Io A
raise e w = (raised e, w)

abbrev pub gets : {A : Type 0} → (World → A) → Io A
gets f w = (ok (f w), w)

abbrev pub when : Bool → Exc → Io (Unit {0})
when true e = raise e
when false e = return tt

-- `dict.get`
unfoldable pub value_of : List (String × Text) → String → Option Text
value_of [] k = none
value_of ((j, v) ∷ d) k = if str_eq j k then some v else value_of d k

-- `d[k] = v`
unfoldable pub set_value : String → Text → List (String × Text) → List (String × Text)
set_value k v [] = (k, v) ∷ []
set_value k v ((j, u) ∷ d) = if str_eq j k then (j, v) ∷ d else (j, u) ∷ set_value k v d

-- `d.update(values)`
unfoldable pub update : List (String × Text) → List (String × Text) → List (String × Text)
unfolding set_value
update d [] = d
update d ((k, v) ∷ rest) = update (set_value k v d) rest

abbrev pub is_value : List (String × Text) → String → String → Bool
is_value d k v = elim (value_of d k) [ some u ↦ is_text u v | none ↦ false ]

unfoldable pub lookup : List IndiProperty → String → String → Option IndiProperty
lookup [] device name = none
lookup (p ∷ ps) device name =
    if str_eq p.device device && str_eq p.name name then some p else lookup ps device name

unfoldable pub store : IndiProperty → List IndiProperty → List IndiProperty
store p [] = p ∷ []
store p (q ∷ ps) =
    if str_eq q.device p.device && str_eq q.name p.name then p ∷ ps else q ∷ store p ps

abbrev pub is_empty : String → Bool
is_empty s = str_eq s ""

-- The property that `_record` builds of a vector and of what was known before.
unfoldable pub merged : Vector → String → String → Option IndiProperty → ℕ → ℕ → IndiProperty
unfolding update
merged v device name previous now revision = record {
  device = device;
  name = name;
  kind = v.kind;
  state = get_or v.state (elim previous [ some p ↦ p.state | none ↦ idle ]);
  permission = get_or v.permission (elim previous [ some p ↦ p.permission | none ↦ read_only ]);
  values = update (elim previous [ some p ↦ p.values | none ↦ [] ]) v.values;
  received_at = now;
  revision = pos revision;
}

record_named : Vector → String → String → World → World
record_named v device name w = if is_empty device || is_empty name then w else record w {
  properties =
      store (merged v device name (lookup w.properties device name) w.now (suc w.last_revision))
        w.properties;
  last_revision = suc w.last_revision;
}

-- `_record`: a vector with no device or no name is dropped.
unfoldable pub record_vector : Vector → World → World
unfolding record_named
record_vector v w = elim v.device [
  | none ↦ w
  | some device ↦ elim v.name [ none ↦ w | some name ↦ record_named v device name w ]
]

-- Whether the loop of `_read_loop` still runs.
abbrev is_reading : World → Bool
is_reading w = not w.closed && w.reader_alive && not w.failure

-- What another thread does. The loop's `finally` sets `_failure` unless the transport was closed.
unfoldable pub arrive : Event → World → World
arrive (vector v) w = if is_reading w then record_vector v w else w
arrive reader_failed w =
    if is_reading w then record w { failure = true; reader_alive = false } else w
arrive reader_died w = record w { reader_alive = false }
arrive stop_request w = record w { stop_requested = true }

-- `_reader_failure_locked`: a reader that ended silently counts as failed from now on.
unfoldable pub latch : World → World
latch w = if not w.closed && not w.reader_alive then record w { failure = true } else w

-- The property `is_open`.
unfoldable pub is_open : World → Bool
unfolding latch
is_open w = not w.closed && w.has_socket && not (latch w).failure

unfoldable pub get_property : String → String → World → Option IndiProperty
get_property device name w = lookup w.properties device name

-- `current.revision if current is not None else -1`
abbrev pub revision_of : Option IndiProperty → ℤ
revision_of none = negsuc 0
revision_of (some p) = p.revision

unfoldable pub newer : ℤ → Option IndiProperty → Option IndiProperty
newer after none = none
newer after (some p) = if ltb_ℤ after p.revision then some p else none

-- What one round of `wait_property` returns or raises before it waits.
unfoldable pub round : String → String → ℤ → ℕ → World → Option (Outcome IndiProperty)
round device name after deadline w =
    if w.failure
    then some (raised (connection_error "INDI reader failed"))
    else elim (newer after (get_property device name w)) [
      | some p ↦ some (ok p)
      | none ↦
          if w.closed
          then some (raised (connection_error "INDI connection closed"))
          else if leb deadline w.now
          then some (raised (timeout_error "INDI property did not update"))
          else none
    ]

-- The world when the clock shows t, unless it is later already.
abbrev pub at_time : ℕ → World → World
at_time t w = record w { now = max w.now t }

-- What other threads do while this one is blocked for some time.
unfoldable pub pass_until : ℕ → List (ℕ × Event) → World → World
pass_until target [] w = at_time target w
pass_until target ((t, e) ∷ inbox) w = elim (leb t target) [
  | true ↦ pass_until target inbox (arrive e (record w { now = max w.now t; inbox = inbox }))
  | false ↦ at_time target w
]

unfoldable pub pass : ℕ → World → World
pass d w = pass_until (w.now + d) w.inbox w

-- The loop of `wait_property`. With nothing to come before the deadline it waits until then.
unfoldable pub wait_loop :
    String → String → ℤ → ℕ → List (ℕ × Event) → World → Outcome IndiProperty × World
wait_loop device name after deadline [] w =
    let w = latch w in
    elim (round device name after deadline w) [
      | some r ↦ (r, w)
      | none ↦ (raised (timeout_error "INDI property did not update"), at_time deadline w)
    ]
wait_loop device name after deadline ((t, e) ∷ inbox) w =
    let v = latch w in
    elim (round device name after deadline v) [
      | some r ↦ (r, v)
      | none ↦ elim (ltb t deadline) [
        | true ↦
            wait_loop device name after deadline inbox
              (arrive e (record v { now = max v.now t; inbox = inbox }))
        | false ↦ (raised (timeout_error "INDI property did not update"), at_time deadline v)
      ]
    ]

unfoldable pub wait_property : String → String → ℕ → ℤ → Io IndiProperty
wait_property device name timeout after w = wait_loop device name after (w.now + timeout) w.inbox w
