-- ===== src/Requests/Values.antt =====
-- onstep_adapter/indi_transport.py: the requests that write texts and numbers. `format` stands for
-- Python's `format(value, ".12g")`, `float` for its `float`, in millionths.
use on_step_adapter.Base.{
  ℕ, ◌+◌, Bool, true, false, ◌&&◌, ◌||◌, not, Option, none, some, List, [], ◌∷◌, String, all,
  is_some, leb, if◌then◌else◌,
}
use on_step_adapter.Base.Int.{ℤ, negsuc, ◌-ℤ◌, abs}
use on_step_adapter.Base.Text.{Text, eq_text}
use on_step_adapter.Outcome.{ok, raised, value_error, runtime_error}
use on_step_adapter.Policy.{Real, finite, is_finite, value}
use on_step_adapter.Transport.{
  Kind, text_kind, number_kind, IndiProperty, new_values, new_number, Io, ◌>>=◌, ◌>>◌, gets, when,
  value_of, wait_property,
}
use on_step_adapter.Requests.{
  Judge, confirm, rounds, is_alert, is_ok, is_read_only, same_kind, is_writable, not_writable, send,
}

abbrev pub is_nil {ℓ} : {A : Type ℓ} → List A → Bool
is_nil [] = true
is_nil (x ∷ l) = false

abbrev close_to : Option Real → Option Real → Bool
close_to (some (finite a)) (some (finite b)) = leb (abs (a -ℤ b)) 1
close_to _ _ = false

-- `_matches_value`
unfoldable pub matches_value : (Text → Option Real) → Kind → Option Text → Text → Bool
matches_value float kind none requested = false
matches_value float text_kind (some observed) requested = eq_text observed requested
matches_value float kind (some observed) requested = close_to (float observed) (float requested)

-- What one update says of the requested values.
unfoldable pub written : (Text → Option Real) → Kind → List (String × Text) → Judge
written float kind values p =
    if is_alert p.state
    then some (raised (runtime_error "INDI rejected"))
    else if is_ok p.state
        && all (λ kv. matches_value float kind (value_of p.values kv.0) kv.1) values
    then some (ok p)
    else none

-- `values.keys() <= before.values.keys()`
unfoldable pub are_known : List (String × Text) → IndiProperty → Bool
are_known values p = all (λ kv. is_some (value_of p.values kv.0)) values

-- `_set_values`
unfoldable pub set_values :
    (Text → Option Real) → String → String → Kind → List (String × Text) → ℕ → Io IndiProperty
set_values float device name kind values timeout = do
  before ← wait_property device name timeout (negsuc 0)
  when (not (same_kind before.kind kind) || is_read_only before.permission || is_nil values)
      not_writable
  when (not (are_known values before)) (value_error "Unknown elements")
  send (new_values kind device name values)
  start ← gets (λ w. w)
  confirm (rounds start) device name (start.now + timeout) "INDI values were not confirmed"
      (written float kind values) before.revision

unfoldable pub set_text :
    (Text → Option Real) → String → String → List (String × Text) → ℕ → Io IndiProperty
set_text float device name values timeout = set_values float device name text_kind values timeout

formatted : (ℤ → Text) → List (String × Real) → List (String × Text)
formatted format [] = []
formatted format ((k, x) ∷ values) = (k, format (value x)) ∷ formatted format values

unfoldable pub set_number :
    (Text → Option Real) → (ℤ → Text) → String → String → List (String × Real) → ℕ → Io IndiProperty
unfolding formatted
set_number float format device name values timeout = do
  when (not (all (λ kv. is_finite kv.1) values)) (value_error "INDI number values must be finite")
  set_values float device name number_kind (formatted format values) timeout

abbrev names : List (String × ℤ) → List String
names [] = []
names ((k, x) ∷ values) = k ∷ names values

-- `issue_numbers`, for values that are finite: one request for all of them.
unfoldable pub issue_numbers : String → String → List (String × ℤ) → ℕ → Io (Unit {0})
issue_numbers device name values timeout = do
  when (is_nil values) (value_error "Finite INDI target values are required")
  before ← wait_property device name timeout (negsuc 0)
  when (not (is_writable number_kind (names values) before)) not_writable
  send (new_number device name values)
