-- ===== src/Outcome.antt =====
-- What a Python call ends with: a value, or an exception that is named by its class. Of a message
-- built with an f-string only the fixed text is kept.
use on_step_adapter.Base.{String, Bool, true, false, ◌≡◌, refl, ◌⊎◌, inl, inr}

pub data Exc : Type 0 where
  connection_error runtime_error timeout_error value_error : String → Exc
  key_error permission_error : String → Exc
  motion_stopped : Exc
  -- no exception of the program: a loop of the model that was given too little fuel
  out_of_fuel : Exc
  -- any other exception, an OSError of the socket for one
  other_error : Exc

pub data Outcome {ℓ} (A : Type ℓ) : Type ℓ where
  ok : A → Outcome A
  raised : Exc → Outcome A

infixl 5 ◌>>=◌ ◌>>◌
abbrev pub ◌>>=◌ {ℓ κ} : {A : Type ℓ} {B : Type κ} → Outcome A → (A → Outcome B) → Outcome B
ok a >>= f = f a
raised e >>= f = raised e

abbrev pub ◌>>◌ {ℓ} : {B : Type ℓ} → Outcome (Unit {0}) → Outcome B → Outcome B
m >> k = m >>= λ _. k

-- `if c: raise e`
abbrev pub raise_if : Bool → Exc → Outcome (Unit {0})
raise_if true e = raised e
raise_if false e = ok tt

-- The classes that most handlers catch: (ConnectionError, RuntimeError, TimeoutError, ValueError).
abbrev pub is_caught : Exc → Bool
is_caught (connection_error _) = true
is_caught (runtime_error _) = true
is_caught (timeout_error _) = true
is_caught (value_error _) = true
is_caught _ = false

pub Outcome-cases {ℓ} :
    {A : Type ℓ} (r : Outcome A) → ((a : A) × (r ≡ ok a)) ⊎ ((e : Exc) × (r ≡ raised e))
Outcome-cases (ok a) = inl (a, refl)
Outcome-cases (raised e) = inr (e, refl)

abbrev pub succeeded {ℓ} : {A : Type ℓ} → Outcome A → Bool
succeeded (ok a) = true
succeeded (raised e) = false

-- An exception of these classes, or none.
abbrev pub is_soft_outcome {ℓ} : {A : Type ℓ} → Outcome A → Bool
is_soft_outcome (ok a) = true
is_soft_outcome (raised e) = is_caught e
