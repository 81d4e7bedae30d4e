-- ===== src/Home/Route.antt =====
-- The route from PARK to HOME, and the authority that it leaves.
use on_step_adapter.Base.{ℕ, ◌≡◌, inl, inr, false, String, arith}
use on_step_adapter.Outcome.{ok, Outcome-cases}
use on_step_adapter.Snapshot.{IndiMountSnapshot}
use on_step_adapter.Transport.{World, Io}
use on_step_adapter.Home.{
  IndiHomeRouteResult, unpark, move_to_home, move_to_position, is_home, park_to_home,
}

module _ (device : String) (reader : Io IndiMountSnapshot) (timeout : ℕ) (w : World) where
  -- `unpark` withdraws the HOME authority on every path, exceptions included.
  unpark_authority : (unpark device reader timeout w).1 ≡ false
  unfolding unpark
  unpark_authority = ground arith

  -- A `park_to_home` that returns leaves the HOME authority that its result reports, whichever of
  -- its steps failed.
  park_to_home_authority :
      (home_timeout : ℕ) (h : IndiHomeRouteResult)
      → (park_to_home device reader timeout home_timeout w).0 ≡ ok h
      → (park_to_home device reader timeout home_timeout w).1 ≡ h.authority_established
  unfolding park_to_home move_to_home
  park_to_home_authority home_timeout h done =
      let (r, authority, w1) = unpark device reader timeout w in
      let moved = move_to_position device false "TELESCOPE_HOME" "GO" is_home home_timeout w1 in
      elim (Outcome-cases r) [
        | inr (e, q) ↦ ground (arith, unpark_authority)
        | inl (u, q) ↦ elim (Outcome-cases moved.0) [
          | inr (e, z) ↦ ground (arith, unpark_authority)
          | inl (k, z) ↦ ground (arith, unpark_authority)
        ]
      ]
