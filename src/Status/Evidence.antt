-- ===== src/Status/Evidence.antt =====
-- What a snapshot may claim.
use on_step_adapter.Base.{ℕ, ◌≡◌, refl, Bool, true, false, Option, none, some, [], String, arith}
use on_step_adapter.Base.Int.{ℤ, pos, ◌≤ℤ◌, ◌<ℤ◌, ◌-ℤ◌, ◌+ℤ◌, mod_ℤ-lt}
use on_step_adapter.Base.Text.{Text}
use on_step_adapter.Policy.{Real}
use on_step_adapter.Transport.{World}
use on_step_adapter.Status.{
  Revisions, live, set_default, first_seen, hour_angle, angle_of, snapshot_of, read, half_turn,
  full_turn,
}

-- An hour angle in the half-open range of one turn.
pub record IsHourAngle (a : ℤ) : Type 0 where
  pub low : pos 0 ≤ℤ (a +ℤ pos half_turn)
  pub high : a <ℤ pos half_turn

hour_angle-IsHourAngle : (lst ra : ℤ) → IsHourAngle (hour_angle lst ra)
unfolding hour_angle ◌-ℤ◌ ◌+ℤ◌
hour_angle-IsHourAngle lst ra = ground (arith, mod_ℤ-lt (lst -ℤ ra +ℤ pos half_turn) full_turn)

angle_of-IsHourAngle :
    (authority coords : Bool) (ra lst : Option ℤ) (a : ℤ)
    → angle_of authority coords ra lst ≡ some a
    → (authority ≡ true) × (coords ≡ true) × IsHourAngle a
unfolding angle_of
angle_of-IsHourAngle true true (some ra) (some lst) a h =
    (refl, refl, ground (arith, hour_angle-IsHourAngle lst ra))
angle_of-IsHourAngle true true (some ra) none a h = cc
angle_of-IsHourAngle true true none lst a h = cc
angle_of-IsHourAngle true false ra lst a h = cc
angle_of-IsHourAngle false coords ra lst a h = cc

module _ (float : Text → Option Real) (lst : ℕ → Option ℤ) (device : String) (max_age : ℕ) where
  -- A snapshot shows an hour angle only with an accepted baseline and live coordinates, and then
  -- one from -180 degrees, included, to 180 degrees, excluded.
  read-IsHourAngle :
      (authority authority_home : Bool) (seen : Revisions) (w : World) (a : ℤ)
      → (read float lst device max_age authority authority_home seen w).0.ha_deg ≡ some a
      → ((read float lst device max_age authority authority_home seen w).0.time_site_authority
          ≡ true)
        × ((read float lst device max_age authority authority_home seen w).0.coordinates_live
            ≡ true)
        × IsHourAngle a
  unfolding read snapshot_of
  read-IsHourAngle authority authority_home seen w a h = angle_of-IsHourAngle _ _ _ _ a h

  -- The first reading of a reader is never live: neither its status nor its coordinates count as
  -- live, and it shows no hour angle, whatever the store holds.
  first_read_not_live :
      (authority authority_home : Bool) (w : World)
      → let s = (read float lst device max_age authority authority_home [] w).0 in
        (s.status_live ≡ false) × (s.coordinates_live ≡ false) × (s.ha_deg ≡ none)
  unfolding read snapshot_of live set_default first_seen angle_of
  first_read_not_live authority authority_home w = ground arith
