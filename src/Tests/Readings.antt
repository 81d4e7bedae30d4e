-- ===== src/Tests/Readings.antt =====
-- The status reader at concrete inputs.
use on_step_adapter.Base.{ℕ, ◌≡◌, refl, true, Option, none, some, [], ◌∷◌}
use on_step_adapter.Base.Int.{ℤ, pos, ◌+ℤ◌, ◌-ℤ◌, scale, mod_ℤ}
use on_step_adapter.Base.Text.{Text}
use on_step_adapter.Policy.{Real, finite}
use on_step_adapter.Transport.{
  World, ok_state, read_only, number_kind, get_property, lookup, value_of,
}
use on_step_adapter.Status.{
  Revisions, read, live, set_default, first_seen, number, angle_of, hour_angle, snapshot_of,
}
use on_step_adapter.Tests.{world_with, status_property, still}

-- Texts are read by their first code point, in millionths.
abbrev float : Text → Option Real
float [] = none
float (c ∷ t) = some (finite (pos c))

abbrev sidereal : ℕ → Option ℤ
sidereal now = some (pos 1000)

abbrev pointing : World
pointing =
    world_with
      (status_property still (pos 5)
        ∷ (record {
          device = "OnStep";
          name = "EQUATORIAL_EOD_COORD";
          kind = number_kind;
          state = ok_state;
          permission = read_only;
          values = ("RA", 20 ∷ []) ∷ ("DEC", 30 ∷ []) ∷ [];
          received_at = 0;
          revision = pos 6;
        })
        ∷ [])
      []

-- The revisions of an earlier reading.
abbrev earlier : Revisions
earlier = ("OnStep Status", pos 1) ∷ ("EQUATORIAL_EOD_COORD", pos 2) ∷ []

angle_run : (read float sidereal "OnStep" 3000 true true earlier pointing).0.ha_deg ≡ some (pos 700)
unfolding read live set_default first_seen number angle_of hour_angle snapshot_of get_property
    lookup value_of ◌+ℤ◌ ◌-ℤ◌ scale mod_ℤ
angle_run = refl
