-- ===== src/Mock/Wire.antt =====
-- The status text of the virtual mount, read back by the adapter's decoder.
use on_step_adapter.Base.{ℕ, ◌≡◌, refl, Bool, true, false, not, some, ◌∙◌, if◌then◌else◌}
use on_step_adapter.Gu.{Gu, Side, east, west, decode_gu, accepts, flags_of}
use on_step_adapter.Mock.{
  VirtualMount, wire, raw_gu, is_slewing, is_guiding, is_limit_fault, is_east,
}

decodes-wire :
    (tracks moves parks homes guides limits easts : Bool)
    → decode_gu (wire tracks moves parks homes guides limits easts)
      ≡ some (flags_of (wire tracks moves parks homes guides limits easts))
unfolding decode_gu accepts wire
decodes-wire true true true true true true true = refl
decodes-wire _ true true true true true true = refl
decodes-wire _ _ true true true true true = refl
decodes-wire _ _ _ true true true true = refl
decodes-wire _ _ _ _ true true true = refl
decodes-wire _ _ _ _ _ true true = refl
decodes-wire _ _ _ _ _ _ true = refl
decodes-wire _ _ _ _ _ _ _ = refl

fields-wire :
    (tracks moves parks homes guides limits easts : Bool)
    → let g = flags_of (wire tracks moves parks homes guides limits easts) in
      (g.tracking ≡ tracks)
      × (g.slewing ≡ moves)
      × (g.parked ≡ parks)
      × (g.not_parked ≡ not parks)
      × (g.at_home ≡ homes)
      × (g.guiding ≡ guides)
      × (g.at_limit ≡ limits)
      × (g.park_failed ≡ false)
      × (g.pier_side ≡ some (if easts then east else west))
unfolding flags_of wire
fields-wire true true true true true true true =
    (refl, refl, refl, refl, refl, refl, refl, refl, refl)
fields-wire _ true true true true true true = (refl, refl, refl, refl, refl, refl, refl, refl, refl)
fields-wire _ _ true true true true true = (refl, refl, refl, refl, refl, refl, refl, refl, refl)
fields-wire _ _ _ true true true true = (refl, refl, refl, refl, refl, refl, refl, refl, refl)
fields-wire _ _ _ _ true true true = (refl, refl, refl, refl, refl, refl, refl, refl, refl)
fields-wire _ _ _ _ _ true true = (refl, refl, refl, refl, refl, refl, refl, refl, refl)
fields-wire _ _ _ _ _ _ true = (refl, refl, refl, refl, refl, refl, refl, refl, refl)
fields-wire _ _ _ _ _ _ _ = (refl, refl, refl, refl, refl, refl, refl, refl, refl)

side_of : (s : Side) → some (if is_east s then east else west) ≡ some s
side_of east = refl
side_of west = refl

-- What a client reads off a status.
pub record Reads (m : VirtualMount) (now : ℕ) (g : Gu) : Type 0 where
  pub tracking : g.tracking ≡ m.tracking
  pub slewing : g.slewing ≡ is_slewing m
  pub parked : g.parked ≡ m.parked
  pub not_parked : g.not_parked ≡ not m.parked
  pub at_home : g.at_home ≡ m.at_home
  pub guiding : g.guiding ≡ is_guiding m now
  pub at_limit : g.at_limit ≡ is_limit_fault m.fault
  pub park_failed : g.park_failed ≡ false
  pub pier_side : g.pier_side ≡ some m.pier_side

-- Every status that the virtual mount prints is decoded by the adapter, and each decoded field is
-- the mount's own: tracking, slewing, parked (and its opposite `not_parked`), HOME, guiding, the
-- LIMIT fault and the pier side; a park failure is never reported.
pub decode_gu-raw_gu :
    (m : VirtualMount) (now : ℕ) → (g : Gu) × (decode_gu (raw_gu m now) ≡ some g) × Reads m now g
unfolding raw_gu
decode_gu-raw_gu m now =
    let (ft, fs, fp, fn, fh, fg, fl, ff, fe) =
      fields-wire m.tracking (is_slewing m) m.parked m.at_home (is_guiding m now)
        (is_limit_fault m.fault) (is_east m.pier_side) in
    (
      flags_of (raw_gu m now),
      decodes-wire m.tracking (is_slewing m) m.parked m.at_home (is_guiding m now)
          (is_limit_fault m.fault) (is_east m.pier_side),
      record {
        tracking = ft;
        slewing = fs;
        parked = fp;
        not_parked = fn;
        at_home = fh;
        guiding = fg;
        at_limit = fl;
        park_failed = ff;
        pier_side = fe ∙ side_of m.pier_side;
      },
    )
