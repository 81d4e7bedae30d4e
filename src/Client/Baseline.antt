-- ===== src/Client/Baseline.antt =====
-- How the session's flags come and go.
use on_step_adapter.Base.{
  Option-cases, ℕ, ◌≡◌, inl, inr, ◌↔◌, Bool, true, false, ◌&&◌, Option, none, some, List, [], ◌∷◌,
  String, arith,
}
use on_step_adapter.Base.Int.{ℤ}
use on_step_adapter.Base.Text.{Text}
use on_step_adapter.Outcome.{ok, Outcome-cases}
use on_step_adapter.Policy.{Real}
use on_step_adapter.Transport.{World}
use on_step_adapter.Requests.Values.{set_text, set_number}
use on_step_adapter.Client.Session.{
  home_authority, Values, Session, Observer, IndiSyncResult, SyncRequest, sync_site, sync_both,
  sync_time_location,
}

-- What reads of the HOME authority give, one in each world.
unfoldable pub authority_reads : String → List World → Option Bool → List Bool
authority_reads device [] a = []
authority_reads device (w ∷ ws) a =
    let (seen, a') = home_authority device w a in seen ∷ authority_reads device ws a'

abbrev is_withdrawn : Option Bool → Bool
is_withdrawn (some true) = false
is_withdrawn _ = true

module _ (float : Text → Option Real) (format : ℤ → Text) (device : String) where
  sync_site_flags :
      (o : Observer) (timeout : ℕ) (d : Values) (w : World) (r : IndiSyncResult)
      → (sync_site float format device o timeout d w).0 ≡ ok r
      → ((sync_site float format device o timeout d w).1.accepted
          ≡ (r.time_accepted && r.location_accepted))
        × ((sync_site float format device o timeout d w).1.accepted ≡ true ↔ r.error ≡ none)
  unfolding sync_site
  sync_site_flags o timeout d w r h =
      let (k, w') =
        set_number float format device "GEOGRAPHIC_COORD"
          (("LAT", o.lat) ∷ ("LONG", o.lon) ∷ ("ELEV", o.alt) ∷ []) timeout w in
      elim (Outcome-cases k) [ inl (p, z) ↦ ground arith | inr (e, z) ↦ ground arith ]

  sync_both_flags :
      (o : Observer) (t : Text × Text) (timeout : ℕ) (w : World) (r : IndiSyncResult)
      → (sync_both float format device o t timeout w).0 ≡ ok r
      → ((sync_both float format device o t timeout w).1.accepted
          ≡ (r.time_accepted && r.location_accepted))
        × ((sync_both float format device o t timeout w).1.accepted ≡ true ↔ r.error ≡ none)
  unfolding sync_both
  sync_both_flags o (utc, offset) timeout w r h =
      let (k, w') =
        set_text float device "TIME_UTC" (("UTC", utc) ∷ ("OFFSET", offset) ∷ []) timeout w in
      elim (Outcome-cases k) [
        | inl (p, z) ↦ ground (arith, sync_site_flags o timeout p.values w' r)
        | inr (e, z) ↦ ground arith
      ]

  -- A sync that returns leaves the session's baseline accepted exactly if it reports that the time
  -- and the location were accepted, and exactly if it reports no error; a baseline from before
  -- never survives it.
  pub sync_time_location_baseline :
      (q : SyncRequest) (s : Session) (w : World) (r : IndiSyncResult)
      → (sync_time_location float format device q s w).0 ≡ ok r
      → ((sync_time_location float format device q s w).1.accepted
          ≡ (r.time_accepted && r.location_accepted))
        × ((sync_time_location float format device q s w).1.accepted ≡ true ↔ r.error ≡ none)
  unfolding sync_time_location
  sync_time_location_baseline q s w r h = elim (Option-cases q.observer) [
    | inl z ↦ absurd (ground arith)
    | inr (o, z) ↦ elim (Option-cases q.clock) [
      | inl u ↦ absurd (ground arith)
      | inr (t, u) ↦ ground (arith, sync_both_flags o t q.timeout w r)
    ]
  ]
