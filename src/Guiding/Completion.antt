-- ===== src/Guiding/Completion.antt =====
-- What a guide pulse that reports completion has done.
use on_step_adapter.Base.{
  ℕ, zero, suc, ◌+◌, ◌-◌, ◌/◌, not, ltb, if◌then◌else◌, ◌≡◌, ◌⊎◌, refl, inl, inr, Bool, true, false,
  none, some, List, [], ◌∷◌, String, length, arith,
}
use on_step_adapter.Base.Int.{ℤ, pos, leb_ℤ}
use on_step_adapter.Outcome.{ok, Outcome-cases, Exc}
use on_step_adapter.Transport.{World}
use on_step_adapter.Requests.{confirm, rounds, issue_number}
use on_step_adapter.Tracking.{AuthorityPolicy}
use on_step_adapter.Watch.{Watch, sleep}
use on_step_adapter.Guiding.{GuideDirection, guide_property, chunks_of, Refusal}
use on_step_adapter.Guiding.Pulse.{
  pulse_done, View, Progress, Ended, finished, declined, broke, IndiGuidePulseResult, all_chunks,
  one_chunk, finish_chunk, wait_idle, look, conclude, handle, pulse_result, pulse_towards, start,
}

Ended-cases :
    (r : Ended)
    → ((v : View) × (q : Progress) × (r ≡ finished v q))
      ⊎ ((reason : Refusal) × (v : View) × (q : Progress) × (r ≡ declined reason v q))
      ⊎ ((e : Exc) × (q : Progress) × (r ≡ broke e q))
Ended-cases (finished v q) = inl (v, q, refl)
Ended-cases (declined reason v q) = inr (inl (reason, v, q, refl))
Ended-cases (broke e q) = inr (inr (e, q, refl))

module _ (c : Watch) (device : String) (policy : AuthorityPolicy) (command_timeout : ℕ) where
  wait_idle_completed :
      (fuel deadline : ℕ) (revision : ℤ) (p q : Progress) (v : View) (w : World)
      → (wait_idle c device policy command_timeout fuel deadline revision p w).0 ≡ finished v q
      → q.completed ≡ p.completed
  unfolding wait_idle
  wait_idle_completed zero deadline revision p q v w h = cc
  wait_idle_completed (suc fuel) deadline revision p q v w h =
      elim (Outcome-cases (look c device policy command_timeout w).0) [
        | inr (e, z) ↦ ground arith
        | inl ((view, some reason), z) ↦ ground arith
        | inl ((view, none), z) ↦
            let w1 = (look c device policy command_timeout w).1 in
            let fresh = not (leb_ℤ view.0.status_revision revision) in
            ground (
              arith,
              wait_idle_completed fuel deadline (if fresh then view.0.status_revision else revision)
                  p q v (sleep (if ltb (deadline - w1.now) 50 then deadline - w1.now else 50) w1),
            )
      ]

  finish_chunk_completed :
      (name : String) (chunk started : ℕ) (revision status : ℤ) (p q : Progress) (v : View)
      (w : World)
      → (finish_chunk c device policy command_timeout name chunk started revision status p w).0
        ≡ finished v q
      → q.completed ≡ suc p.completed
  unfolding finish_chunk
  finish_chunk_completed name chunk started revision status p q v w h =
      let (r, w1) =
        confirm (rounds w) device name (w.now + (command_timeout + chunk)) "guide pulse" pulse_done
          revision w in
      let w2 = sleep (chunk - (w1.now - started)) w1 in
      let idle_end =
        wait_idle c device policy command_timeout (command_timeout / 50 + 2)
          (w2.now + command_timeout) status p w2 in
      elim (Outcome-cases r) [
        | inr (e, z) ↦ ground arith
        | inl (done, z) ↦ elim (Ended-cases idle_end.0) [
          | inl (view, k, u) ↦ ground (
            arith,
            wait_idle_completed (command_timeout / 50 + 2) (w2.now + command_timeout) status p k
                view w2,
          )
          | inr (inl (reason, view, k, u)) ↦ ground arith
          | inr (inr (e, k, u)) ↦ ground arith
        ]
      ]

  one_chunk_completed :
      (direction : GuideDirection) (chunk : ℕ) (p q : Progress) (v : View) (w : World)
      → (one_chunk c device policy command_timeout direction chunk p w).0 ≡ finished v q
      → q.completed ≡ suc p.completed
  unfolding one_chunk
  one_chunk_completed direction chunk p q v w h =
      let (r, w1) = look c device policy command_timeout w in
      let (name, element) = guide_property direction in
      let (k, w2) = issue_number device name element (pos chunk) command_timeout w1 in
      elim (Outcome-cases r) [
        | inr (e, z) ↦ ground arith
        | inl ((view, some reason), z) ↦ ground arith
        | inl ((view, none), z) ↦ elim (Outcome-cases k) [
          | inr (e, u) ↦ ground arith
          | inl (revision, u) ↦ ground (
            arith,
            finish_chunk_completed name chunk w1.now revision view.0.status_revision
                (record p { issued = true; last = some view }) q v w2,
          )
        ]
      ]

  all_chunks_completed :
      (direction : GuideDirection) (chunks : List ℕ) (p q : Progress) (v : View) (w : World)
      → (all_chunks c device policy command_timeout direction chunks p w).0 ≡ finished v q
      → q.completed ≡ p.completed + length chunks
  unfolding all_chunks
  all_chunks_completed direction [] p q v w h =
      elim (Outcome-cases (look c device policy command_timeout w).0) [
        | inr (e, z) ↦ ground arith
        | inl ((view, some reason), z) ↦ ground arith
        | inl ((view, none), z) ↦ ground arith
      ]
  all_chunks_completed direction (chunk ∷ rest) p q v w h =
      let (end, w1) = one_chunk c device policy command_timeout direction chunk p w in
      elim (Ended-cases end) [
        | inr (inl (reason, view, k, z)) ↦ ground arith
        | inr (inr (e, k, z)) ↦ ground arith
        | inl (view, k, z) ↦ ground (
          arith,
          one_chunk_completed direction chunk p k view w,
          all_chunks_completed direction rest k q v w1,
        )
      ]

  handle_incomplete :
      (direction : GuideDirection) (duration chunks : ℕ) (e : Exc) (p : Progress) (w : World)
      (r : IndiGuidePulseResult)
      → (handle c device policy command_timeout direction duration chunks e p w).0 ≡ ok r
      → r.pulse_completed ≡ false
  unfolding handle pulse_result
  handle_incomplete direction duration chunks e p w r h =
      elim (Outcome-cases (c.emergency_stop w).0) [
        | inl (a, z) ↦ ground arith
        | inr (x, z) ↦ ground arith
      ]

  -- A pulse that reports completion has completed as many chunks as it was split into, and reports
  -- no error.
  pub pulse_towards_complete :
      (busy : Bool) (chunk_ms : ℕ) (direction : GuideDirection) (duration : ℕ) (w : World)
      (r : IndiGuidePulseResult)
      → (pulse_towards c device policy command_timeout busy chunk_ms direction duration w).0 ≡ ok r
      → r.pulse_completed ≡ true
      → (r.chunks_completed ≡ length (chunks_of chunk_ms duration)) × (r.error ≡ none)
  unfolding pulse_towards conclude pulse_result
  pulse_towards_complete busy chunk_ms direction duration w r h done =
      let (end, w1) =
        all_chunks c device policy command_timeout direction (chunks_of chunk_ms duration) start
          w in
      elim (Ended-cases end) [
        | inl (v, q, z) ↦
            ground (arith, all_chunks_completed direction (chunks_of chunk_ms duration) start q v w)
        | inr (inl (reason, v, q, z)) ↦ ground arith
        | inr (inr (e, q, z)) ↦ ground (
          arith,
          handle_incomplete direction duration (length (chunks_of chunk_ms duration)) e q w1 r,
        )
      ]
