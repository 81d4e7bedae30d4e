-- ===== src/Guiding/Chunks.antt =====
-- How a long pulse is split.
use on_step_adapter.Base.{
  ℕ, zero, suc, ◌+◌, ◌-◌, ◌≤◌, ◌<◌, ◌≡◌, refl, Bool, true, ◌&&◌, [], ◌∷◌, sum, all, leb, arith,
}
use on_step_adapter.Guiding.{split, chunks_of, min_guide_pulse_ms, is_pulse_length}

sum-split :
    (fuel chunk_ms remaining : ℕ)
    → remaining ≤ fuel
    → min_guide_pulse_ms ≤ chunk_ms
    → sum (split fuel chunk_ms remaining) ≡ remaining
unfolding split
sum-split zero chunk_ms remaining few h = ground arith
sum-split (suc fuel) chunk_ms remaining few h = ground (
  arith,
  sum-split fuel chunk_ms (remaining - chunk_ms),
  sum-split fuel chunk_ms (remaining - (remaining - min_guide_pulse_ms)),
)

-- A chunk that the driver supports, within the limit.
abbrev pub fits : ℕ → ℕ → Bool
fits chunk_ms ms = leb min_guide_pulse_ms ms && leb ms chunk_ms

all-split :
    (fuel chunk_ms remaining : ℕ)
    → remaining ≤ fuel
    → 39 ≤ chunk_ms
    → min_guide_pulse_ms ≤ remaining
    → all (fits chunk_ms) (split fuel chunk_ms remaining) ≡ true
unfolding split
all-split zero chunk_ms remaining few h low = absurd (omega arith)
all-split (suc fuel) chunk_ms remaining few h low = ground (
  arith,
  all-split fuel chunk_ms (remaining - chunk_ms),
  all-split fuel chunk_ms (remaining - (remaining - min_guide_pulse_ms)),
)

split_last :
    (fuel chunk_ms remaining : ℕ)
    → remaining ≤ chunk_ms
    → split fuel chunk_ms remaining ≡ remaining ∷ []
unfolding split
split_last zero chunk_ms remaining h = refl
split_last (suc fuel) chunk_ms remaining h = ground arith

split_tail :
    (fuel chunk_ms : ℕ)
    → min_guide_pulse_ms ≤ chunk_ms
    → split (suc fuel) chunk_ms (suc chunk_ms) ≡ (chunk_ms - 19) ∷ min_guide_pulse_ms ∷ []
unfolding split
split_tail fuel chunk_ms h =
    ground (arith, split_last fuel chunk_ms (suc chunk_ms - (suc chunk_ms - min_guide_pulse_ms)))

-- A pulse is split into chunks that add up to its duration, for every chunk limit that the
-- constructor accepts.
sum-chunks_of :
    (chunk_ms duration : ℕ)
    → is_pulse_length chunk_ms ≡ true
    → sum (chunks_of chunk_ms duration) ≡ duration
unfolding chunks_of
sum-chunks_of chunk_ms duration h =
    sum-split duration chunk_ms duration (omega arith) (ground arith)

-- With a chunk limit of at least 39 ms, so with the default of 500 ms, every chunk of a pulse of
-- at least the minimum is itself at least the minimum, and at most the limit.
chunks_of-IsBounded :
    (chunk_ms duration : ℕ)
    → 39 ≤ chunk_ms
    → min_guide_pulse_ms ≤ duration
    → all (fits chunk_ms) (chunks_of chunk_ms duration) ≡ true
unfolding chunks_of
chunks_of-IsBounded chunk_ms duration h low =
    all-split duration chunk_ms duration (omega arith) h low

-- With a limit of 20 to 38 ms, which the constructor accepts, a pulse one millisecond longer than
-- the limit is split into a chunk below the minimum and one of the minimum.
pub chunks_of_too_short :
    (chunk_ms : ℕ)
    → min_guide_pulse_ms ≤ chunk_ms
    → chunk_ms < 39
    → (chunks_of chunk_ms (chunk_ms + 1) ≡ (chunk_ms - 19) ∷ min_guide_pulse_ms ∷ [])
      × (chunk_ms - 19 < min_guide_pulse_ms)
unfolding chunks_of
chunks_of_too_short chunk_ms low high =
    let e : chunk_ms + 1 ≡ suc chunk_ms = omega arith in
    (rw e (split_tail chunk_ms chunk_ms low), omega arith)
