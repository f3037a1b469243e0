-- ===== src/Subscriber/Bounds.antt =====
-- models/SubscriberStats.h: what the statistics say after a sequence of messages.
use moq_veins_simulation_the.Base.{
  ℕ, zero, suc, ltb, negsuc, ◌+◌, ◌≤◌, ◌≡◌, refl, arith, ℤ, pos, false, List, [], ◌∷◌, length, All,
  if◌then◌else◌, min, max,
}
use moq_veins_simulation_the.Subscriber.Stats.{
  SubTrackStat, no_samples, is_negative, missed_deadline, add_sample,
}

-- A message of a track, and when it came.
pub record Sample : Type 0 where
  pub sequence : ℕ
  pub payload_bytes : ℤ
  pub latency : ℕ
  pub now : ℤ

unfoldable pub add_all : List Sample → SubTrackStat → SubTrackStat
unfolding add_sample
add_all [] st = st
add_all (x ∷ xs) st =
    add_all xs (add_sample (pos x.sequence) x.payload_bytes (pos x.latency) x.now st)

-- 1 for a latency above a deadline of more than 0, and 0 for any other.
abbrev pub too_late : ℤ → ℕ → ℕ
too_late (pos zero) latency = 0
too_late (pos (suc d)) latency = if ltb (suc d) latency then 1 else 0
too_late (negsuc k) latency = 0

-- The messages that came too late.
unfoldable pub late : ℤ → List Sample → ℕ
late deadline [] = 0
late deadline (x ∷ xs) = too_late deadline x.latency + late deadline xs

missed_deadline-too_late :
    (deadline : ℤ) (latency : ℕ)
    → (if missed_deadline deadline (pos latency) then 1 else 0) ≡ too_late deadline latency
unfolding missed_deadline
missed_deadline-too_late (pos zero) latency = ground arith
missed_deadline-too_late (pos (suc d)) latency = ground arith
missed_deadline-too_late (negsuc k) latency = ground arith

-- What the statistics say once a message was counted, `received` of them in all.
pub record Counts (lowest highest : ℕ) (st : SubTrackStat) : Type 0 where
  pub lowest_seq : st.lowest_seq ≡ pos lowest
  pub highest_seq : st.highest_seq ≡ pos highest
  pub order : lowest ≤ highest
  pub last_latency : is_negative st.last_latency ≡ false

abbrev pub Within : ℕ → ℕ → Sample → Type 0
Within lowest highest x = (lowest ≤ x.sequence) × (x.sequence ≤ highest)

-- Later messages widen the range, and are counted.
abbrev pub Counted : ℕ → ℕ → List Sample → SubTrackStat → SubTrackStat → Type 0
Counted lowest highest xs st st' =
    (lo : ℕ) × (hi : ℕ) × Counts lo hi st'
    × (lo ≤ lowest)
    × (highest ≤ hi)
    × All (Within lo hi) xs
    × (st'.received ≡ st.received + length xs)
    × (st'.deadline_misses ≡ st.deadline_misses + late st.deadline xs)
    × (st'.jitter_count ≡ st.jitter_count + length xs)

add_sample-Counts :
    (x : Sample) (lo hi : ℕ) (st : SubTrackStat)
    → Counts lo hi st
    → Counts
        (min lo x.sequence)
        (max hi x.sequence)
        (add_sample (pos x.sequence) x.payload_bytes (pos x.latency) x.now st)
unfolding add_sample
add_sample-Counts x lo hi st c = record {
  lowest_seq = ground (arith, c.lowest_seq);
  highest_seq = ground (arith, c.highest_seq);
  order = omega (arith, c.order);
  last_latency = ground arith;
}

-- The counters of one message.
add_sample-counters :
    (x : Sample) (st : SubTrackStat)
    → is_negative st.last_latency ≡ false
    → (((add_sample (pos x.sequence) x.payload_bytes (pos x.latency) x.now st).received
          ≡ st.received + 1)
        × ((add_sample (pos x.sequence) x.payload_bytes (pos x.latency) x.now st).deadline_misses
            ≡ st.deadline_misses + too_late st.deadline x.latency)
        × ((add_sample (pos x.sequence) x.payload_bytes (pos x.latency) x.now st).jitter_count
            ≡ st.jitter_count + 1))
unfolding add_sample
add_sample-counters x st h =
    (refl, ground (arith, missed_deadline-too_late st.deadline x.latency), ground (arith, h))

add_all-Counted :
    (xs : List Sample) (lo hi : ℕ) (st : SubTrackStat)
    → Counts lo hi st
    → Counted lo hi xs st (add_all xs st)
unfolding add_all late add_sample
add_all-Counted [] lo hi st c =
    (lo, hi, c, omega arith, omega arith, tt, omega arith, omega arith, omega arith)
add_all-Counted (x ∷ xs) lo hi st c =
    let st' = add_sample (pos x.sequence) x.payload_bytes (pos x.latency) x.now st in
    let one = add_sample-counters x st c.last_latency in
    let (l, h, c', a, b, w, r, d, j) =
      add_all-Counted xs (min lo x.sequence) (max hi x.sequence) st'
        (add_sample-Counts x lo hi st c) in
    (
      l,
      h,
      c',
      omega (arith, a),
      omega (arith, b),
      ((omega (arith, a), omega (arith, b)), w),
      omega (arith, r, one.0),
      omega (arith, d, one.1),
      omega (arith, j, one.2),
    )

-- After a message x and messages xs behind it, with sequence numbers and latencies of at least
-- 0, the statistics of a track with this deadline have counted all of them, have counted as
-- missed exactly those with a latency above the deadline, where that is above 0, and none where
-- it is not, have a jitter for all but the first, and every sequence number lies between the
-- lowest and the highest that they name.
pub add_all-bounds :
    (deadline : ℤ) (x : Sample) (xs : List Sample)
    → (lo : ℕ) × (hi : ℕ) × ((add_all
          (x ∷ xs)
          (record no_samples { deadline = deadline })).lowest_seq
        ≡ pos lo)
      × ((add_all (x ∷ xs) (record no_samples { deadline = deadline })).highest_seq ≡ pos hi)
      × All (Within lo hi) (x ∷ xs)
      × ((add_all (x ∷ xs) (record no_samples { deadline = deadline })).received ≡ length (x ∷ xs))
      × ((add_all (x ∷ xs) (record no_samples { deadline = deadline })).deadline_misses
          ≡ late deadline (x ∷ xs))
      × ((add_all (x ∷ xs) (record no_samples { deadline = deadline })).jitter_count ≡ length xs)
unfolding add_all add_sample late
add_all-bounds deadline x xs =
    let st =
      add_sample (pos x.sequence) x.payload_bytes (pos x.latency) x.now
        (record no_samples { deadline = deadline }) in
    let c : Counts x.sequence x.sequence st = record {
      lowest_seq = ground arith;
      highest_seq = ground arith;
      order = omega arith;
      last_latency = ground arith;
    } in
    let (lo, hi, c', a, b, w, r, d, j) = add_all-Counted xs x.sequence x.sequence st c in
    (
      lo,
      hi,
      c'.lowest_seq,
      c'.highest_seq,
      ((a, b), w),
      omega (arith, r),
      ground (arith, d, missed_deadline-too_late deadline x.latency),
      omega (arith, j),
    )
