-- ===== src/MoqFraming/Reassembly/Invariant.antt =====
-- Fragments of one frame, in any order and repeated, rebuild the frame.
use moq_veins_simulation_the.Base.{
  ℕ, zero, suc, ◌+◌, ◌-◌, ◌*◌, ◌/◌, ◌%◌, ◌^◌, ◌<◌, ◌≡◌, ◌≢◌, refl, sym, ◌∙◌, min, ◌⊎◌, inl, inr,
  arith, List, [], ◌∷◌, length, replicate, drop, length-take, length-drop, length-replicate,
  length-copy_at, length-set, get_elem?, get_elem?-copy_at, get_elem?-copy_at_before,
  get_elem?-copy_at_after, get_elem?-take, get_elem?-drop, get_elem?-set, get_elem?-ext, count_true,
  count_true-set, count_true-le, count_true_full, set, copy_at, leb, ◌==◌, Bool, true, false,
  Bool-cases, ℤ, ℕ_discrete, some,
}
use moq_veins_simulation_the.Reader.{Bytes}
use moq_veins_simulation_the.MoqFraming.Fragment.{UdpFragment, fragment_at, fragment_count}
use moq_veins_simulation_the.MoqFraming.Reassembly.{
  Reassembler, begin, store, finish, place, add, flag_at,
}
use moq_veins_simulation_the.MoqFraming.Reassembly.Arith.{
  fragment_count_bounds, offset-le, byte_in_fragment,
}
use native.Mathlib.Nat.{mul-le-mul_right}

module _ (frame : Bytes) (mc : ℕ) where
  abbrev pub n : ℕ
  n = fragment_count (length frame) mc

  -- The frame's bytes that fragment `j` carries are in place.
  abbrev pub Placed : Bytes → ℕ → Type 0
  Placed content j =
      (i : ℕ)
      → i < min mc (length frame - j * mc)
      → get_elem? content (j * mc + i) ≡ get_elem? frame (j * mc + i)

  pub record Inv (r : Reassembler) : Type 0 where
    pub counted : r.frag_count ≡ n
    pub sized : length r.content ≡ length frame
    pub flags : length r.have ≡ n
    pub received : r.received_frags ≡ count_true r.have
    pub completed : r.complete ≡ (r.received_frags == n)
    pub placed : (j : ℕ) → get_elem? r.have j ≡ some true → Placed r.content j

  -- A reassembler that has seen nothing, or fragments of this frame only.
  abbrev pub Ready : Reassembler → Type 0
  Ready r = ((r.frag_count ≡ 0) × (r.received_frags ≡ 0) × (r.complete ≡ false)) ⊎ Inv r

module _ (frame : Bytes) (mc : ℕ) (mc_pos : 0 < mc) (u32 : length frame < 2 ^ 32) (msg_class : ℕ)
    (track_alias : Bytes) (object_id : ℤ) where
  abbrev piece : ℕ → UdpFragment
  piece = fragment_at msg_class track_alias object_id frame mc (fragment_count (length frame) mc)

  flag_unset : (m i : ℕ) → get_elem? (replicate m false) i ≢ some true
  flag_unset zero i e = cc
  flag_unset (suc m) zero e = cc
  flag_unset (suc m) (suc i) e = flag_unset m i e

  none_set : (m : ℕ) → count_true (replicate m false) ≡ 0
  none_set zero = refl
  none_set (suc m) = none_set m

  pub begin-Inv :
      (i : ℕ) (now : ℤ) (r : Reassembler) → Ready frame mc r → Inv frame mc (begin (piece i) now r)
  unfolding begin fragment_at
  begin-Inv i now r (inl (fresh, nothing, unfinished)) =
      let t : (r.frag_count == 0) ≡ true = ground arith in
      let fits : length frame % 2 ^ 32 ≡ length frame = omega arith in
      let (some_left, _, _) = fragment_count_bounds (length frame) mc mc_pos u32 in
      rw (t, begin)
        (record {
          counted = refl;
          sized = rw fits (length-replicate {A = ℕ} (length frame) 0);
          flags = length-replicate (n frame mc) false;
          received = nothing ∙ sym (none_set (n frame mc));
          completed = ground arith;
          placed = λ j e. absurd (flag_unset (n frame mc) j e);
        })
  begin-Inv i now r (inr v) =
      let (some_left, _, _) = fragment_count_bounds (length frame) mc mc_pos u32 in
      let t : (r.frag_count == 0) ≡ false = ground (arith, v.counted) in
      rw (t, begin)
        (record {
          counted = v.counted;
          sized = v.sized;
          flags = v.flags;
          received = v.received;
          completed = v.completed;
          placed = v.placed;
        })

  flag_false :
      (bs : List Bool) (i : ℕ) → flag_at bs i ≡ false → i < length bs → get_elem? bs i ≡ some false
  flag_false [] i e h = absurd (omega arith)
  flag_false (b ∷ bs) zero e h = ground arith
  flag_false (b ∷ bs) (suc i) e h = flag_false bs i e (omega arith)

  abbrev chunk_len : ℕ → ℕ
  chunk_len i = min mc (length frame - i * mc)

  length-chunk : (i : ℕ) → length (piece i).chunk ≡ chunk_len i
  unfolding fragment_at
  length-chunk i =
      omega (arith, length-take (chunk_len i) (drop (i * mc) frame), length-drop (i * mc) frame)

  offset-eq : (i : ℕ) → i < n frame mc → (piece i).frag_offset ≡ i * mc
  unfolding fragment_at
  offset-eq i h = omega (arith, offset-le (length frame) mc mc_pos u32 i h)

  chunk_byte :
      (i k : ℕ) → k < chunk_len i → get_elem? (piece i).chunk k ≡ get_elem? frame (i * mc + k)
  unfolding fragment_at
  chunk_byte i k h =
      get_elem?-take (chunk_len i) (drop (i * mc) frame) k h ∙ get_elem?-drop (i * mc) frame k

  -- The new content: the fragment's bytes in place, all others as they were.
  abbrev patched : ℕ → Bytes → Bytes
  patched i content = copy_at (i * mc) (piece i).chunk content

  patched_self :
      (i : ℕ) (content : Bytes)
      → i < n frame mc
      → length content ≡ length frame
      → Placed frame mc (patched i content) i
  patched_self i content hi sized k hk =
      get_elem?-copy_at (i * mc) (piece i).chunk content k
        (omega (arith, length-chunk i, offset-le (length frame) mc mc_pos u32 i hi))
        (omega (arith, length-chunk i))
      ∙ chunk_byte i k hk

  patched_other :
      (i j : ℕ) (content : Bytes)
      → i ≢ j
      → Placed frame mc content j
      → Placed frame mc (patched i content) j
  patched_other i j content ne old k hk = elim (lt_or_gt i j ne) [
    | inl below ↦
        get_elem?-copy_at_after (i * mc) (piece i).chunk content (j * mc + k)
          (omega (arith, length-chunk i, mul-le-mul_right mc below))
        ∙ old k hk
    | inr above ↦
        get_elem?-copy_at_before (i * mc) (piece i).chunk content (j * mc + k)
          (omega (arith, mul-le-mul_right mc above))
        ∙ old k hk
  ]
    where
      lt_or_gt : (i j : ℕ) → i ≢ j → (i < j) ⊎ (j < i)
      lt_or_gt i j h = omega arith

  index-eq : (i : ℕ) → (piece i).frag_index ≡ i
  unfolding fragment_at
  index-eq i = refl

  patched-Placed :
      (i j : ℕ) (r : Reassembler)
      → i < n frame mc
      → Inv frame mc r
      → get_elem? (set r.have i true) j ≡ some true
      → Placed frame mc (patched i r.content) j
  patched-Placed i j r hi v e = elim (ℕ_discrete i j) [
    | yes p ↦ rw (← p) (patched_self i r.content hi v.sized)
    | no p ↦
        patched_other i j r.content p
          (v.placed j (ground (arith, get_elem?-set r.have i j true (omega (arith, v.flags)))))
  ]

  -- What `store` leaves to `finish`.
  record Stored (r : Reassembler) : Type 0 where
    counted : r.frag_count ≡ n frame mc
    sized : length r.content ≡ length frame
    flags : length r.have ≡ n frame mc
    received : r.received_frags ≡ count_true r.have
    unfinished : r.complete ≡ false
    placed : (j : ℕ) → get_elem? r.have j ≡ some true → Placed frame mc r.content j

  store-Stored :
      (i : ℕ) (r : Reassembler)
      → i < n frame mc
      → Inv frame mc r
      → flag_at r.have i ≡ false
      → Stored (store (piece i) r)
  unfolding store
  store-Stored i r hi v new =
      let unset = flag_false r.have i new (omega (arith, v.flags)) in
      let more = count_true-set r.have i unset in
      let most = count_true-le (set r.have i true) in
      let (_, u32_count, _) = fragment_count_bounds (length frame) mc mc_pos u32 in
      let fits : leb ((piece i).frag_offset + length (piece i).chunk) (length r.content) ≡ true =
        ground (
          arith,
          offset-eq i hi,
          length-chunk i,
          v.sized,
          offset-le (length frame) mc mc_pos u32 i hi,
        ) in
      rw (fits, index-eq i, offset-eq i hi)
        (record {
          counted = v.counted;
          sized = length-copy_at (i * mc) (piece i).chunk r.content ∙ v.sized;
          flags = length-set r.have i true ∙ v.flags;
          received = omega (arith, v.received, v.flags, more, most, length-set r.have i true);
          unfinished =
              ground
                (arith, v.completed, v.received, v.flags, more, most, length-set r.have i true);
          placed = λ j e. patched-Placed i j r hi v e;
        })

  finish-Inv : (r : Reassembler) → Stored r → Inv frame mc (finish r).0
  unfolding finish
  finish-Inv r s = elim (Bool-cases (r.received_frags == r.frag_count)) [
    | inl last ↦
        rw (last, s.unfinished, finish)
          (record {
            counted = s.counted;
            sized = s.sized;
            flags = s.flags;
            received = s.received;
            completed = ground (arith, s.counted);
            placed = s.placed;
          })
    | inr more ↦
        rw (more, finish)
          (record {
            counted = s.counted;
            sized = s.sized;
            flags = s.flags;
            received = s.received;
            completed = ground (arith, s.counted, s.unfinished);
            placed = s.placed;
          })
  ]

  place-Inv :
      (i : ℕ) (r : Reassembler)
      → i < n frame mc
      → Inv frame mc r
      → Inv frame mc (place (piece i) r).0
  unfolding place fragment_at
  place-Inv i r hi v =
      let inside : leb r.frag_count i ≡ false = ground (arith, v.counted) in
      elim (Bool-cases (flag_at r.have i)) [
        | inl old ↦ rw (index-eq i, inside, old, place) v
        | inr new ↦ rw (index-eq i, inside, new, place) (finish-Inv _ (store-Stored i r hi v new))
      ]

  -- Whatever fragment of the frame arrives, the reassembler stays consistent with the frame.
  pub add-Inv :
      (i : ℕ) (now : ℤ) (r : Reassembler)
      → i < n frame mc
      → Ready frame mc r
      → Inv frame mc (add (piece i) now r).0
  unfolding add
  add-Inv i now r hi ready = place-Inv i _ hi (begin-Inv i now r ready)

  -- All the flags are set, so every byte is in place.
  pub full-content :
      (r : Reassembler) → Inv frame mc r → r.received_frags ≡ n frame mc → r.content ≡ frame
  full-content r v full = get_elem?-ext r.content frame v.sized (λ k hk.
      let (inside, whole, within) =
        byte_in_fragment (length frame) mc mc_pos u32 k (omega (arith, v.sized)) in
      let flag =
        count_true_full r.have (k / mc) (omega (arith, v.received, v.flags))
          (omega (arith, v.flags)) in
      rw whole at (v.placed (k / mc) flag (k % mc) within))

  pub complete-content : (r : Reassembler) → Inv frame mc r → r.complete ≡ true → r.content ≡ frame
  complete-content r v done = full-content r v (ground (arith, v.completed))
