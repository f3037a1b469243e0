-- ===== src/MoqFraming/Reassembly/Flags.antt =====
-- The flags of a reassembler, and what `add` reports.
use moq_veins_simulation_the.Base.{
  ℕ, suc, ◌^◌, ◌<◌, ◌≡◌, refl, ap, ◌⊎◌, inl, inr, arith, List, [], ◌∷◌, length, get_elem?,
  get_elem?-set, count_true, Bool, true, false, not, ◌&&◌, ℤ, some,
}
use moq_veins_simulation_the.Reader.{Bytes}
use moq_veins_simulation_the.MoqFraming.Fragment.{UdpFragment, fragment_at, fragment_count}
use moq_veins_simulation_the.MoqFraming.Reassembly.{
  Reassembler, begin, store, finish, place, add, flag_at,
}
use moq_veins_simulation_the.MoqFraming.Reassembly.Arith.{fragment_count_bounds}
use moq_veins_simulation_the.MoqFraming.Reassembly.Invariant.{
  n, Inv, Ready, begin-Inv, add-Inv, full-content,
}

-- A flag counts once the sizes are known.
abbrev pub Flagged : Reassembler → ℕ → Type 0
Flagged r j = (0 < r.frag_count) × (get_elem? r.have j ≡ some true)

all_set :
    (bs : List Bool)
    → ((j : ℕ) → j < length bs → get_elem? bs j ≡ some true)
    → count_true bs ≡ length bs
all_set [] h = refl
all_set (true ∷ bs) h = ap suc (all_set bs (λ j hj. h (suc j) (omega arith)))
all_set (false ∷ bs) h = absurd (cc (h 0 (omega arith)))

module _ (frame : Bytes) (mc : ℕ) (mc_pos : 0 < mc) (u32 : length frame < 2 ^ 32) (msg_class : ℕ)
    (track_alias : Bytes) (object_id : ℤ) where
  abbrev piece : ℕ → UdpFragment
  piece = fragment_at msg_class track_alias object_id frame mc (fragment_count (length frame) mc)

  -- A flag that is set stays set, and the flag of a fragment that was added is set.
  place_flags :
      (i j : ℕ) (r : Reassembler)
      → i < n frame mc
      → Inv frame mc r
      → (get_elem? r.have j ≡ some true) ⊎ (j ≡ i)
      → get_elem? (place (piece i) r).0.have j ≡ some true
  unfolding place fragment_at store finish
  place_flags i j r hi v h =
      ground (arith, v.counted, v.flags, get_elem?-set r.have i j true, set_flag r.have i)
    where
      set_flag : (bs : List Bool) (i : ℕ) → flag_at bs i ≡ true → get_elem? bs i ≡ some true
      set_flag bs i e = ground arith

  -- The result is true exactly where the reassembler becomes complete.
  place_result :
      (i : ℕ) (r : Reassembler)
      → (place (piece i) r).1 ≡ ((place (piece i) r).0.complete && not r.complete)
  unfolding place store finish
  place_result i r = ground arith

  begin-Flagged :
      (i j : ℕ) (now : ℤ) (r : Reassembler)
      → Flagged r j
      → get_elem? (begin (piece i) now r).have j ≡ some true
  unfolding begin
  begin-Flagged i j now r h = ground arith

  pub add-Flagged :
      (i j : ℕ) (now : ℤ) (r : Reassembler)
      → i < n frame mc
      → Ready frame mc r
      → Flagged r j ⊎ (j ≡ i)
      → Flagged (add (piece i) now r).0 j
  add-Flagged i j now r hi ready h =
      let (some_left, _, _) = fragment_count_bounds (length frame) mc mc_pos u32 in
      let v = begin-Inv frame mc mc_pos u32 msg_class track_alias object_id i now r ready in
      (
        omega (
          arith,
          (add-Inv frame mc mc_pos u32 msg_class track_alias object_id i now r hi ready).counted,
        ),
        unfold add in place_flags i j (begin (piece i) now r) hi v (was_or_is h),
      )
    where
      was_or_is :
          Flagged r j ⊎ (j ≡ i) → (get_elem? (begin (piece i) now r).have j ≡ some true) ⊎ (j ≡ i)
      was_or_is (inl f) = inl (begin-Flagged i j now r f)
      was_or_is (inr e) = inr e

  pub add_result :
      (i : ℕ) (now : ℤ) (r : Reassembler)
      → (add (piece i) now r).1 ≡ ((add (piece i) now r).0.complete && not r.complete)
  unfolding add begin
  add_result i now r = ground (arith, place_result i (begin (piece i) now r))

  pub add-complete :
      (i : ℕ) (now : ℤ) (r : Reassembler)
      → r.complete ≡ true
      → (add (piece i) now r).0.complete ≡ true
  unfolding add begin place store finish
  add-complete i now r h = ground arith

  -- With every flag set the object is complete, and it is the frame.
  pub all-Flagged :
      (r : Reassembler)
      → Ready frame mc r
      → ((j : ℕ) → j < n frame mc → Flagged r j)
      → (r.complete ≡ true) × (r.content ≡ frame)
  all-Flagged r (inl (fresh, _, _)) h =
      let (some_left, _, _) = fragment_count_bounds (length frame) mc mc_pos u32 in
      absurd (omega (arith, (h 0 some_left).0))
  all-Flagged r (inr v) h =
      let full = all_set r.have (λ j hj. (h j (omega (arith, v.flags))).1) in
      (
        ground (arith, v.completed, v.received, v.flags, full),
        full-content frame mc mc_pos u32 msg_class track_alias object_id r v
            (omega (arith, v.received, v.flags)),
      )
