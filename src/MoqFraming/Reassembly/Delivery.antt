-- ===== src/MoqFraming/Reassembly/Delivery.antt =====
-- A whole delivery of one object's datagrams: lost ones are missing, late and repeated ones come in
-- any order. The receivers call `add` for each.
use moq_veins_simulation_the.Base.{
  ℕ, ◌+◌, ◌^◌, ◌<◌, ◌≡◌, refl, ◌⊎◌, inl, inr, arith, List, [], ◌∷◌, All, length, if◌then◌else◌,
  Bool, true, false, Bool-cases, ℤ,
}
use moq_veins_simulation_the.Reader.{Bytes}
use moq_veins_simulation_the.MoqFraming.Fragment.{fragment_at, fragment_count}
use moq_veins_simulation_the.MoqFraming.Reassembly.{Reassembler, empty, add}
use moq_veins_simulation_the.MoqFraming.Reassembly.Invariant.{n, Ready, add-Inv, complete-content}
use moq_veins_simulation_the.MoqFraming.Reassembly.Flags.{
  Flagged, add-Flagged, add_result, add-complete, all-Flagged,
}

module _ (frame : Bytes) (mc : ℕ) (msg_class : ℕ) (track_alias : Bytes) (object_id : ℤ) where
  -- The fragments with these indices arrive at these times; the second part counts the calls of
  -- `add` that returned true.
  unfoldable pub deliver : List (ℕ × ℤ) → Reassembler → Reassembler × ℕ
  deliver [] r = (r, 0)
  deliver ((i, now) ∷ arrivals) r =
      let (r', done) =
        add
          (fragment_at msg_class track_alias object_id frame mc (fragment_count (length frame) mc)
            i)
          now r in
      let (last, times) = deliver arrivals r' in (last, (if done then 1 else 0) + times)

-- The index `j` is among the arrivals.
abbrev pub Arrives : ℕ → List (ℕ × ℤ) → Type 0
Arrives j [] = ⊥
Arrives j ((i, now) ∷ arrivals) = (j ≡ i) ⊎ Arrives j arrivals

abbrev bit : Bool → ℕ
bit b = if b then 1 else 0

module _ (frame : Bytes) (mc : ℕ) (mc_pos : 0 < mc) (u32 : length frame < 2 ^ 32) (msg_class : ℕ)
    (track_alias : Bytes) (object_id : ℤ) where
  abbrev run : List (ℕ × ℤ) → Reassembler → Reassembler × ℕ
  run = deliver frame mc msg_class track_alias object_id

  abbrev after_first : ℕ → ℤ → Reassembler → Reassembler
  after_first i now r =
      (add
        (fragment_at msg_class track_alias object_id frame mc (fragment_count (length frame) mc) i)
        now r).0

  abbrev Keeps : List (ℕ × ℤ) → Reassembler → Type 0
  Keeps arrivals r =
      Ready frame mc (run arrivals r).0
      × ((j : ℕ) → Flagged r j ⊎ Arrives j arrivals → Flagged (run arrivals r).0 j)
      × ((run arrivals r).1 + bit r.complete ≡ bit (run arrivals r).0.complete)

  -- From a consistent state every arrival is flagged at the end, what was flagged stays so, and
  -- the calls that returned true are those that completed the object.
  deliver-Keeps :
      (arrivals : List (ℕ × ℤ)) (r : Reassembler)
      → All (λ a. a.0 < n frame mc) arrivals
      → Ready frame mc r
      → Keeps arrivals r
  unfolding deliver
  deliver-Keeps [] r h v = (v, kept, omega arith)
    where
      kept : (j : ℕ) → Flagged r j ⊎ ⊥ → Flagged r j
      kept j (inl f) = f
      kept j (inr e) = absurd e
  deliver-Keeps ((i, now) ∷ arrivals) r h v =
      let r' = after_first i now r in
      let v' = add-Inv frame mc mc_pos u32 msg_class track_alias object_id i now r h.0 v in
      let (ready, flags, times) = deliver-Keeps arrivals r' h.1 (inr v') in
      (
        ready,
        λ j f. flags j (step j f),
        ground (
          arith,
          times,
          add_result frame mc mc_pos u32 msg_class track_alias object_id i now r,
          add-complete frame mc mc_pos u32 msg_class track_alias object_id i now r,
        ),
      )
    where
      step :
          (j : ℕ)
          → Flagged r j ⊎ ((j ≡ i) ⊎ Arrives j arrivals)
          → Flagged (after_first i now r) j ⊎ Arrives j arrivals
      step j (inl f) =
          inl (
            add-Flagged frame mc mc_pos u32 msg_class track_alias object_id i j now r h.0 v (inl f))
      step j (inr (inl e)) =
          inl (
            add-Flagged frame mc mc_pos u32 msg_class track_alias object_id i j now r h.0 v (inr e))
      step j (inr (inr a)) = inr a

  -- When every fragment of a frame of fewer than 2^32 bytes, cut into pieces of at most mc
  -- bytes with mc above 0, arrives at an empty reassembler, in any order and however often, the
  -- object is complete, its content is the frame, and exactly one call of add returned true.
  pub deliver-empty :
      (arrivals : List (ℕ × ℤ))
      → All (λ a. a.0 < fragment_count (length frame) mc) arrivals
      → ((j : ℕ) → j < fragment_count (length frame) mc → Arrives j arrivals)
      → let (r, times) = deliver frame mc msg_class track_alias object_id arrivals empty in
        (r.complete ≡ true) × (r.content ≡ frame) × (times ≡ 1)
  deliver-empty arrivals h cover =
      let (ready, flags, times) = deliver-Keeps arrivals empty h (inl (refl, refl, refl)) in
      let (done, whole) =
        all-Flagged frame mc mc_pos u32 msg_class track_alias object_id _ ready
          (λ j hj. flags j (inr (cover j hj))) in
      (done, whole, ground (arith, times, done))

  -- Whichever fragments of a frame of fewer than 2^32 bytes arrive at an empty reassembler, in
  -- any order and however often, either no call of add returned true and the object is not
  -- complete, or exactly one did and the content is the frame.
  pub deliver_sound :
      (arrivals : List (ℕ × ℤ))
      → All (λ a. a.0 < fragment_count (length frame) mc) arrivals
      → let (r, times) = deliver frame mc msg_class track_alias object_id arrivals empty in
        ((times ≡ 0) × (r.complete ≡ false)) ⊎ ((times ≡ 1) × (r.content ≡ frame))
  deliver_sound arrivals h =
      let (ready, flags, times) = deliver-Keeps arrivals empty h (inl (refl, refl, refl)) in
      sound _ ready times
    where
      sound :
          (p : Reassembler × ℕ)
          → Ready frame mc p.0
          → p.1 + 0 ≡ bit p.0.complete
          → ((p.1 ≡ 0) × (p.0.complete ≡ false)) ⊎ ((p.1 ≡ 1) × (p.0.content ≡ frame))
      sound (r, times) (inl (_, _, unfinished)) e = inl (ground (arith, unfinished), unfinished)
      sound (r, times) (inr v) e = elim (Bool-cases r.complete) [
        | inl done ↦ inr (
          ground arith,
          complete-content frame mc mc_pos u32 msg_class track_alias object_id r v done,
        )
        | inr open_ ↦ inl (ground arith, open_)
      ]
