-- ===== src/MoqFraming/Reassembly/Arith.antt =====
-- How fragmentFrame cuts a frame: the arithmetic of indices and offsets.
use moq_veins_simulation_the.Base.{
  ℕ, suc, ◌+◌, ◌-◌, ◌*◌, ◌/◌, ◌%◌, ◌^◌, ◌≤◌, ◌<◌, ◌≡◌, min, ap, ◌⊎◌, inl, inr, arith,
}
use moq_veins_simulation_the.MoqFraming.Fragment.{fragment_count}
use native.Mathlib.Nat.{
  mod-lt, div-add-mod', div-lt_iff_lt-mul, le-mul_of_pos_right, mul-le-mul_right,
}

module _ (len mc : ℕ) (mc_pos : 0 < mc) (len_u32 : len < 2 ^ 32) where
  abbrev quotient : ℕ
  quotient = (len + mc - 1) / mc

  quotient_bounds : (len ≤ quotient * mc) × (quotient * mc ≤ len + mc - 1)
  quotient_bounds = omega (arith, div-add-mod' (len + mc - 1) mc, mod-lt (len + mc - 1) mc_pos)

  quotient-le : quotient ≤ len
  quotient-le = omega (
    arith,
    (div-lt_iff_lt-mul {k = mc} {x = len + mc - 1} {y = suc len} mc_pos).1
        (omega (arith, le-mul_of_pos_right {m = mc} len mc_pos)),
  )

  fragment_count_cases :
      ((fragment_count len mc ≡ quotient) × (0 < quotient))
      ⊎ ((fragment_count len mc ≡ 1) × (quotient ≡ 0))
  unfolding fragment_count
  fragment_count_cases = ground (arith, quotient-le)

  -- There is a fragment, their number is no more than a `uint32_t` holds, and they cover the frame.
  pub fragment_count_bounds :
      (0 < fragment_count len mc)
      × (fragment_count len mc < 2 ^ 32)
      × (len ≤ fragment_count len mc * mc)
  fragment_count_bounds = elim fragment_count_cases [
    | inl (e, some_left) ↦ rw e (some_left, omega (arith, quotient-le), quotient_bounds.0)
    | inr (e, none_left) ↦
        rw e (
          omega arith,
          omega arith,
          omega (arith, quotient_bounds, ap (λ (t : ℕ). t * mc) none_left),
        )
  ]

  -- Every fragment starts inside the frame.
  pub offset-le : (i : ℕ) → i < fragment_count len mc → i * mc ≤ len
  offset-le i h = elim fragment_count_cases [
    | inl (e, _) ↦
        let below : suc i ≤ quotient = rw e at h in
        omega (arith, mul-le-mul_right mc below, quotient_bounds)
    | inr (e, _) ↦ let first : i ≡ 0 = omega (arith, e) in rw first (omega arith)
  ]

  -- Every byte lies in one fragment.
  pub byte_in_fragment :
      (k : ℕ)
      → k < len
      → (k / mc < fragment_count len mc)
        × (k / mc * mc + k % mc ≡ k)
        × (k % mc < min mc (len - k / mc * mc))
  byte_in_fragment k h =
      let (_, _, covered) = fragment_count_bounds in
      (
        (div-lt_iff_lt-mul mc_pos).1 (omega arith),
        div-add-mod' k mc,
        omega (arith, mod-lt k mc_pos, div-add-mod' k mc),
      )
