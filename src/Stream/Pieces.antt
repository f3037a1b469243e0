-- ===== src/Stream/Pieces.antt =====
-- A byte stream arrives in pieces: whatever the cuts, the receive loop finds the messages in order.
use moq_veins_simulation_the.Base.{
  ℕ, ◌≡◌, refl, ap, ◌∙◌, List, [], ◌∷◌, ◌++◌, arith, length, drop-append, flat_map, All, ◌⊎◌, inl,
  inr,
}
use moq_veins_simulation_the.Reader.{Bytes, Parse, incomplete, parsed}
use moq_veins_simulation_the.Stream.{
  IsFraming, drained, push, drain, drain_incomplete, drain_parsed,
}

-- Two ways to cut one list: the first cut is behind the second, or before it.
abbrev Behind : Bytes → Bytes → Bytes → Bytes → Type 0
Behind xs ys zs ws = (m : Bytes) × (xs ≡ zs ++ m) × (m ++ ys ≡ ws)

abbrev Before : Bytes → Bytes → Type 0
Before xs zs = (b : ℕ) × (r : Bytes) × (xs ++ (b ∷ r) ≡ zs)

cons_parts : (x y : ℕ) (xs ys : Bytes) → x ∷ xs ≡ y ∷ ys → (x ≡ y) × (xs ≡ ys)
cons_parts x y xs ys e = (ground (arith, e), ground (arith, e))

cuts : (xs ys zs ws : Bytes) → xs ++ ys ≡ zs ++ ws → Behind xs ys zs ws ⊎ Before xs zs
cuts xs ys [] ws e = inl (xs, refl, e)
cuts [] ys (z ∷ zs) ws e = inr (z, zs, refl)
cuts (x ∷ xs) ys (z ∷ zs) ws e =
    let (h, t) = cons_parts x z (xs ++ ys) (zs ++ ws) e in
    elim (cuts xs ys zs ws t) [
      | inl (m, a, b) ↦ inl (m, ground (arith, h, a), b)
      | inr (b, r, a) ↦ inr (b, r, ground (arith, h, a))
    ]

module _ {A : Type 0} (parse : Bytes → Parse (A × ℕ)) (law : IsFraming parse) (write : A → Bytes)
    (IsFit : A → Type 0)
    (found : (a : A) (p : Bytes) → IsFit a → parse (write a ++ p) ≡ parsed (a, length (write a)))
    (short : (a : A) (q : Bytes) (b : ℕ) (r : Bytes)
      → IsFit a
      → q ++ (b ∷ r) ≡ write a
      → parse q ≡ incomplete)
    (nothing : parse [] ≡ incomplete) where
  -- What a first piece of a stream of messages gives: some of the messages, and a rest that with
  -- the second piece holds the others.
  pub drain_piece :
      (fs : List A) (buf more : Bytes)
      → All IsFit fs
      → buf ++ more ≡ flat_map write fs
      → (gs : List A) × (hs : List A) × (rest : Bytes) × (fs ≡ gs ++ hs)
        × (drain parse buf ≡ drained gs rest)
        × (parse rest ≡ incomplete)
        × (rest ++ more ≡ flat_map write hs)
  unfolding mathlib.Core.List.flat_map push
  drain_piece [] [] more a e = ([], [], [], refl, drain_incomplete parse law [] nothing, nothing, e)
  drain_piece [] (b ∷ buf) more a e = absurd (cc)
  drain_piece (f ∷ fs) buf more (h, a) e = elim (cuts buf more (write f) (flat_map write fs) e) [
    | inl (m, eb, em) ↦
        let (gs, hs, rest, ef, ed, ei, er) = drain_piece fs m more a em in
        (
          f ∷ gs,
          hs,
          rest,
          ap (λ l. f ∷ l) ef,
          rw eb (
              drain_parsed parse law (write f ++ m) f (length (write f)) (found f m h)
              ∙ rw (drop-append (write f) m) (ap (push f) ed)),
          ei,
          er,
        )
    | inr (b, r, eb) ↦ (
      [],
      f ∷ fs,
      buf,
      refl,
      drain_incomplete parse law buf (short f buf b r h eb),
      short f buf b r h eb,
      e,
    )
  ]
