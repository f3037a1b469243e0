-- ===== src/MoqFraming/Envelope.antt =====
-- models/MoqFraming.h: the class byte that tells control and object frames apart on a TCP stream.
use moq_veins_simulation_the.Base.{
  ℕ, ◌+◌, ◌≡◌, ap, ◌<◌, ◌≤◌, All, flat_map, List, [], ◌∷◌, ◌++◌, arith, length, ◌==◌, if◌then◌else◌,
  inl, inr, Bool-cases,
}
use moq_veins_simulation_the.Reader.{Bytes, Parse, incomplete, parsed, overread}
use moq_veins_simulation_the.Stream.{IsFraming, drain, push_all, drain-flat_map, Parse-cases}
use moq_veins_simulation_the.MoqFraming.Object.{
  ObjectFrame, encode, try_parse, IsObject, try_parse-encode, try_parse-IsFraming,
}
use moq_veins_simulation_the.MoqFraming.Control.{
  ControlFrame, encode_control, try_parse_control, IsControl, try_parse_control-encode_control,
  try_parse_control-IsFraming,
}

abbrev pub msg_control : ℕ
msg_control = 1

abbrev pub msg_object : ℕ
msg_object = 2

unfoldable pub encode_envelope : ℕ → Bytes → Bytes
encode_envelope msg_class frame = msg_class ∷ frame

-- The results 1, 2 and -1 of tryParseEnvelope; 0 is `incomplete`.
pub data Enveloped : Type 0 where
  control : ControlFrame → Enveloped
  object : ObjectFrame → Enveloped
  unknown_class : Enveloped

-- The frame behind the class byte.
unfoldable pub inside {ℓ} : {A : Type ℓ} → (A → Enveloped) → Parse (A × ℕ) → Parse (Enveloped × ℕ)
inside wrap incomplete = incomplete
inside wrap (parsed (a, consumed)) = parsed (wrap a, 1 + consumed)
inside wrap overread = overread

unfoldable pub try_parse_envelope : Bytes → Parse (Enveloped × ℕ)
unfolding inside
try_parse_envelope [] = incomplete
try_parse_envelope (cls ∷ frame) =
    if cls == msg_control
    then inside control (try_parse_control frame)
    else if cls == msg_object
    then inside object (try_parse frame)
    else parsed (unknown_class, 1)

-- What a sender writes on a TCP stream.
unfoldable pub write_enveloped : Enveloped → Bytes
unfolding encode_envelope
write_enveloped (control c) = encode_envelope msg_control (encode_control c)
write_enveloped (object f) = encode_envelope msg_object (encode f)
write_enveloped unknown_class = []

abbrev pub IsEnveloped : Enveloped → Type 0
IsEnveloped (control c) = IsControl c
IsEnveloped (object f) = IsObject f
IsEnveloped unknown_class = ⊥

-- Control and object frames on one stream come back as what they were, whatever follows them.
pub try_parse_envelope-write :
    (e : Enveloped) (p : Bytes)
    → IsEnveloped e
    → try_parse_envelope (write_enveloped e ++ p) ≡ parsed (e, length (write_enveloped e))
unfolding try_parse_envelope write_enveloped
try_parse_envelope-write (control c) p h =
    rw (try_parse_control-encode_control c p h, inside)
      (ap (λ (k : ℕ). parsed (control c, k)) (omega arith))
try_parse_envelope-write (object f) p h =
    rw (try_parse-encode f p h, inside) (ap (λ (k : ℕ). parsed (object f, k)) (omega arith))
try_parse_envelope-write unknown_class p h = absurd h

module _ {A : Type 0} (wrap : A → Enveloped) (parse : Bytes → Parse (A × ℕ)) where
  abbrev Inside : Bytes → Enveloped → ℕ → Type 0
  Inside frame e k = (a : A) × (n : ℕ) × (parse frame ≡ parsed (a, n)) × (e ≡ wrap a) × (k ≡ 1 + n)

  inside_cases :
      (frame : Bytes) (e : Enveloped) (k : ℕ)
      → inside wrap (parse frame) ≡ parsed (e, k)
      → Inside frame e k
  unfolding inside
  inside_cases frame e k h = elim (Parse-cases (parse frame)) [
    | inl i ↦ absurd (cc (rw (i, inside) at h))
    | inr (inl ((a, n), i)) ↦
        let h' : ◌≡◌ {A = Parse (Enveloped × ℕ)} (parsed (wrap a, 1 + n)) (parsed (e, k)) =
          rw (i, inside) at h in
        (a, n, i, ground arith, ground arith)
    | inr (inr i) ↦ absurd (cc (rw (i, inside) at h))
  ]

  inside_stable :
      (frame more : Bytes) (e : Enveloped) (k : ℕ)
      → IsFraming parse
      → inside wrap (parse frame) ≡ parsed (e, k)
      → inside wrap (parse (frame ++ more)) ≡ parsed (e, k)
  unfolding inside
  inside_stable frame more e k law h =
      let (a, n, hp, he, hk) = inside_cases frame e k h in
      rw (law.stable frame more a n hp, inside) (rw (he, hk))

pub try_parse_envelope-IsFraming : IsFraming try_parse_envelope
unfolding try_parse_envelope
try_parse_envelope-IsFraming = record { progress = progress; stable = stable }
  where
    progress :
        (buf : Bytes) (e : Enveloped) (k : ℕ)
        → try_parse_envelope buf ≡ parsed (e, k)
        → (0 < k) × (k ≤ length buf)
    progress [] e k h = absurd (cc)
    progress (cls ∷ frame) e k h = elim (Bool-cases (cls == msg_control)) [
      | inl c ↦
          let (a, n, hp, he, hk) = inside_cases control try_parse_control frame e k (rw c at h) in
          omega (arith, try_parse_control-IsFraming.progress frame a n hp)
      | inr c ↦ elim (Bool-cases (cls == msg_object)) [
        | inl o ↦
            let (a, n, hp, he, hk) = inside_cases object try_parse frame e k (rw (c, o) at h) in
            omega (arith, try_parse-IsFraming.progress frame a n hp)
        | inr o ↦
            let h' : ◌≡◌ {A = Parse (Enveloped × ℕ)} (parsed (unknown_class, 1)) (parsed (e, k)) =
              rw (c, o) at h in
            ground arith
      ]
    ]

    stable :
        (buf more : Bytes) (e : Enveloped) (k : ℕ)
        → try_parse_envelope buf ≡ parsed (e, k)
        → try_parse_envelope (buf ++ more) ≡ parsed (e, k)
    stable [] more e k h = absurd (cc)
    stable (cls ∷ frame) more e k h = elim (Bool-cases (cls == msg_control)) [
      | inl c ↦ rw c (
          inside_stable control try_parse_control frame more e k try_parse_control-IsFraming
            (rw c at h))
      | inr c ↦ elim (Bool-cases (cls == msg_object)) [
        | inl o ↦
            rw (c, o)
              (inside_stable object try_parse frame more e k try_parse-IsFraming (rw (c, o) at h))
        | inr o ↦ rw (c, o) (rw (c, o) at h)
      ]
    ]

-- Control and object frames whose fields fit their widths, written in envelopes on one stream,
-- come back in their order and each as the kind it is, and the bytes behind them are drained as
-- they would be alone.
pub drain-write_enveloped :
    (es : List Enveloped) (p : Bytes)
    → All IsEnveloped es
    → drain try_parse_envelope (flat_map write_enveloped es ++ p)
      ≡ push_all es (drain try_parse_envelope p)
drain-write_enveloped =
    drain-flat_map try_parse_envelope try_parse_envelope-IsFraming write_enveloped IsEnveloped
      try_parse_envelope-write
