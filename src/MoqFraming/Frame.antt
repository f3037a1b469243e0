-- ===== src/MoqFraming/Frame.antt =====
-- models/MoqFraming.h: the length prefix that object and control frames share.
use moq_veins_simulation_the.Base.{
  ℕ, ◌+◌, ◌^◌, ◌%◌, ◌<◌, ◌≤◌, ◌≡◌, ◌++◌, none, some, arith, length, length-append, ltb,
  le→ltb_false, if◌then◌else◌, append_assoc, Option-cases, inl, inr, Bool-cases, ltb_false→le, suc,
  ◌∷◌, [], refl, sym, ap, ◌∙◌, lt→ltb,
}
use moq_veins_simulation_the.Reader.{
  Bytes, Reader, Parse, incomplete, parsed, overread, Reads, get_byte, return, ◌>>=◌,
}
use moq_veins_simulation_the.Stream.{IsFraming}
use moq_veins_simulation_the.MoqFraming.Words.{
  put_u32, get_u32, get_u32-put_u32, length-put_u32, get_u32-Reads,
}

-- The length prefix and what it counts.
unfoldable pub with_length : Bytes → Bytes
with_length body = put_u32 (length body % 2 ^ 32) ++ body

-- `size < 4`, then `size < 4 + bodyLen`, then the reads of the body, which no test guards.
unfoldable pub parse_frame {ℓ} : {A : Type ℓ} → Reader A → Bytes → Parse (A × ℕ)
parse_frame read buf = if ltb (length buf) 4 then incomplete else elim (get_u32 buf) [
  | none ↦ overread
  | some (body_len, p) ↦
      if ltb (length buf) (4 + body_len)
      then incomplete
      else elim (read p) [ none ↦ overread | some (a, q) ↦ parsed (a, 4 + body_len) ]
]

parse_frame_step {ℓ} :
    {A : Type ℓ} (read : Reader A) (buf p q : Bytes) (n : ℕ) (a : A)
    → get_u32 buf ≡ some (n, p)
    → 4 + n ≤ length buf
    → read p ≡ some (a, q)
    → parse_frame read buf ≡ parsed (a, 4 + n)
unfolding parse_frame
parse_frame_step read buf p q n a hu hn hr =
    rw (le→ltb_false (length buf) 4 (omega arith))
      (rw hu (rw (le→ltb_false (length buf) (4 + n) hn) (rw hr)))

-- A whole frame at the front of a buffer is parsed, whatever follows it.
pub parse_frame-with_length {ℓ} :
    {A : Type ℓ} (read : Reader A) (body p q : Bytes) (a : A)
    → length body < 2 ^ 32
    → read (body ++ p) ≡ some (a, q)
    → parse_frame read (with_length body ++ p) ≡ parsed (a, length (with_length body))
unfolding with_length
parse_frame-with_length read body p q a h e =
    let fits : length body % 2 ^ 32 ≡ length body = omega arith in
    rw (fits, append_assoc)
      (rw (length-append (put_u32 (length body)) body, length-put_u32 (length body))
        (parse_frame_step read _ (body ++ p) q (length body) a
          (get_u32-put_u32 (length body) (body ++ p) h)
          (omega (
            arith,
            length-append body p,
            length-append (put_u32 (length body)) (body ++ p),
            length-put_u32 (length body),
          ))
          e))

-- What a successful parse says of the buffer.
module _ {A : Type 0} (read : Reader A) (buf : Bytes) where
  abbrev Parsed : A → ℕ → Type 0
  Parsed a k =
      (n : ℕ) × (p : Bytes) × (q : Bytes) × (get_u32 buf ≡ some (n, p))
      × (4 + n ≤ length buf)
      × (read p ≡ some (a, q))
      × (k ≡ 4 + n)

  parse_frame_cases : (a : A) (k : ℕ) → parse_frame read buf ≡ parsed (a, k) → Parsed a k
  unfolding parse_frame
  parse_frame_cases a k e = elim (Bool-cases (ltb (length buf) 4)) [
    | inl h ↦ absurd (cc (rw h at e))
    | inr h ↦ elim (Option-cases (get_u32 buf)) [
      | inl hu ↦ absurd (cc (rw (h, hu) at e))
      | inr ((n, p), hu) ↦ elim (Bool-cases (ltb (length buf) (4 + n))) [
        | inl hn ↦ absurd (cc (rw (h, hu, hn) at e))
        | inr hn ↦ elim (Option-cases (read p)) [
          | inl hr ↦ absurd (cc (rw (h, hu, hn, hr) at e))
          | inr ((b, q), hr) ↦
              let e' : ◌≡◌ {A = Parse (A × ℕ)} (parsed (b, 4 + n)) (parsed (a, k)) =
                rw (h, hu, hn, hr) at e in
              (n, p, q, hu, ltb_false→le _ _ hn, ground arith, ground arith)
        ]
      ]
    ]
  ]

-- A frame that a buffer holds whole is found there whatever bytes come after.
pub parse_frame-IsFraming :
    {A : Type 0} (k : ℕ) (read : Reader A) → Reads k read → IsFraming (parse_frame read)
parse_frame-IsFraming k read r = record {
  progress = λ buf a n e.
      let (len, p, q, hu, hn, hr, hk) = parse_frame_cases read buf a n e in omega arith;
  stable = λ buf more a n e.
      let (len, p, q, hu, hn, hr, hk) = parse_frame_cases read buf a n e in
      rw hk (
        parse_frame_step read (buf ++ more) (p ++ more) (q ++ more) len a
          (get_u32-Reads.stable buf p more len hu) (omega (arith, length-append buf more))
          (r.stable p q more a hr));
}

-- A body that is too short for its fixed fields, with nothing behind it, is read past its end.
pub parse_frame_overread :
    {A : Type 0} (k : ℕ) (read : Reader A) (buf p : Bytes) (n : ℕ)
    → Reads k read
    → get_u32 buf ≡ some (n, p)
    → length buf ≡ 4 + n
    → n < k
    → parse_frame read buf ≡ overread
unfolding parse_frame
parse_frame_overread k read buf p n r hu hl hn = elim (Option-cases (read p)) [
  | inl hr ↦
      rw (le→ltb_false (length buf) 4 (omega arith))
        (rw hu (rw (le→ltb_false (length buf) (4 + n) (omega arith)) (rw hr)))
  | inr ((a, q), hr) ↦ absurd (omega (arith, r.takes p q a hr, get_u32-Reads.takes buf p n hu))
]

get_u32-none : (p : Bytes) → get_u32 p ≡ none → length p < 4
unfolding get_u32 get_byte return ◌>>=◌
get_u32-none [] e = omega arith
get_u32-none (a ∷ []) e = omega arith
get_u32-none (a ∷ b ∷ []) e = omega arith
get_u32-none (a ∷ b ∷ c ∷ []) e = omega arith
get_u32-none (a ∷ b ∷ c ∷ d ∷ p) e = absurd (cc)

-- A frame that has not arrived whole is left in the buffer.
pub parse_frame_short :
    {A : Type 0} (read : Reader A) (body q : Bytes) (b : ℕ) (r : Bytes)
    → length body < 2 ^ 32
    → q ++ (b ∷ r) ≡ with_length body
    → parse_frame read q ≡ incomplete
unfolding parse_frame with_length
parse_frame_short read body q b r h e =
    let fits : length body % 2 ^ 32 ≡ length body = omega arith in
    let e' : q ++ (b ∷ r) ≡ put_u32 (length body) ++ body = e ∙ ap (λ n. put_u32 n ++ body) fits in
    let size : length q + suc (length r) ≡ 4 + length body = omega (
      arith,
      ap (λ (l : Bytes). length l) e',
      length-append q (b ∷ r),
      length-append (put_u32 (length body)) body,
      length-put_u32 (length body),
    ) in
    elim (Bool-cases (ltb (length q) 4)) [
      | inl few ↦ rw few refl
      | inr enough ↦ elim (Option-cases (get_u32 q)) [
        | inl hu ↦ absurd (omega (arith, get_u32-none q hu, ltb_false→le _ _ enough))
        | inr ((n, p), hu) ↦
            let both : some (n, p ++ (b ∷ r)) ≡ some (length body, body) =
              sym (get_u32-Reads.stable q p (b ∷ r) n hu)
              ∙ ap get_u32 e'
              ∙ get_u32-put_u32 (length body) body h in
            let same : n ≡ length body = ground (arith, both) in
            rw enough (rw hu (rw (lt→ltb (length q) (4 + n) (omega (arith, same, size))) refl))
      ]
    ]
