-- ===== src/MqttFraming/Packet.antt =====
-- models/MqttFraming.h: frame, MqttPacket, tryParse.
use moq_veins_simulation_the.Base.{
  ℕ, suc, ◌+◌, ◌-◌, ◌*◌, ◌/◌, ◌%◌, ◌^◌, ◌≤◌, ◌<◌, ◌≡◌, refl, ap, sym, ◌∙◌, List, [], ◌∷◌, ◌++◌,
  none, some, arith, length, length-append, append_assoc, ltb, ltb_false→le, le→ltb_false,
  Bool-cases, Option-cases, inl, inr, if◌then◌else◌, take, take-append, take-append_le, flat_map,
  All,
}
use moq_veins_simulation_the.Reader.{Bytes, Parse, incomplete, parsed}
use moq_veins_simulation_the.Stream.{IsFraming, drain, push_all, drain-flat_map}
use moq_veins_simulation_the.MqttFraming.Words.{
  put_var_int, get_var_int, get_var_int-put_var_int, get_var_int-Reads,
}

pub record MqttPacket : Type 0 where
  pub type : ℕ
  pub flags : ℕ
  pub body : Bytes

-- `(type << 4) | (flags & 0x0f)`, and the Remaining Length.
unfoldable pub frame : ℕ → ℕ → Bytes → Bytes
frame type flags body =
    (type * 16 % 256 + flags % 16) ∷ (put_var_int (length body % 2 ^ 32) ++ body)

-- `incomplete` where it returns false. `lenBytes` is what the Variable Byte Integer took.
unfoldable pub try_parse : Bytes → Parse (MqttPacket × ℕ)
try_parse [] = incomplete
try_parse (b ∷ p) = elim (get_var_int p) [
  | none ↦ incomplete
  | some (remaining, start) ↦
      let total = 1 + (length p - length start) + remaining in
      if ltb (length (b ∷ p)) total
      then incomplete
      else parsed (record { type = b / 16; flags = b % 16; body = take remaining start }, total)
]

-- What tryParse can hand back of a packet.
pub record IsPacket (k : MqttPacket) : Type 0 where
  pub type : k.type < 16
  pub flags : k.flags < 16
  pub fits : length k.body < 2 ^ 28

abbrev pub write : MqttPacket → Bytes
write k = frame k.type k.flags k.body

-- The packet that the first bytes of a buffer hold.
abbrev packet_of : ℕ → ℕ → Bytes → MqttPacket
packet_of b remaining start = record { type = b / 16; flags = b % 16; body = take remaining start }

try_parse_step :
    (b remaining : ℕ) (p start : Bytes)
    → get_var_int p ≡ some (remaining, start)
    → (length p - length start) + remaining ≤ length p
    → try_parse (b ∷ p)
      ≡ parsed (packet_of b remaining start, 1 + (length p - length start) + remaining)
unfolding try_parse
try_parse_step b remaining p start e h =
    rw (e, try_parse)
      (rw (le→ltb_false (length (b ∷ p)) (1 + (length p - length start) + remaining) (omega arith))
        refl)

parsed_same :
    (k k' : MqttPacket) (n n' : ℕ)
    → k ≡ k'
    → n ≡ n'
    → ◌≡◌ {A = Parse (MqttPacket × ℕ)} (parsed (k, n)) (parsed (k', n'))
parsed_same k k' n n' e e' = cc

-- A packet at the front of a stream is parsed, whatever follows it.
pub try_parse-frame :
    (k : MqttPacket) (p : Bytes)
    → IsPacket k
    → try_parse (write k ++ p) ≡ parsed (k, length (write k))
unfolding frame
try_parse-frame k p h =
    let fits : length k.body % 2 ^ 32 ≡ length k.body = omega (arith, h.fits) in
    let tail : Bytes = put_var_int (length k.body) ++ (k.body ++ p) in
    let first : ℕ = k.type * 16 % 256 + k.flags % 16 in
    let type : first / 16 ≡ k.type = omega (arith, h.type, h.flags) in
    let flags : first % 16 ≡ k.flags = omega (arith, h.type, h.flags) in
    let step =
      try_parse_step first (length k.body) tail (k.body ++ p)
        (get_var_int-put_var_int (length k.body) (k.body ++ p) h.fits)
        (omega (
          arith,
          length-append (put_var_int (length k.body)) (k.body ++ p),
          length-append k.body p,
        )) in
    let same : packet_of first (length k.body) (k.body ++ p) ≡ k =
      rw (type, flags, take-append k.body p) refl in
    let size : 1 + (length tail - length (k.body ++ p)) + length k.body
        ≡ suc (length (put_var_int (length k.body) ++ k.body)) =
      omega (
        arith,
        length-append (put_var_int (length k.body)) (k.body ++ p),
        length-append (put_var_int (length k.body)) k.body,
      ) in
    rw (fits, append_assoc) (step ∙ parsed_same _ _ _ _ same size)

-- What a successful parse says of the buffer.
module _ (buf : Bytes) where
  abbrev Parsed : MqttPacket → ℕ → Type 0
  Parsed k n =
      (b : ℕ) × (p : Bytes) × (start : Bytes) × (remaining : ℕ) × (buf ≡ b ∷ p)
      × (get_var_int p ≡ some (remaining, start))
      × (n ≡ 1 + (length p - length start) + remaining)
      × (n ≤ length buf)
      × (k ≡ packet_of b remaining start)

try_parse_cases :
    (buf : Bytes) (k : MqttPacket) (n : ℕ) → try_parse buf ≡ parsed (k, n) → Parsed buf k n
unfolding try_parse
try_parse_cases [] k n e = absurd (cc)
try_parse_cases (b ∷ p) k n e = elim (Option-cases (get_var_int p)) [
  | inl h ↦ absurd (cc (rw (h, try_parse) at e))
  | inr ((remaining, start), h) ↦
      elim (Bool-cases (ltb (length (b ∷ p)) (1 + (length p - length start) + remaining))) [
        | inl hl ↦ absurd (cc (rw (h, hl, try_parse) at e))
        | inr hl ↦
            let e' : ◌≡◌ {A = Parse (MqttPacket × ℕ)}
                (parsed (packet_of b remaining start, 1 + (length p - length start) + remaining))
                (parsed (k, n)) =
              rw (h, hl, try_parse) at e in
            let n' : n ≡ 1 + (length p - length start) + remaining = ground (arith, e') in
            let le = ltb_false→le _ _ hl in
            (
              b,
              p,
              start,
              remaining,
              refl,
              h,
              n',
              omega (arith, le, n'),
              sym (ap (λ r. elim r [ parsed x ↦ x.0 | _ ↦ k ]) e'),
            )
      ]
]

-- A packet that a buffer holds whole is found there whatever bytes come after.
pub try_parse-IsFraming : IsFraming try_parse
try_parse-IsFraming = record {
  progress = λ buf k n e.
      let (b, p, start, remaining, eb, ev, en, le, ek) = try_parse_cases buf k n e in
      omega (arith, le, en);
  stable = λ buf more k n e.
      let (b, p, start, remaining, eb, ev, en, le, ek) = try_parse_cases buf k n e in
      let shorter = get_var_int-Reads.takes p start remaining ev in
      let longer : (length (p ++ more) - length (start ++ more)) + remaining ≤ length (p ++ more) =
        omega (
          arith,
          le,
          en,
          ap {A = Bytes} length eb,
          length-append p more,
          length-append start more,
          shorter,
        ) in
      rw eb (
        try_parse_step b remaining (p ++ more) (start ++ more)
          (get_var_int-Reads.stable p start more remaining ev) longer
        ∙ parsed_same _ _ _ _
            (ap (λ x. record { type = b / 16; flags = b % 16; body = x })
                (take-append_le remaining start more
                  (omega (arith, le, en, ap {A = Bytes} length eb, shorter)))
              ∙ sym ek)
            (omega (arith, en, length-append p more, length-append start more, shorter)));
}

-- MQTT packets whose type and flags fit four bits and whose bodies are shorter than 2^28 bytes,
-- framed one after the other, are all delimited by the receive loop in their order, and the
-- bytes behind them are drained as they would be alone.
pub drain-frame :
    (ks : List MqttPacket) (p : Bytes)
    → All IsPacket ks
    → drain try_parse (flat_map write ks ++ p) ≡ push_all ks (drain try_parse p)
drain-frame = drain-flat_map try_parse try_parse-IsFraming write IsPacket try_parse-frame
