-- ===== src/MoqFraming/Fragment.antt =====
-- models/MoqFraming.h: UDP datagrams, encodeUdpFragment, fragmentFrame, parseUdpFragment.
use moq_veins_simulation_the.Base.{
  ℕ, zero, suc, ◌+◌, ◌-◌, ◌*◌, ◌/◌, ◌^◌, ◌%◌, ◌<◌, ◌≡◌, ◌≢◌, ◌∙◌, List, [], ◌∷◌, ◌++◌, none, some,
  arith, length, length-append, map, take, drop, min, ltb, ltb_false→le, le→ltb_false, ◌==◌,
  if◌then◌else◌, ℤ, IsI64, Bool-cases, inl, inr,
}
use moq_veins_simulation_the.Reader.{
  Bytes, Reader, ◌>>=◌, return, get_byte, Fixed, >>=-Fixed, return-Fixed, get_byte-Fixed, get_bytes,
  get_bytes-append, get_bytes-Fixed, Parse, incomplete, parsed, overread,
}
use moq_veins_simulation_the.MoqFraming.Words.{
  put_i64, put_u32, get_u32, get_i64, get_i64-then, get_u32-then, get_i64-Fixed, get_u32-Fixed,
  get_byte-then,
}

pub record UdpFragment : Type 0 where
  pub msg_class : ℕ
  pub object_id : ℤ
  pub frag_index : ℕ
  pub frag_count : ℕ
  pub frag_offset : ℕ
  pub total_len : ℕ
  pub track_alias : Bytes
  pub chunk : Bytes

unfoldable pub encode_udp_fragment : UdpFragment → Bytes
encode_udp_fragment f =
    f.msg_class
    ∷ (put_i64 f.object_id
        ++ (put_u32 f.frag_index
            ++ (put_u32 f.frag_count
                ++ (put_u32 f.frag_offset
                    ++ (put_u32 f.total_len
                        ++ (put_u32 (length f.track_alias % 2 ^ 32)
                            ++ (f.track_alias ++ f.chunk)))))))

-- The fragment with index `i`: `len = min(maxChunk, frame.size() - off)` bytes from `off`.
unfoldable pub fragment_at : ℕ → Bytes → ℤ → Bytes → ℕ → ℕ → ℕ → UdpFragment
fragment_at msg_class track_alias object_id frame max_chunk frag_count i =
    let off : ℕ = i * max_chunk in
    let len : ℕ = min max_chunk (length frame - off) in
    record {
      msg_class = msg_class;
      object_id = object_id;
      frag_index = i;
      frag_count = frag_count;
      frag_offset = off % 2 ^ 32;
      total_len = length frame % 2 ^ 32;
      track_alias = track_alias;
      chunk = take len (drop off frame);
    }

-- `for (i = 0; i < fragCount; i++)`, by the rounds left.
unfoldable pub fragments_from : (ℕ → UdpFragment) → ℕ → ℕ → List UdpFragment
fragments_from at zero i = []
fragments_from at (suc n) i = at i ∷ fragments_from at n (i + 1)

-- `if (maxChunk == 0) maxChunk = 1;`
unfoldable pub chunk_size : ℕ → ℕ
chunk_size max_chunk = if max_chunk == 0 then 1 else max_chunk

-- A zero-length frame still travels as one datagram.
unfoldable pub fragment_count : ℕ → ℕ → ℕ
fragment_count size max_chunk =
    let n : ℕ = (size + max_chunk - 1) / max_chunk % 2 ^ 32 in if n == 0 then 1 else n

-- The fragments of a frame; fragmentFrame returns them encoded.
unfoldable pub fragments : ℕ → Bytes → ℤ → Bytes → ℕ → List UdpFragment
unfolding fragment_at fragments_from chunk_size fragment_count
fragments msg_class track_alias object_id frame max_chunk =
    let size : ℕ = chunk_size max_chunk in
    let frag_count : ℕ = fragment_count (length frame) size in
    fragments_from (fragment_at msg_class track_alias object_id frame size frag_count) frag_count 0

unfoldable pub fragment_frame : ℕ → Bytes → ℤ → Bytes → ℕ → List Bytes
unfolding fragments encode_udp_fragment
fragment_frame msg_class track_alias object_id frame max_chunk =
    map encode_udp_fragment (fragments msg_class track_alias object_id frame max_chunk)

-- The fixed fields, up to and with the alias's length.
unfoldable pub get_fragment_head : Reader (UdpFragment × ℕ)
get_fragment_head = do
  msg_class ← get_byte
  object_id ← get_i64
  frag_index ← get_u32
  frag_count ← get_u32
  frag_offset ← get_u32
  total_len ← get_u32
  alias_len ← get_u32
  return (
    record {
      msg_class = msg_class;
      object_id = object_id;
      frag_index = frag_index;
      frag_count = frag_count;
      frag_offset = frag_offset;
      total_len = total_len;
      track_alias = [];
      chunk = [];
    },
    alias_len,
  )

-- `incomplete` is the result false: too short, or the alias does not fit.
unfoldable pub parse_udp_fragment : Bytes → Parse UdpFragment
parse_udp_fragment buf = if ltb (length buf) 29 then incomplete else elim (get_fragment_head buf) [
  | none ↦ overread
  | some ((f, alias_len), p) ↦
      if ltb (length buf) (length buf - length p + alias_len)
      then incomplete
      else elim (get_bytes alias_len p) [
        | none ↦ overread
        | some (alias, chunk) ↦ parsed (record f { track_alias = alias; chunk = chunk })
      ]
]

pub record IsFragment (f : UdpFragment) : Type 0 where
  pub object_id : IsI64 f.object_id
  pub frag_index : f.frag_index < 2 ^ 32
  pub frag_count : f.frag_count < 2 ^ 32
  pub frag_offset : f.frag_offset < 2 ^ 32
  pub total_len : f.total_len < 2 ^ 32
  pub alias_len : length f.track_alias < 2 ^ 32

get_fragment_head-encode :
    (f : UdpFragment)
    → IsFragment f
    → get_fragment_head (encode_udp_fragment f)
      ≡ some (
        (record f { track_alias = []; chunk = [] }, length f.track_alias),
        f.track_alias ++ f.chunk,
      )
unfolding get_fragment_head encode_udp_fragment return
get_fragment_head-encode f h =
    let fits : length f.track_alias % 2 ^ 32 ≡ length f.track_alias = omega (arith, h.alias_len) in
    rw fits (
      get_byte-then _ _ _
      ∙ get_i64-then _ _ _ h.object_id
      ∙ get_u32-then _ _ _ h.frag_index
      ∙ get_u32-then _ _ _ h.frag_count
      ∙ get_u32-then _ _ _ h.frag_offset
      ∙ get_u32-then _ _ _ h.total_len
      ∙ get_u32-then _ _ _ h.alias_len)

get_fragment_head-Fixed : Fixed 29 get_fragment_head
unfolding get_fragment_head
get_fragment_head-Fixed = >>=-Fixed 1 28 _ _ get_byte-Fixed λ _.
    >>=-Fixed 8 20 _ _ get_i64-Fixed λ _. >>=-Fixed 4 16 _ _ get_u32-Fixed λ _.
      >>=-Fixed 4 12 _ _ get_u32-Fixed λ _. >>=-Fixed 4 8 _ _ get_u32-Fixed λ _.
        >>=-Fixed 4 4 _ _ get_u32-Fixed λ _. >>=-Fixed 4 0 _ _ get_u32-Fixed λ _. return-Fixed _

length-encode_udp_fragment :
    (f : UdpFragment) → length (encode_udp_fragment f) ≡ 29 + length (f.track_alias ++ f.chunk)
unfolding encode_udp_fragment put_i64 put_u32
length-encode_udp_fragment f = omega arith

-- A datagram made of a fragment whose fields fit their widths is read back as that fragment,
-- its chunk included.
pub parse_udp_fragment-encode :
    (f : UdpFragment) → IsFragment f → parse_udp_fragment (encode_udp_fragment f) ≡ parsed f
unfolding parse_udp_fragment
parse_udp_fragment-encode f h =
    let len = length-encode_udp_fragment f in
    let room = length-append f.track_alias f.chunk in
    rw (le→ltb_false (length (encode_udp_fragment f)) 29 (omega arith)) (
      rw (get_fragment_head-encode f h) (
        rw
          (le→ltb_false (length (encode_udp_fragment f))
            (length (encode_udp_fragment f)
              - length (f.track_alias ++ f.chunk)
              + length f.track_alias)
            (omega (arith, len, room)))
          (rw (get_bytes-append f.track_alias f.chunk))))

-- The parser of datagrams reads past the end of no buffer.
pub parse_udp_fragment-ne-overread : (buf : Bytes) → parse_udp_fragment buf ≢ overread
unfolding parse_udp_fragment
parse_udp_fragment-ne-overread buf = elim (Bool-cases (ltb (length buf) 29)) [
  | inl short ↦ rw short (λ e. cc)
  | inr enough ↦
      let ((f, alias_len), p, e, size) = get_fragment_head-Fixed buf (ltb_false→le _ _ enough) in
      rw enough (
        rw e (elim (Bool-cases (ltb (length buf) (length buf - length p + alias_len))) [
          | inl past ↦ rw past (λ x. cc)
          | inr fits ↦
              let (alias, chunk, ea, _) =
                get_bytes-Fixed alias_len p (ground (arith, fits, size)) in
              rw fits (rw ea (λ x. cc))
        ]))
]
