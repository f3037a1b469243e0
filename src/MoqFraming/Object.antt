-- ===== src/MoqFraming/Object.antt =====
-- models/MoqFraming.h: MoqObjectFrame, encode, tryParse.
use moq_veins_simulation_the.Base.{
  ℕ, ◌+◌, ◌^◌, ◌%◌, ◌<◌, ◌≡◌, ◌∙◌, List, ◌++◌, some, arith, length, length-append, All, flat_map,
  replicate, length-replicate, ℤ, IsI64, to_u64, append_assoc, ◌∷◌, refl, [],
}
use moq_veins_simulation_the.Reader.{
  Bytes, Reader, ◌>>=◌, return, get_bytes, get_bytes-append, bind_step, Reads, >>=-Reads,
  return-Reads, get_bytes-Reads, Parse, parsed, overread, incomplete,
}
use moq_veins_simulation_the.Stream.{IsFraming, drain, push_all, drain-flat_map}
use moq_veins_simulation_the.MoqFraming.Words.{
  put_u32, put_i64, get_u32, get_i64, get_i64-then, get_u32-then, get_i64-Reads, get_u32-Reads,
}
use moq_veins_simulation_the.MoqFraming.Frame.{
  with_length, parse_frame, parse_frame-with_length, parse_frame-IsFraming, parse_frame_overread,
  parse_frame_short,
}

pub record ObjectFrame : Type 0 where
  pub track_id : ℤ
  pub group_id : ℤ
  pub subgroup_id : ℤ
  pub object_id : ℤ
  pub priority : ℤ
  pub payload_length : ℤ
  pub creation_time : ℤ
  pub track_alias : Bytes

-- The header, the alias and the zero-filled payload. `(size_t) f.payloadLength` is a cast.
unfoldable pub object_body : ObjectFrame → Bytes
object_body f =
    put_i64 f.track_id
    ++ (put_i64 f.group_id
        ++ (put_i64 f.subgroup_id
            ++ (put_i64 f.object_id
                ++ (put_i64 f.priority
                    ++ (put_i64 f.payload_length
                        ++ (put_i64 f.creation_time
                            ++ (put_u32 (length f.track_alias % 2 ^ 32)
                                ++ (f.track_alias ++ replicate (to_u64 f.payload_length) 0))))))))

unfoldable pub encode : ObjectFrame → Bytes
unfolding with_length object_body
encode f = with_length (object_body f)

unfoldable pub get_object : Reader ObjectFrame
get_object = do
  track_id ← get_i64
  group_id ← get_i64
  subgroup_id ← get_i64
  object_id ← get_i64
  priority ← get_i64
  payload_length ← get_i64
  creation_time ← get_i64
  alias_len ← get_u32
  track_alias ← get_bytes alias_len
  return (record {
    track_id = track_id;
    group_id = group_id;
    subgroup_id = subgroup_id;
    object_id = object_id;
    priority = priority;
    payload_length = payload_length;
    creation_time = creation_time;
    track_alias = track_alias;
  })

pub record IsObject (f : ObjectFrame) : Type 0 where
  pub track_id : IsI64 f.track_id
  pub group_id : IsI64 f.group_id
  pub subgroup_id : IsI64 f.subgroup_id
  pub object_id : IsI64 f.object_id
  pub priority : IsI64 f.priority
  pub payload_length : IsI64 f.payload_length
  pub creation_time : IsI64 f.creation_time
  pub fits : length (object_body f) < 2 ^ 32

-- The fixed part of a body is seven 8-byte integers and the alias's length.
pub length-object_body :
    (f : ObjectFrame) → length (object_body f) ≡ 60 + length f.track_alias + to_u64 f.payload_length
unfolding object_body put_i64 put_u32
length-object_body f = omega (
  arith,
  length-append f.track_alias (replicate {A = ℕ} (to_u64 f.payload_length) 0),
  length-replicate {A = ℕ} (to_u64 f.payload_length) 0,
)

get_object-body :
    (f : ObjectFrame) (p : Bytes)
    → IsObject f
    → get_object (object_body f ++ p) ≡ some (f, replicate (to_u64 f.payload_length) 0 ++ p)
unfolding get_object object_body return
get_object-body f p h =
    let fits : length f.track_alias % 2 ^ 32 ≡ length f.track_alias =
      omega (arith, length-object_body f) in
    simp append_assoc (
      rw fits (
        get_i64-then _ _ _ h.track_id
        ∙ get_i64-then _ _ _ h.group_id
        ∙ get_i64-then _ _ _ h.subgroup_id
        ∙ get_i64-then _ _ _ h.object_id
        ∙ get_i64-then _ _ _ h.priority
        ∙ get_i64-then _ _ _ h.payload_length
        ∙ get_i64-then _ _ _ h.creation_time
        ∙ get_u32-then _ _ _ (omega (arith, length-object_body f))
        ∙ bind_step _ _ _ _ f.track_alias (get_bytes-append f.track_alias _)))

unfoldable pub try_parse : Bytes → Parse (ObjectFrame × ℕ)
unfolding parse_frame
try_parse = parse_frame get_object

pub try_parse-encode :
    (f : ObjectFrame) (p : Bytes)
    → IsObject f
    → try_parse (encode f ++ p) ≡ parsed (f, length (encode f))
unfolding try_parse encode
try_parse-encode f p h =
    parse_frame-with_length get_object (object_body f) p _ f h.fits (get_object-body f p h)

-- The fixed fields take 60 bytes.
get_object-Reads : Reads 60 get_object
unfolding get_object
get_object-Reads = >>=-Reads 8 52 _ _ get_i64-Reads λ _. >>=-Reads 8 44 _ _ get_i64-Reads λ _.
    >>=-Reads 8 36 _ _ get_i64-Reads λ _. >>=-Reads 8 28 _ _ get_i64-Reads λ _.
      >>=-Reads 8 20 _ _ get_i64-Reads λ _. >>=-Reads 8 12 _ _ get_i64-Reads λ _.
        >>=-Reads 8 4 _ _ get_i64-Reads λ _.
          >>=-Reads 4 0 _ _ get_u32-Reads
            λ _. >>=-Reads 0 0 _ _ (get_bytes-Reads _) λ _. return-Reads _

pub try_parse-IsFraming : IsFraming try_parse
unfolding try_parse
try_parse-IsFraming = parse_frame-IsFraming 60 get_object get_object-Reads

-- A buffer that holds exactly one object frame whose length word announces fewer than 60 bytes
-- is read past its end.
pub try_parse_overread :
    (buf p : Bytes) (n : ℕ)
    → get_u32 buf ≡ some (n, p)
    → length buf ≡ 4 + n
    → n < 60
    → try_parse buf ≡ overread
unfolding try_parse
try_parse_overread buf p n = parse_frame_overread 60 get_object buf p n get_object-Reads

-- Objects whose fields fit their widths, encoded one after the other, are all delimited by the
-- receive loop in their order, and the bytes behind them are drained as they would be alone.
pub drain-encode :
    (fs : List ObjectFrame) (p : Bytes)
    → All IsObject fs
    → drain try_parse (flat_map encode fs ++ p) ≡ push_all fs (drain try_parse p)
drain-encode = drain-flat_map try_parse try_parse-IsFraming encode IsObject try_parse-encode

-- A frame of which the last bytes are missing is left in the buffer.
pub try_parse_short :
    (f : ObjectFrame) (q : Bytes) (b : ℕ) (r : Bytes)
    → IsObject f
    → q ++ (b ∷ r) ≡ encode f
    → try_parse q ≡ incomplete
unfolding try_parse encode
try_parse_short f q b r h e = parse_frame_short get_object (object_body f) q b r h.fits e

pub try_parse_nothing : try_parse [] ≡ incomplete
unfolding try_parse parse_frame
try_parse_nothing = refl
