-- ===== src/MoqFraming/Control.antt =====
-- models/MoqFraming.h: MoqControlFrame, encodeControl, tryParseControl.
use moq_veins_simulation_the.Base.{
  ℕ, ◌+◌, ◌^◌, ◌<◌, ◌≡◌, ◌∙◌, List, [], ◌∷◌, ◌++◌, some, length, All, flat_map, ℤ, pos, IsI64,
  append_assoc,
}
use moq_veins_simulation_the.Reader.{
  Bytes, Reader, ◌>>=◌, return, get_byte, Reads, >>=-Reads, return-Reads, get_byte-Reads, Parse,
  parsed, overread,
}
use moq_veins_simulation_the.Stream.{IsFraming, drain, push_all, drain-flat_map}
use moq_veins_simulation_the.MoqFraming.Words.{
  put_i64, put_str, get_u32, get_i64, get_str, get_byte-then, get_i64-then, get_str-then,
  get_i64-Reads, get_str-Reads,
}
use moq_veins_simulation_the.MoqFraming.Frame.{
  with_length, parse_frame, parse_frame-with_length, parse_frame-IsFraming, parse_frame_overread,
}

-- MoqControlType and MoqPublishDoneStatus, by their numbers.
abbrev pub ctrl_announce : ℕ
ctrl_announce = 1

abbrev pub ctrl_subscribe : ℕ
ctrl_subscribe = 2

abbrev pub ctrl_subscribe_ok : ℕ
ctrl_subscribe_ok = 3

abbrev pub ctrl_publish_done : ℕ
ctrl_publish_done = 4

abbrev pub pubdone_track_ended : ℤ
pubdone_track_ended = pos 2

abbrev pub pubdone_too_far_behind : ℤ
pubdone_too_far_behind = pos 6

pub record ControlFrame : Type 0 where
  pub kind : ℕ
  pub track_id : ℤ
  pub publisher_id : ℤ
  pub priority : ℤ
  pub payload_size : ℤ
  pub start_object_id : ℤ
  pub subscriber_priority : ℤ
  pub status_code : ℤ
  pub send_interval : ℤ
  pub delivery_timeout : ℤ
  pub track_namespace : Bytes
  pub track_name : Bytes
  pub track_alias : Bytes
  pub subscriber_id : Bytes

-- A frame as its declaration initialises it.
abbrev pub no_control : ControlFrame
no_control = record {
  kind = 0;
  track_id = pos 0;
  publisher_id = pos 0;
  priority = pos 0;
  payload_size = pos 0;
  start_object_id = pos 0;
  subscriber_priority = pos 0;
  status_code = pos 0;
  send_interval = pos 0;
  delivery_timeout = pos 0;
  track_namespace = [];
  track_name = [];
  track_alias = [];
  subscriber_id = [];
}

unfoldable pub control_body : ControlFrame → Bytes
control_body c =
    c.kind
    ∷ (put_i64 c.track_id
        ++ (put_i64 c.publisher_id
            ++ (put_i64 c.priority
                ++ (put_i64 c.payload_size
                    ++ (put_i64 c.start_object_id
                        ++ (put_i64 c.subscriber_priority
                            ++ (put_i64 c.status_code
                                ++ (put_i64 c.send_interval
                                    ++ (put_i64 c.delivery_timeout
                                        ++ (put_str c.track_namespace
                                            ++ (put_str c.track_name
                                                ++ (put_str c.track_alias
                                                    ++ put_str c.subscriber_id))))))))))))

unfoldable pub encode_control : ControlFrame → Bytes
unfolding with_length control_body
encode_control c = with_length (control_body c)

unfoldable pub get_control : Reader ControlFrame
get_control = do
  kind ← get_byte
  track_id ← get_i64
  publisher_id ← get_i64
  priority ← get_i64
  payload_size ← get_i64
  start_object_id ← get_i64
  subscriber_priority ← get_i64
  status_code ← get_i64
  send_interval ← get_i64
  delivery_timeout ← get_i64
  track_namespace ← get_str
  track_name ← get_str
  track_alias ← get_str
  subscriber_id ← get_str
  return (record {
    kind = kind;
    track_id = track_id;
    publisher_id = publisher_id;
    priority = priority;
    payload_size = payload_size;
    start_object_id = start_object_id;
    subscriber_priority = subscriber_priority;
    status_code = status_code;
    send_interval = send_interval;
    delivery_timeout = delivery_timeout;
    track_namespace = track_namespace;
    track_name = track_name;
    track_alias = track_alias;
    subscriber_id = subscriber_id;
  })

pub record IsControl (c : ControlFrame) : Type 0 where
  pub track_id : IsI64 c.track_id
  pub publisher_id : IsI64 c.publisher_id
  pub priority : IsI64 c.priority
  pub payload_size : IsI64 c.payload_size
  pub start_object_id : IsI64 c.start_object_id
  pub subscriber_priority : IsI64 c.subscriber_priority
  pub status_code : IsI64 c.status_code
  pub send_interval : IsI64 c.send_interval
  pub delivery_timeout : IsI64 c.delivery_timeout
  pub track_namespace : length c.track_namespace < 2 ^ 32
  pub track_name : length c.track_name < 2 ^ 32
  pub track_alias : length c.track_alias < 2 ^ 32
  pub subscriber_id : length c.subscriber_id < 2 ^ 32
  pub fits : length (control_body c) < 2 ^ 32

get_control-body :
    (c : ControlFrame) (p : Bytes) → IsControl c → get_control (control_body c ++ p) ≡ some (c, p)
unfolding get_control control_body return
get_control-body c p h = simp append_assoc (
    get_byte-then _ _ _
    ∙ get_i64-then _ _ _ h.track_id
    ∙ get_i64-then _ _ _ h.publisher_id
    ∙ get_i64-then _ _ _ h.priority
    ∙ get_i64-then _ _ _ h.payload_size
    ∙ get_i64-then _ _ _ h.start_object_id
    ∙ get_i64-then _ _ _ h.subscriber_priority
    ∙ get_i64-then _ _ _ h.status_code
    ∙ get_i64-then _ _ _ h.send_interval
    ∙ get_i64-then _ _ _ h.delivery_timeout
    ∙ get_str-then _ _ _ h.track_namespace
    ∙ get_str-then _ _ _ h.track_name
    ∙ get_str-then _ _ _ h.track_alias
    ∙ get_str-then _ _ _ h.subscriber_id)

unfoldable pub try_parse_control : Bytes → Parse (ControlFrame × ℕ)
unfolding parse_frame
try_parse_control = parse_frame get_control

-- A control frame at the front of a buffer is read back whole, whatever follows it.
pub try_parse_control-encode_control :
    (c : ControlFrame) (p : Bytes)
    → IsControl c
    → try_parse_control (encode_control c ++ p) ≡ parsed (c, length (encode_control c))
unfolding try_parse_control encode_control
try_parse_control-encode_control c p h =
    parse_frame-with_length get_control (control_body c) p _ c h.fits (get_control-body c p h)

-- The fixed fields and the four length words take 89 bytes.
get_control-Reads : Reads 89 get_control
unfolding get_control
get_control-Reads = >>=-Reads 1 88 _ _ get_byte-Reads λ _. >>=-Reads 8 80 _ _ get_i64-Reads λ _.
    >>=-Reads 8 72 _ _ get_i64-Reads λ _. >>=-Reads 8 64 _ _ get_i64-Reads λ _.
      >>=-Reads 8 56 _ _ get_i64-Reads λ _. >>=-Reads 8 48 _ _ get_i64-Reads λ _.
        >>=-Reads 8 40 _ _ get_i64-Reads λ _. >>=-Reads 8 32 _ _ get_i64-Reads λ _.
          >>=-Reads 8 24 _ _ get_i64-Reads λ _. >>=-Reads 8 16 _ _ get_i64-Reads λ _.
            >>=-Reads 4 12 _ _ get_str-Reads λ _. >>=-Reads 4 8 _ _ get_str-Reads λ _.
              >>=-Reads 4 4 _ _ get_str-Reads
                λ _. >>=-Reads 4 0 _ _ get_str-Reads λ _. return-Reads _

pub try_parse_control-IsFraming : IsFraming try_parse_control
unfolding try_parse_control
try_parse_control-IsFraming = parse_frame-IsFraming 89 get_control get_control-Reads

-- A buffer that holds exactly one control frame whose length word announces fewer than 89 bytes
-- is read past its end.
pub try_parse_control_overread :
    (buf p : Bytes) (n : ℕ)
    → get_u32 buf ≡ some (n, p)
    → length buf ≡ 4 + n
    → n < 89
    → try_parse_control buf ≡ overread
unfolding try_parse_control
try_parse_control_overread buf p n = parse_frame_overread 89 get_control buf p n get_control-Reads

-- Control frames whose fields fit their widths, encoded one after the other, are all delimited
-- by the receive loop in their order, and the bytes behind them are drained as they would be
-- alone.
pub drain-encode_control :
    (cs : List ControlFrame) (p : Bytes)
    → All IsControl cs
    → drain try_parse_control (flat_map encode_control cs ++ p)
      ≡ push_all cs (drain try_parse_control p)
drain-encode_control =
    drain-flat_map try_parse_control try_parse_control-IsFraming encode_control IsControl
      try_parse_control-encode_control
