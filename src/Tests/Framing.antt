-- ===== src/Tests/Framing.antt =====
-- The framing of models/MoqFraming.h at small messages.
use moq_veins_simulation_the.Base.{
  ℕ, ◌<◌, ◌≡◌, ◌≢◌, refl, arith, ℤ, pos, negsuc, true, false, List, [], ◌∷◌, ◌++◌, All, length,
  some, flat_map, ◌⊎◌, to_u64, ap, ◌∙◌,
}
use moq_veins_simulation_the.Reader.{Bytes, parsed, overread, get_byte, return, ◌>>=◌}
use moq_veins_simulation_the.Stream.{drain, drain_loop, push_all, drained, drain-append, push}
use moq_veins_simulation_the.MoqFraming.Words.{get_u32, put_i64, put_str, put_u32, put_le}
use moq_veins_simulation_the.MoqFraming.Frame.{parse_frame}
use moq_veins_simulation_the.MoqFraming.Object.{
  ObjectFrame, IsObject, encode, try_parse, try_parse-IsFraming, try_parse_overread, drain-encode,
  length-object_body,
}
use moq_veins_simulation_the.MoqFraming.Control.{
  ControlFrame, no_control, IsControl, control_body, encode_control, try_parse_control,
  try_parse_control_overread, drain-encode_control,
}
use moq_veins_simulation_the.MoqFraming.Envelope.{
  control, object, write_enveloped, try_parse_envelope, drain-write_enveloped,
}
use moq_veins_simulation_the.MoqFraming.Fragment.{
  UdpFragment, encode_udp_fragment, parse_udp_fragment, parse_udp_fragment-encode,
  parse_udp_fragment-ne-overread, fragment_count,
}
use moq_veins_simulation_the.MoqFraming.Reassembly.{empty}
use moq_veins_simulation_the.MoqFraming.Reassembly.Delivery.{
  deliver, Arrives, deliver-empty, deliver_sound,
}

abbrev alias_1 : Bytes
alias_1 = b'v' ∷ b'/' ∷ b'l' ∷ []

abbrev pub object_1 : ObjectFrame
object_1 = record {
  track_id = pos 1;
  group_id = pos 7;
  subgroup_id = pos 0;
  object_id = pos 21;
  priority = negsuc 2;
  payload_length = pos 2;
  creation_time = pos 5000;
  track_alias = alias_1;
}

pub object_1-IsObject : IsObject object_1
unfolding to_u64
object_1-IsObject = record {
  track_id = omega arith;
  group_id = omega arith;
  subgroup_id = omega arith;
  object_id = omega arith;
  priority = omega arith;
  payload_length = omega arith;
  creation_time = omega arith;
  fits = omega (arith, length-object_body object_1);
}

abbrev control_1 : ControlFrame
control_1 = record no_control {
  kind = 2;
  track_namespace = b'v' ∷ [];
  track_name = b'l' ∷ [];
  track_alias = alias_1;
}

control_1-IsControl : IsControl control_1
unfolding control_body put_i64 put_str put_u32 put_le
control_1-IsControl = record {
  track_id = omega arith;
  publisher_id = omega arith;
  priority = omega arith;
  payload_size = omega arith;
  start_object_id = omega arith;
  subscriber_priority = omega arith;
  status_code = omega arith;
  send_interval = omega arith;
  delivery_timeout = omega arith;
  track_namespace = omega arith;
  track_name = omega arith;
  track_alias = omega arith;
  subscriber_id = omega arith;
  fits = omega arith;
}

drain-encode_example :
    drain try_parse (flat_map encode (object_1 ∷ object_1 ∷ []) ++ (9 ∷ []))
    ≡ push_all (object_1 ∷ object_1 ∷ []) (drain try_parse (9 ∷ []))
drain-encode_example =
    drain-encode (object_1 ∷ object_1 ∷ []) (9 ∷ []) (object_1-IsObject, (object_1-IsObject, tt))

drain-encode_control_example :
    drain try_parse_control (flat_map encode_control (control_1 ∷ []) ++ [])
    ≡ push_all (control_1 ∷ []) (drain try_parse_control [])
drain-encode_control_example = drain-encode_control (control_1 ∷ []) [] (control_1-IsControl, tt)

drain-write_enveloped_example :
    drain try_parse_envelope
      (flat_map write_enveloped (control control_1 ∷ object object_1 ∷ []) ++ [])
    ≡ push_all (control control_1 ∷ object object_1 ∷ []) (drain try_parse_envelope [])
drain-write_enveloped_example =
    drain-write_enveloped (control control_1 ∷ object object_1 ∷ []) []
      (control_1-IsControl, (object_1-IsObject, tt))

abbrev short_body : Bytes
short_body = 1 ∷ 0 ∷ 0 ∷ 0 ∷ 77 ∷ []

length_of_short_body : get_u32 short_body ≡ some (1, 77 ∷ [])
unfolding get_u32 get_byte return ◌>>=◌
length_of_short_body = ground arith

try_parse_overread_example : try_parse short_body ≡ overread
try_parse_overread_example =
    try_parse_overread short_body (77 ∷ []) 1 length_of_short_body refl (omega arith)

try_parse_control_overread_example : try_parse_control short_body ≡ overread
try_parse_control_overread_example =
    try_parse_control_overread short_body (77 ∷ []) 1 length_of_short_body refl (omega arith)

nothing_yet : drain try_parse (1 ∷ 0 ∷ []) ≡ drained [] (1 ∷ 0 ∷ [])
unfolding drain drain_loop try_parse parse_frame
nothing_yet = ground arith

abbrev first_piece : Bytes
first_piece = flat_map encode (object_1 ∷ []) ++ (1 ∷ 0 ∷ [])

one_object : drain try_parse first_piece ≡ drained (object_1 ∷ []) (1 ∷ 0 ∷ [])
unfolding push_all push
one_object =
    drain-encode (object_1 ∷ []) (1 ∷ 0 ∷ []) (object_1-IsObject, tt)
    ∙ ap (push_all (object_1 ∷ [])) nothing_yet

drain-append_example :
    drain try_parse (first_piece ++ (0 ∷ []))
    ≡ push_all (object_1 ∷ []) (drain try_parse ((1 ∷ 0 ∷ []) ++ (0 ∷ [])))
drain-append_example =
    drain-append try_parse try_parse-IsFraming first_piece (0 ∷ []) (object_1 ∷ []) (1 ∷ 0 ∷ [])
      one_object

abbrev fragment_1 : UdpFragment
fragment_1 = record {
  msg_class = 2;
  object_id = pos 21;
  frag_index = 1;
  frag_count = 3;
  frag_offset = 2;
  total_len = 5;
  track_alias = alias_1;
  chunk = 8 ∷ 9 ∷ [];
}

parse_udp_fragment-encode_example :
    parse_udp_fragment (encode_udp_fragment fragment_1) ≡ parsed fragment_1
parse_udp_fragment-encode_example = parse_udp_fragment-encode fragment_1 (record {
  object_id = omega arith;
  frag_index = omega arith;
  frag_count = omega arith;
  frag_offset = omega arith;
  total_len = omega arith;
  alias_len = omega arith;
})

-- Three fragments of a frame of five bytes, out of order and with one twice.
abbrev frame_1 : Bytes
frame_1 = 1 ∷ 2 ∷ 3 ∷ 4 ∷ 5 ∷ []

abbrev arrivals_1 : List (ℕ × ℤ)
arrivals_1 = (2, pos 10) ∷ (0, pos 11) ∷ (2, pos 12) ∷ (1, pos 13) ∷ []

small : (j : ℕ) → j < fragment_count (length frame_1) 2 → j < 3
unfolding fragment_count
small j h = omega (arith, h)

arrivals_1-All : All (λ (a : ℕ × ℤ). a.0 < fragment_count (length frame_1) 2) arrivals_1
unfolding fragment_count
arrivals_1-All = ground arith

arrivals_1-Arrives : (j : ℕ) → j < fragment_count (length frame_1) 2 → Arrives j arrivals_1
arrivals_1-Arrives j h = ground (arith, small j h)

deliver-empty_example :
    ((deliver frame_1 2 2 alias_1 (pos 21) arrivals_1 empty).0.complete ≡ true)
    × ((deliver frame_1 2 2 alias_1 (pos 21) arrivals_1 empty).0.content ≡ frame_1)
    × ((deliver frame_1 2 2 alias_1 (pos 21) arrivals_1 empty).1 ≡ 1)
deliver-empty_example =
    deliver-empty frame_1 2 (omega arith) (omega arith) 2 alias_1 (pos 21) arrivals_1 arrivals_1-All
      arrivals_1-Arrives

deliver_sound_example :
    (((deliver frame_1 2 2 alias_1 (pos 21) arrivals_1 empty).1 ≡ 0)
      × ((deliver frame_1 2 2 alias_1 (pos 21) arrivals_1 empty).0.complete ≡ false))
    ⊎ (((deliver frame_1 2 2 alias_1 (pos 21) arrivals_1 empty).1 ≡ 1)
        × ((deliver frame_1 2 2 alias_1 (pos 21) arrivals_1 empty).0.content ≡ frame_1))
deliver_sound_example =
    deliver_sound frame_1 2 (omega arith) (omega arith) 2 alias_1 (pos 21) arrivals_1 arrivals_1-All

parse_udp_fragment-ne-overread_example : parse_udp_fragment short_body ≢ overread
parse_udp_fragment-ne-overread_example = parse_udp_fragment-ne-overread short_body
