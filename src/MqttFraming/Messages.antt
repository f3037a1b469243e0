-- ===== src/MqttFraming/Messages.antt =====
-- models/MqttFraming.h: the packets that are written and read, PUBLISH and SUBSCRIBE.
use moq_veins_simulation_the.Base.{
  ℕ, zero, suc, ◌-◌, ◌*◌, ◌/◌, ◌%◌, ◌^◌, ◌≤◌, ◌<◌, ◌≡◌, refl, ap, ◌∙◌, List, [], ◌∷◌, ◌++◌, Option,
  none, some, arith, length, length-append, ltb, ◌==◌, if◌then◌else◌, drop, replicate,
  length-replicate, ℤ, pos, IsI64, to_u64, flat_map,
}
use moq_veins_simulation_the.Reader.{Bytes, Reader, ◌>>=◌, return, get_byte, get_bytes, bind_step}
use moq_veins_simulation_the.MqttFraming.Words.{
  put_u16, put_u32, put_i64, put_string, put_var_int, get_u16, get_u32, get_i64, get_string,
  get_var_int, get_i64-then, get_string-then, get_var_int-then,
}
use moq_veins_simulation_the.MqttFraming.Packet.{MqttPacket, frame}

abbrev pub mqtt_connect : ℕ
mqtt_connect = 1

abbrev pub mqtt_connack : ℕ
mqtt_connack = 2

abbrev pub mqtt_publish : ℕ
mqtt_publish = 3

abbrev pub mqtt_puback : ℕ
mqtt_puback = 4

abbrev pub mqtt_subscribe : ℕ
mqtt_subscribe = 8

abbrev pub mqtt_suback : ℕ
mqtt_suback = 9

abbrev pub prop_message_expiry_interval : ℕ
prop_message_expiry_interval = 2

pub record MqttMessage : Type 0 where
  pub topic : Bytes
  pub packet_id : ℕ
  pub qos : ℕ
  pub message_expiry_interval : ℕ
  pub sequence : ℤ
  pub payload_length : ℤ
  pub creation_time : ℤ

unfoldable pub encode_connect : Bytes → Bytes
unfolding frame put_string put_u16 put_var_int
encode_connect client_id = frame mqtt_connect 0 (
    put_string (b'M' ∷ b'Q' ∷ b'T' ∷ b'T' ∷ [])
    ++ (5 ∷ 2 ∷ (put_u16 0 ++ (put_var_int 0 ++ put_string client_id))))

unfoldable pub encode_connack : Bytes
unfolding frame put_var_int
encode_connack = frame mqtt_connack 0 (0 ∷ 0 ∷ put_var_int 0)

-- The properties: the expiry interval, left out when it is 0.
unfoldable pub props : MqttMessage → Bytes
unfolding put_u32
props m =
    if ltb 0 m.message_expiry_interval
    then prop_message_expiry_interval ∷ put_u32 m.message_expiry_interval
    else []

unfoldable pub publish_body : MqttMessage → Bytes
unfolding put_string put_u16 put_var_int props put_i64
publish_body m =
    put_string m.topic
    ++ ((if ltb 0 m.qos then put_u16 m.packet_id else [])
        ++ (put_var_int (length (props m))
            ++ (props m
                ++ (put_i64 m.creation_time
                    ++ (put_i64 m.sequence ++ replicate (to_u64 m.payload_length) 0)))))

unfoldable pub encode_publish : MqttMessage → Bytes
unfolding frame publish_body
encode_publish m = frame mqtt_publish (m.qos % 4 * 2) (publish_body m)

unfoldable pub encode_puback : ℕ → Bytes
unfolding frame put_u16 put_var_int
encode_puback packet_id = frame mqtt_puback 0 (put_u16 packet_id ++ (0 ∷ put_var_int 0))

-- The loop over the topics of a SUBSCRIBE.
unfoldable pub put_topic : ℕ → Bytes → Bytes
unfolding put_string
put_topic qos t = put_string t ++ (qos % 4 ∷ [])

unfoldable pub subscribe_body : ℕ → List Bytes → ℕ → Bytes
unfolding put_u16 put_var_int put_topic mathlib.Core.List.flat_map
subscribe_body packet_id topics qos =
    put_u16 packet_id ++ (put_var_int 0 ++ flat_map (put_topic qos) topics)

unfoldable pub encode_subscribe : ℕ → List Bytes → ℕ → Bytes
unfolding frame subscribe_body
encode_subscribe packet_id topics qos = frame mqtt_subscribe 2 (subscribe_body packet_id topics qos)

unfoldable pub encode_suback : ℕ → ℕ → ℕ → Bytes
unfolding frame put_u16 put_var_int
encode_suback packet_id topic_count qos =
    frame mqtt_suback 0 (put_u16 packet_id ++ (put_var_int 0 ++ replicate topic_count qos))

-- `while (i < propEnd)`: `left` is propEnd - i, which falls by 5 in a round, and stops at 0 where a
-- property runs past propEnd.
unfoldable pub get_props : ℕ → ℕ → ℕ → Reader ℕ
get_props zero left expiry = return expiry
get_props (suc fuel) zero expiry = return expiry
get_props (suc fuel) (suc left) expiry = do
  id ← get_byte
  if id == prop_message_expiry_interval
      then (do v ← get_u32; get_props fuel (left - 4) v)
      else (λ p. none)

-- `if (b.size() < propEnd) return false;`
unfoldable pub has_bytes : ℕ → Reader ℕ
has_bytes n p = if ltb (length p) n then none else some (n, p)

-- parsePublish: `none` where it returns false.
unfoldable pub get_publish : ℕ → Reader MqttMessage
get_publish flags = do
  topic ← get_string
  let qos = flags / 2 % 4
  packet_id ← if ltb 0 qos then get_u16 else return 0
  prop_len ← get_var_int
  left ← has_bytes prop_len
  expiry ← get_props left left 0
  creation_time ← get_i64
  sequence ← get_i64
  λ p. some (
    record {
      topic = topic;
      packet_id = packet_id;
      qos = qos;
      message_expiry_interval = expiry;
      sequence = sequence;
      payload_length = pos (length p);
      creation_time = creation_time;
    },
    p,
  )

unfoldable pub parse_publish : MqttPacket → Option MqttMessage
unfolding get_publish get_string get_u16 get_var_int has_bytes get_props get_i64 return ◌>>=◌
parse_publish k = elim (get_publish k.flags k.body) [ none ↦ none | some (m, p) ↦ some m ]

-- `while (i + 2 <= b.size())`: the topics, and the QoS of the last of them. The topics are no more
-- than the bytes.
unfoldable pub get_topics : ℕ → ℕ → Bytes → Option (List Bytes × ℕ)
get_topics zero qos p = some ([], qos)
get_topics (suc fuel) qos p = elim (get_u16 p) [
  | none ↦ some ([], qos)
  | some (len, q) ↦ elim (get_bytes len q) [
    | none ↦ none
    | some (t, r) ↦ elim r [
      | [] ↦ none
      | b ∷ rest ↦ elim (get_topics fuel (b % 4) rest) [
        | none ↦ none
        | some (ts, last) ↦ some (t ∷ ts, last)
      ]
    ]
  ]
]

-- parseSubscribe: the packet id, the topics and the QoS, `none` where it returns false. The
-- properties are skipped unchecked.
unfoldable pub parse_subscribe : MqttPacket → Option (ℕ × List Bytes × ℕ)
unfolding get_u16 get_var_int get_topics
parse_subscribe k = elim (get_u16 k.body) [
  | none ↦ none
  | some (packet_id, p) ↦ elim (get_var_int p) [
    | none ↦ none
    | some (prop_len, q) ↦ elim (get_topics (length q) 0 (drop prop_len q)) [
      | none ↦ none
      | some ([], qos) ↦ none
      | some (t ∷ ts, qos) ↦ some (packet_id, t ∷ ts, qos)
    ]
  ]
]

unfoldable pub parse_puback : MqttPacket → Option ℕ
unfolding get_u16
parse_puback k = elim (get_u16 k.body) [ none ↦ none | some (packet_id, p) ↦ some packet_id ]

-- A message that encodePublish is given: the values fit their fields, and only QoS 1 and 2 carry
-- a packet id.
pub record IsMessage (m : MqttMessage) : Type 0 where
  pub topic : length m.topic < 2 ^ 16
  pub packet_id : m.packet_id < 2 ^ 16
  pub qos : m.qos < 4
  pub no_id : m.qos ≡ 0 → m.packet_id ≡ 0
  pub expiry : m.message_expiry_interval < 2 ^ 32
  pub sequence : IsI64 m.sequence
  pub payload_length : IsI64 m.payload_length
  pub not_negative : (n : ℕ) × (m.payload_length ≡ pos n)
  pub creation_time : IsI64 m.creation_time

get_props-props :
    (m : MqttMessage) (p : Bytes)
    → m.message_expiry_interval < 2 ^ 32
    → get_props (length (props m)) (length (props m)) 0 (props m ++ p)
      ≡ some (m.message_expiry_interval, p)
unfolding get_props props get_u32 put_u32 get_byte return ◌>>=◌
get_props-props m p h = ground arith

length-props : (m : MqttMessage) → length (props m) ≤ 5
unfolding props put_u32
length-props m = ground arith

has_bytes-append : (s p : Bytes) → has_bytes (length s) (s ++ p) ≡ some (length s, s ++ p)
unfolding has_bytes
has_bytes-append s p = ground (arith, length-append s p)

get_packet_id :
    (qos packet_id : ℕ) (p : Bytes)
    → packet_id < 2 ^ 16
    → (qos ≡ 0 → packet_id ≡ 0)
    → (if ltb 0 qos then get_u16 else return 0) ((if ltb 0 qos then put_u16 packet_id else []) ++ p)
      ≡ some (packet_id, p)
unfolding get_u16 put_u16 get_byte return ◌>>=◌
get_packet_id qos packet_id p h z = ground (arith, z)

payload :
    (m : MqttMessage)
    → IsMessage m
    → pos (length (replicate {A = ℕ} (to_u64 m.payload_length) 0)) ≡ m.payload_length
unfolding to_u64
payload m h =
    let (n, e) = h.not_negative in
    let fits = h.payload_length in
    ground (arith, length-replicate {A = ℕ} (to_u64 m.payload_length) 0, e, fits)

read_back :
    (m : MqttMessage)
    → IsMessage m
    → get_publish (m.qos % 4 * 2) (publish_body m) ≡ some (m, replicate (to_u64 m.payload_length) 0)
unfolding get_publish publish_body
read_back m h =
    let qos : m.qos % 4 * 2 / 2 % 4 ≡ m.qos = omega (arith, h.qos) in
    rw qos (
      get_string-then m.topic _ _ h.topic
      ∙ bind_step _ _ _ _ _ (get_packet_id m.qos m.packet_id _ h.packet_id h.no_id)
      ∙ get_var_int-then (length (props m)) _ _ (omega (arith, length-props m))
      ∙ bind_step _ _ _ _ _ (has_bytes-append (props m) _)
      ∙ bind_step _ _ _ _ _ (get_props-props m _ h.expiry)
      ∙ get_i64-then _ _ _ h.creation_time
      ∙ get_i64-then _ _ _ h.sequence
      ∙ ap (λ z. some (record m { payload_length = z }, replicate (to_u64 m.payload_length) 0))
          (payload m h))

-- A PUBLISH made of a message whose fields fit their widths, with no packet id at QoS 0 and a
-- payload length of at least 0, is read back as that message.
pub parse_publish-publish_body :
    (m : MqttMessage)
    → IsMessage m
    → parse_publish (record { type = mqtt_publish; flags = m.qos % 4 * 2; body = publish_body m })
      ≡ some m
unfolding parse_publish
parse_publish-publish_body m h = rw (read_back m h, parse_publish) refl
