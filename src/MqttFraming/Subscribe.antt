-- ===== src/MqttFraming/Subscribe.antt =====
-- models/MqttFraming.h: encodeSubscribe against parseSubscribe.
use moq_veins_simulation_the.Base.{
  ℕ, zero, suc, ◌%◌, ◌^◌, ◌≤◌, ◌<◌, ◌≡◌, refl, ap, ◌∙◌, List, [], ◌∷◌, ◌++◌, some, arith, length,
  length-append, drop, flat_map, All, append_assoc,
}
use moq_veins_simulation_the.Reader.{Bytes, get_byte, get_bytes, get_bytes-append, ◌>>=◌}
use moq_veins_simulation_the.MqttFraming.Words.{
  put_u16, put_string, put_var_int, get_u16, get_u16-put_u16, get_var_int, get_var_int-put_var_int,
}
use moq_veins_simulation_the.MqttFraming.Packet.{MqttPacket}
use moq_veins_simulation_the.MqttFraming.Messages.{
  mqtt_subscribe, put_topic, subscribe_body, get_topics, parse_subscribe,
}

abbrev IsTopic : Bytes → Type 0
IsTopic t = length t < 2 ^ 16

get_topics_step :
    (fuel q0 len b : ℕ) (p q rest t : Bytes) (ts : List Bytes) (last : ℕ)
    → get_u16 p ≡ some (len, q)
    → get_bytes len q ≡ some (t, b ∷ rest)
    → get_topics fuel (b % 4) rest ≡ some (ts, last)
    → get_topics (suc fuel) q0 p ≡ some (t ∷ ts, last)
unfolding get_topics
get_topics_step fuel q0 len b p q rest t ts last eu eb et = ground (arith, eu, eb, et)

-- One topic is read back, with the QoS behind it.
get_topics-put_topic :
    (fuel qos q0 : ℕ) (t rest : Bytes) (ts : List Bytes) (last : ℕ)
    → IsTopic t
    → get_topics fuel (qos % 4) rest ≡ some (ts, last)
    → get_topics (suc fuel) q0 (put_topic qos t ++ rest) ≡ some (t ∷ ts, last)
unfolding put_topic put_string
get_topics-put_topic fuel qos q0 t rest ts last h e =
    let fits : length t % 2 ^ 16 ≡ length t = omega arith in
    let shape : put_topic qos t ++ rest ≡ put_u16 (length t) ++ (t ++ (qos % 4 ∷ rest)) = rw fits (
      append_assoc (put_u16 (length t) ++ t) (qos % 4 ∷ []) rest
      ∙ append_assoc (put_u16 (length t)) t (qos % 4 ∷ rest)) in
    let same : qos % 4 % 4 ≡ qos % 4 = omega arith in
    get_topics_step fuel q0 (length t) (qos % 4) _ _ rest t ts last
      (ap get_u16 shape ∙ get_u16-put_u16 (length t) (t ++ (qos % 4 ∷ rest)) h)
      (get_bytes-append t (qos % 4 ∷ rest)) (ap (λ n. get_topics fuel n rest) same ∙ e)

get_topics-nothing : (fuel q0 : ℕ) → get_topics fuel q0 [] ≡ some ([], q0)
unfolding get_topics get_u16 get_byte ◌>>=◌
get_topics-nothing zero q0 = refl
get_topics-nothing (suc fuel) q0 = refl

get_topics-flat_map :
    (ts : List Bytes) (fuel qos : ℕ)
    → All IsTopic ts
    → length ts ≤ fuel
    → get_topics fuel (qos % 4) (flat_map (put_topic qos) ts) ≡ some (ts, qos % 4)
unfolding mathlib.Core.List.flat_map
get_topics-flat_map [] fuel qos h l = get_topics-nothing fuel (qos % 4)
get_topics-flat_map (t ∷ ts) zero qos h l = absurd (omega (arith, l))
get_topics-flat_map (t ∷ ts) (suc fuel) qos (ht, h) l =
    get_topics-put_topic fuel qos (qos % 4) t (flat_map (put_topic qos) ts) ts (qos % 4) ht
      (get_topics-flat_map ts fuel qos h (omega (arith, l)))

get_topics-topics :
    (fuel q0 qos : ℕ) (t : Bytes) (ts : List Bytes)
    → All IsTopic (t ∷ ts)
    → length (t ∷ ts) ≤ fuel
    → get_topics fuel q0 (flat_map (put_topic qos) (t ∷ ts)) ≡ some (t ∷ ts, qos % 4)
unfolding mathlib.Core.List.flat_map
get_topics-topics zero q0 qos t ts h l = absurd (omega (arith, l))
get_topics-topics (suc fuel) q0 qos t ts (ht, h) l =
    get_topics-put_topic fuel qos q0 t (flat_map (put_topic qos) ts) ts (qos % 4) ht
      (get_topics-flat_map ts fuel qos h (omega (arith, l)))

length-put_topic : (qos : ℕ) (t : Bytes) → 1 ≤ length (put_topic qos t)
unfolding put_topic
length-put_topic qos t = omega (arith, length-append (put_string t) (qos % 4 ∷ []))

length-flat_map : (qos : ℕ) (ts : List Bytes) → length ts ≤ length (flat_map (put_topic qos) ts)
unfolding mathlib.Core.List.flat_map
length-flat_map qos [] = omega arith
length-flat_map qos (t ∷ ts) = omega (
  arith,
  length-flat_map qos ts,
  length-put_topic qos t,
  length-append (put_topic qos t) (flat_map (put_topic qos) ts),
)

-- What parseSubscribe does, by its steps.
parse_subscribe_step :
    (k : MqttPacket) (packet_id prop_len qos : ℕ) (p q t : Bytes) (ts : List Bytes)
    → get_u16 k.body ≡ some (packet_id, p)
    → get_var_int p ≡ some (prop_len, q)
    → get_topics (length q) 0 (drop prop_len q) ≡ some (t ∷ ts, qos)
    → parse_subscribe k ≡ some (packet_id, t ∷ ts, qos)
unfolding parse_subscribe
parse_subscribe_step k packet_id prop_len qos p q t ts eu ev et = ground (arith, eu, ev, et)

-- A SUBSCRIBE for one topic at least, each shorter than 2^16 bytes, with a packet id of 16
-- bits, is read back as the packet id, the topics and the two low bits of the QoS.
pub parse_subscribe-subscribe_body :
    (packet_id qos : ℕ) (t : Bytes) (ts : List Bytes)
    → packet_id < 2 ^ 16
    → All IsTopic (t ∷ ts)
    → parse_subscribe
        (record { type = mqtt_subscribe; flags = 2; body = subscribe_body packet_id (t ∷ ts) qos })
      ≡ some (packet_id, t ∷ ts, qos % 4)
unfolding subscribe_body
parse_subscribe-subscribe_body packet_id qos t ts h a =
    let topics = flat_map (put_topic qos) (t ∷ ts) in
    parse_subscribe_step _ packet_id 0 (qos % 4) (put_var_int 0 ++ topics) topics t ts
      (get_u16-put_u16 packet_id (put_var_int 0 ++ topics) h)
      (get_var_int-put_var_int 0 topics (omega arith))
      (get_topics-topics (length topics) 0 qos t ts a (length-flat_map qos (t ∷ ts)))
