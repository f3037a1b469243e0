-- ===== src/Quic.antt =====
-- What the applications use of the transports: the protocol choice, the stream numbers, priorities
-- and error codes of models/MoqFraming.h, and the calls that leave an application.
use moq_veins_simulation_the.Base.{
  ℕ, ◌≤◌, ◌<◌, arith, ℤ, pos, pos_part, ◌+ℤ◌, ◌-ℤ◌, ◌≤ℤ◌, ltb_ℤ, if◌then◌else◌, Bool, ◌&&◌,
}
use moq_veins_simulation_the.Reader.{Bytes}

pub data Protocol : Type 0 where
  quic tcp udp : Protocol

abbrev pub control_stream : ℕ
control_stream = 0

abbrev pub control_stream_priority : ℕ
control_stream_priority = 0

abbrev pub err_delivery_timeout : ℕ
err_delivery_timeout = 2

abbrev pub err_send_buffer_overflow : ℕ
err_send_buffer_overflow = 256

-- quicPriorityOf
unfoldable pub quic_priority_of : ℤ → ℕ
unfolding ◌+ℤ◌
quic_priority_of moq =
    let p : ℤ = moq +ℤ pos 1 in
    let at_least_one : ℤ = if ltb_ℤ p (pos 1) then pos 1 else p in
    let one_byte : ℤ = if ltb_ℤ (pos 255) at_least_one then pos 255 else at_least_one in
    pos_part one_byte

-- For MoQ priorities a and b with a at most b, the QUIC priority of a is above the one of the
-- control stream and at most the one of b, which is at most 255.
pub quic_priority_of_order :
    (a b : ℤ)
    → a ≤ℤ b
    → (control_stream_priority < quic_priority_of a)
      × (quic_priority_of a ≤ quic_priority_of b)
      × (quic_priority_of b ≤ 255)
unfolding quic_priority_of
quic_priority_of_order a b h = ground arith

-- `timeout > 0 && now - createdAt > timeout`
unfoldable pub is_stale : ℤ → ℤ → ℤ → Bool
is_stale now created_at timeout = ltb_ℤ (pos 0) timeout && ltb_ℤ timeout (now -ℤ created_at)

-- The calls on a socket that send or reset, in the order that they are made.
pub data Out : Type 0 where
  send_quic : ℕ → ℕ → Bytes → Out
  reset_stream : ℕ → ℕ → Out
  send_tcp : Bytes → Out
  send_udp : Bytes → Out

-- The moment at which an event is handled. QUIC takes a write in a later event only, so the length
-- of its send queue that it reports is the same all through one event.
pub record Moment : Type 0 where
  pub now : ℤ
  pub queue_len : ℕ
