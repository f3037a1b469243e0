-- ===== src/Relay/Send.antt =====
-- applications/moq/MoqRelayApp.cc: the downstream send path of the QUIC transport.
use moq_veins_simulation_the.Base.{
  ℕ, zero, suc, ◌+◌, ◌-◌, pos, ◌-ℤ◌, ltb_ℤ, Bool, true, false, ◌||◌, List, [], ◌∷◌, ◌++◌, map,
  Option, none, some, ltb, leb, ◌==◌, if◌then◌else◌, ite, length, take, drop, min, lookup, insert,
  erase, bump, ℕ_discrete,
}
use mathlib.Core.Option
use moq_veins_simulation_the.Reader.{Bytes, Bytes-discrete}
use moq_veins_simulation_the.SendBuffer.{Front, front, pop, put, contents, total}
use moq_veins_simulation_the.Quic.{
  Out, send_quic, reset_stream, quic_priority_of, is_stale, err_delivery_timeout,
  err_send_buffer_overflow,
}
use moq_veins_simulation_the.Publisher.State.{ℤ-discrete}
use moq_veins_simulation_the.Relay.State.{
  DownSubgroup, DownSubgroup-discrete, OutstandingFwd, FwdItem, SockSendState, RelayMoment, Relay,
}

-- Calls on one peer that are made one after the other.
unfoldable pub emit_to : ℕ → List Out → List (ℕ × Out) → List (ℕ × Out)
emit_to peer [] log = log
emit_to peer (o ∷ os) log = emit_to peer os ((peer, o) ∷ log)

-- What resetDownstreamStream and checkOutstandingTimeouts do to a stream.
unfoldable pub reset_stream_of : DownSubgroup → ℕ → ℕ → ℕ → Relay → Relay
reset_stream_of key sock stream_id code s = record s {
  reset_downstream = insert DownSubgroup-discrete key code s.reset_downstream;
  downstream_streams = erase DownSubgroup-discrete key s.downstream_streams;
  downstream_resets = s.downstream_resets + 1;
  out = (sock, reset_stream stream_id code) ∷ s.out;
}

-- resetDownstreamStream
unfoldable pub reset_downstream_stream : FwdItem → ℕ → Relay → Relay
unfolding reset_stream_of
reset_downstream_stream i code s = reset_stream_of i.subgroup i.sock i.stream_id code s

unfoldable pub shed_stale : Bytes → Relay → Relay
shed_stale alias s = record s { relay_shed_stale = bump Bytes-discrete alias s.relay_shed_stale }

unfoldable pub shed_overflow : Bytes → Relay → Relay
shed_overflow alias s = record s {
  relay_shed_overflow = bump Bytes-discrete alias s.relay_shed_overflow;
}

-- A drop that a reset caused is charged to the reset's cause.
unfoldable pub charge : ℕ → Bytes → Relay → Relay
unfolding shed_stale shed_overflow
charge code alias s =
    if code == err_send_buffer_overflow then shed_overflow alias s else shed_stale alias s

-- recordForward, and the end of doForwardSendChunk: the counts, without the delays.
unfoldable pub record_forward : Bytes → Relay → Relay
record_forward subscriber_id s = record s {
  forward_count = bump Bytes-discrete subscriber_id s.forward_count;
  objects_forwarded_total = s.objects_forwarded_total + 1;
}

unfoldable pub chunk_len : Relay → FwdItem → ℕ
chunk_len s i = min (length i.bytes - i.sent_offset) s.quic_chunk_bytes

unfoldable pub chunk_sent : Relay → FwdItem → FwdItem
unfolding chunk_len
chunk_sent s i = record i { sent_offset = i.sent_offset + chunk_len s i }

-- The object is with QUIC whole, and stays under its delivery timeout.
unfoldable pub note_sent : FwdItem → Relay → Relay
unfolding record_forward
note_sent i s = record_forward i.subscriber_id (
    if ltb_ℤ (pos 0) i.timeout
    then record s {
      outstanding =
          s.outstanding
          ++ (record {
            subgroup = i.subgroup;
            sock = i.sock;
            stream_id = i.stream_id;
            track_alias = i.track_alias;
            created_at = i.created_at;
            timeout = i.timeout;
          }
              ∷ []);
    }
    else s)

-- doForwardSendChunk; the item after the write is `chunk_sent`.
unfoldable pub do_forward_send_chunk : FwdItem → Relay → Relay
unfolding chunk_len chunk_sent note_sent
do_forward_send_chunk i s =
    let bytes = take (chunk_len s i) (drop i.sent_offset i.bytes) in
    let s' = record s {
      out = (i.sock, send_quic i.stream_id (quic_priority_of i.priority) bytes) ∷ s.out;
    } in
    if ltb (chunk_sent s i).sent_offset (length i.bytes) then s' else note_sent i s'

-- The loop of flushSocket works on the state of one socket and on the relay.
abbrev pub Flushing : Type 0
Flushing = SockSendState × Relay

-- `pop_front(); st.count--; pendingForwardCount--`
unfoldable pub pop_front : Front FwdItem → SockSendState → Relay → Flushing
pop_front f st s = (
  record st { buffer = pop f; count = st.count - 1 },
  record s { pending_forward_count = s.pending_forward_count - 1 },
)

unfoldable pub drop_stale : FwdItem → Relay → Relay
unfolding shed_stale reset_downstream_stream
drop_stale i s =
    shed_stale i.track_alias
      (if ltb 0 i.sent_offset then reset_downstream_stream i err_delivery_timeout s else s)

unfoldable pub count_bytes : ℕ → ℕ → Relay → Relay
count_bytes id n s = record s {
  quic_bytes_this_event =
      λ j. ite (ℕ_discrete id j) (s.quic_bytes_this_event j + n) (s.quic_bytes_this_event j);
}

unfoldable pub send_front : ℕ → Front FwdItem → SockSendState → Relay → Flushing
unfolding do_forward_send_chunk pop_front chunk_len chunk_sent count_bytes
send_front id f st s =
    let sent = count_bytes id (chunk_len s f.item) (do_forward_send_chunk f.item s) in
    if (chunk_sent s f.item).sent_offset == length f.item.bytes
    then pop_front f st sent
    else (record st { buffer = put f (chunk_sent s f.item) }, sent)

-- One round of the loop on the object at the front.
unfoldable pub flush_front : RelayMoment → ℕ → Front FwdItem → SockSendState → Relay → Flushing
unfolding charge drop_stale send_front pop_front
flush_front m id f st s = elim (lookup DownSubgroup-discrete f.item.subgroup s.reset_downstream) [
  | some code ↦ pop_front f st (charge code f.item.track_alias s)
  | none ↦
      if is_stale m.now f.item.created_at f.item.timeout
      then pop_front f st (drop_stale f.item s)
      else send_front id f st s
]

-- `while (!st.blocked && st.count > 0)`, with the two breaks; `none` ends the loop.
unfoldable pub flush_round : RelayMoment → ℕ → SockSendState → Relay → Option Flushing
unfolding flush_front
flush_round m id st s =
    if st.blocked || leb st.count 0
    then none
    else if leb s.quic_send_queue_limit (m.queue_len id + s.quic_bytes_this_event id)
    then none
    else Option.map (λ f. flush_front m id f st s) (front st.buffer)

-- Where the loop ends: with no object left the empty queues were erased.
unfoldable pub flush_stop : RelayMoment → ℕ → SockSendState → Relay → Flushing
flush_stop m id st s =
    if st.blocked || leb st.count 0
    then (st, s)
    else if leb s.quic_send_queue_limit (m.queue_len id + s.quic_bytes_this_event id)
    then (st, s)
    else (record st { buffer = [] }, s)

unfoldable pub flush_loop : ℕ → RelayMoment → ℕ → SockSendState → Relay → Flushing
flush_loop zero m id st s = (st, s)
flush_loop (suc fuel) m id st s = elim (flush_round m id st s) [
  | none ↦ flush_stop m id st s
  | some x ↦ flush_loop fuel m id x.0 x.1
]

unfoldable pub left_to_send : FwdItem → ℕ
left_to_send i = suc (length i.bytes - i.sent_offset)

unfoldable pub work : SockSendState → ℕ
unfolding left_to_send total
work st = total left_to_send (contents st.buffer)

-- The bytes written are counted per event.
unfoldable pub enter_event : RelayMoment → Relay → Relay
enter_event m s =
    ite (ℤ-discrete s.quic_write_event m.now) s
      (record s { quic_write_event = m.now; quic_bytes_this_event = λ _. 0 })

-- flushSocket
unfoldable pub flush_socket : RelayMoment → ℕ → Relay → Relay
unfolding flush_loop work enter_event
flush_socket m id s = elim (lookup ℕ_discrete id s.sock_send) [
  | none ↦ s
  | some st ↦
      let (st', s') = flush_loop (suc (work st)) m id st (enter_event m s) in
      record s' { sock_send = insert ℕ_discrete id st' s'.sock_send }
]

unfoldable pub was_reset : DownSubgroup → Relay → Bool
was_reset key s = elim (lookup DownSubgroup-discrete key s.reset_downstream) [
  | none ↦ false
  | some _ ↦ true
]

unfoldable pub is_late : RelayMoment → OutstandingFwd → Bool
is_late m o = ltb_ℤ o.timeout (m.now -ℤ o.created_at)

-- What the loop of checkOutstandingTimeouts does about one object.
unfoldable pub check_outstanding : RelayMoment → OutstandingFwd → Relay → Relay
unfolding reset_stream_of was_reset is_late
check_outstanding m o s =
    let reset = reset_stream_of o.subgroup o.sock o.stream_id err_delivery_timeout s in
    if was_reset o.subgroup s
    then s
    else if is_late m o
    then record reset {
      relay_reset_after_send = bump Bytes-discrete o.track_alias reset.relay_reset_after_send;
    }
    else s

unfoldable pub sweep_outstanding :
    RelayMoment → List OutstandingFwd → Relay → List OutstandingFwd × Relay
unfolding check_outstanding
sweep_outstanding m [] s = ([], s)
sweep_outstanding m (o ∷ os) s =
    let (kept, last) = sweep_outstanding m os (check_outstanding m o s) in
    ((if was_reset o.subgroup s || is_late m o then kept else o ∷ kept), last)

-- checkOutstandingTimeouts
unfoldable pub check_outstanding_timeouts : RelayMoment → Relay → Relay
unfolding sweep_outstanding
check_outstanding_timeouts m s =
    let (kept, s') = sweep_outstanding m s.outstanding s in record s' { outstanding = kept }

-- The case TIMER_TIMEOUT_CHECK of handleTimeout, over the sockets in `ids`.
unfoldable pub flush_all : RelayMoment → List ℕ → Relay → Relay
unfolding flush_socket
flush_all m [] s = s
flush_all m (id ∷ ids) s = flush_all m ids (flush_socket m id s)

unfoldable pub timeout_check : RelayMoment → Relay → Relay
unfolding check_outstanding_timeouts flush_all
timeout_check m s =
    let s' = check_outstanding_timeouts m s in
    flush_all m (map (λ (e : ℕ × SockSendState). e.0) s'.sock_send) s'
