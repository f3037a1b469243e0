-- ===== src/Publisher/Send.antt =====
-- applications/moq/MoqPublisherApp.cc: pacing and shedding, the flush of the send buffer.
use moq_veins_simulation_the.Base.{
  ℕ, zero, suc, ◌+◌, ◌-◌, pos, ◌+ℤ◌, ltb_ℤ, ◌||◌, List, [], ◌∷◌, ◌++◌, Option, none, some, ltb, leb,
  ◌==◌, if◌then◌else◌, ite, length, take, drop, min, max, lookup, insert, erase, bump, ℕ_discrete,
}
use mathlib.Core.Option
use moq_veins_simulation_the.SendBuffer.{Front, front, pop, put, contents, total}
use moq_veins_simulation_the.Quic.{
  Out, send_quic, reset_stream, Moment, quic_priority_of, is_stale, err_delivery_timeout,
  err_send_buffer_overflow,
}
use moq_veins_simulation_the.Publisher.State.{
  ℤ-discrete, SubgroupKey, SubgroupKey-discrete, Pending, Publisher,
}

-- Calls that are made one after the other.
unfoldable pub emit_all : List Out → List Out → List Out
emit_all [] log = log
emit_all (o ∷ os) log = emit_all os (o ∷ log)

-- resetSubgroupStream
unfoldable pub reset_subgroup_stream : SubgroupKey → ℕ → ℕ → Publisher → Publisher
reset_subgroup_stream key stream_id code s = record s {
  reset_subgroups = insert SubgroupKey-discrete key code s.reset_subgroups;
  subgroup_streams = erase SubgroupKey-discrete key s.subgroup_streams;
  subgroup_resets = s.subgroup_resets + 1;
  out = reset_stream stream_id code ∷ s.out;
}

-- quicSendQueueLength: the length is `m.queue_len`, and its peak is noted.
unfoldable pub observe : Moment → Publisher → Publisher
observe m s = record s { quic_queue_max_observed = max s.quic_queue_max_observed m.queue_len }

-- doSendQuicChunk: the object after the write.
unfoldable pub chunk_len : Publisher → Pending → ℕ
chunk_len s p = min (length p.bytes - p.sent_offset) s.quic_chunk_bytes

unfoldable pub chunk_sent : Publisher → Pending → Pending
unfolding chunk_len
chunk_sent s p = record p { sent_offset = p.sent_offset + chunk_len s p }

-- The object is with QUIC whole: it stays under the delivery timeout, and is counted as sent.
unfoldable pub note_sent : Pending → Publisher → Publisher
note_sent p s = record s {
  outstanding =
      if ltb_ℤ (pos 0) p.timeout
      then s.outstanding
        ++ (record {
          subgroup = p.subgroup;
          stream_id = p.stream_id;
          tid = p.tid;
          created_at = p.created_at;
          timeout = p.timeout;
        }
            ∷ [])
      else s.outstanding;
  pub_stats = λ t.
      let st = s.pub_stats t in
      ite (ℕ_discrete p.tid t)
        (record st {
          objects_sent = st.objects_sent + 1;
          bytes_sent = st.bytes_sent +ℤ p.payload_length;
        })
        st;
}

-- doSendQuicChunk
unfoldable pub do_send_quic_chunk : Pending → Publisher → Publisher
unfolding chunk_len chunk_sent note_sent
do_send_quic_chunk p s =
    let p' = chunk_sent s p in
    let bytes = take (chunk_len s p) (drop p.sent_offset p.bytes) in
    let s' = record s { out = send_quic p.stream_id (quic_priority_of p.priority) bytes ∷ s.out } in
    if p'.sent_offset == length p.bytes then note_sent p s' else s'

-- A drop that a reset of the object's stream caused is charged to the reset's cause.
unfoldable pub charge : ℕ → ℕ → Publisher → Publisher
charge code tid s =
    if code == err_send_buffer_overflow
    then record s { quic_shed_overflow = bump ℕ_discrete tid s.quic_shed_overflow }
    else record s { quic_shed_stale = bump ℕ_discrete tid s.quic_shed_stale }

unfoldable pub shed_stale : ℕ → Publisher → Publisher
shed_stale tid s = record s { quic_shed_stale = bump ℕ_discrete tid s.quic_shed_stale }

-- The object at the front is finished with.
unfoldable pub pop_front : Front Pending → Publisher → Publisher
pop_front f s = record s { send_buffer = pop f; send_buffer_count = s.send_buffer_count - 1 }

-- A stale object that has bytes on its stream takes the stream with it.
unfoldable pub drop_stale : Pending → Publisher → Publisher
unfolding reset_subgroup_stream shed_stale
drop_stale p s = shed_stale p.tid (
    if ltb 0 p.sent_offset
    then reset_subgroup_stream p.subgroup p.stream_id err_delivery_timeout s
    else s)

-- The object at the front is neither stale nor on a stream that was reset: its next slice is sent.
unfoldable pub send_front : Front Pending → Publisher → Publisher
unfolding do_send_quic_chunk pop_front
send_front f s =
    let p' = chunk_sent s f.item in
    let sent = do_send_quic_chunk f.item s in
    let s' = record sent {
      quic_bytes_this_event = sent.quic_bytes_this_event + (p'.sent_offset - f.item.sent_offset);
    } in
    if p'.sent_offset == length f.item.bytes
    then pop_front f s'
    else record s' { send_buffer = put f p' }

-- One round of the loop of flushSendBuffer on the object at the front.
unfoldable pub flush_front : Moment → Front Pending → Publisher → Publisher
unfolding charge drop_stale send_front pop_front
flush_front m f s = elim (lookup SubgroupKey-discrete f.item.subgroup s.reset_subgroups) [
  | some code ↦ pop_front f (charge code f.item.tid s)
  | none ↦
      if is_stale m.now f.item.created_at f.item.timeout
      then pop_front f (drop_stale f.item s)
      else send_front f s
]

-- `while (!quicBlocked && sendBufferCount > 0)`, with the two breaks; `none` ends the loop.
unfoldable pub flush_round : Moment → Publisher → Option Publisher
unfolding flush_front
flush_round m s =
    if s.quic_blocked || leb s.send_buffer_count 0
    then none
    else if leb s.quic_send_queue_limit (m.queue_len + s.quic_bytes_this_event)
    then none
    else Option.map (λ f. flush_front m f (observe m s)) (front s.send_buffer)

-- Where the loop ends: the length of QUIC's queue was read unless the loop's own test failed, and
-- with no object left the empty queues were erased.
unfoldable pub flush_stop : Moment → Publisher → Publisher
unfolding observe
flush_stop m s =
    if s.quic_blocked || leb s.send_buffer_count 0
    then s
    else if leb s.quic_send_queue_limit (m.queue_len + s.quic_bytes_this_event)
    then observe m s
    else record (observe m s) { send_buffer = [] }

unfoldable pub flush_loop : ℕ → Moment → Publisher → Publisher
flush_loop zero m s = s
flush_loop (suc fuel) m s = elim (flush_round m s) [
  | none ↦ flush_stop m s
  | some s' ↦ flush_loop fuel m s'
]

-- What is left to do: a round sends a byte at least, or removes an object.
unfoldable pub left_to_send : Pending → ℕ
left_to_send p = suc (length p.bytes - p.sent_offset)

unfoldable pub work : Publisher → ℕ
unfolding left_to_send total
work s = total left_to_send (contents s.send_buffer)

-- The bytes written are counted per event.
unfoldable pub enter_event : Moment → Publisher → Publisher
enter_event m s =
    ite (ℤ-discrete s.quic_write_event m.now) s
      (record s { quic_write_event = m.now; quic_bytes_this_event = 0 })

unfoldable pub flush_send_buffer : Moment → Publisher → Publisher
unfolding enter_event work flush_loop
flush_send_buffer m s = flush_loop (suc (work s)) m (enter_event m s)
