-- ===== src/Subscriber/Arrivals.antt =====
-- applications/moq/MoqSubscriberApp.cc with the publisher's encoder: the objects that are written on a
-- data stream are recorded, wherever the stream is cut into packets.
use moq_veins_simulation_the.Base.{
  ℕ, ◌+◌, ◌≡◌, ◌≢◌, refl, sym, ap, ◌∙◌, arith, ℤ, false, List, [], ◌∷◌, ◌++◌, Option, none, some,
  ite, ◌==◌, append_assoc, append-nil, length, flat_map, All, All-split, insert, lookup-insert,
  lookup-insert_same, ℕ_discrete, if_false, if_pos, if_neg,
}
use moq_veins_simulation_the.Reader.{Bytes, Bytes-discrete, incomplete, parsed, Parse}
use moq_veins_simulation_the.Stream.{drained, drain}
use moq_veins_simulation_the.Stream.Pieces.{drain_piece}
use moq_veins_simulation_the.Quic.{control_stream}
use moq_veins_simulation_the.MoqFraming.Object.{
  ObjectFrame, IsObject, encode, try_parse, try_parse-encode, try_parse-IsFraming, try_parse_short,
  try_parse_nothing,
}
use moq_veins_simulation_the.Subscriber.Stats.{MoqTrackStat, add_object}
use moq_veins_simulation_the.Subscriber.State.{StreamReassembler, Subscriber}
use moq_veins_simulation_the.Subscriber.Receive.{
  track_stat, record_object, record_objects, stream_buffer, keep_stream, started, restarted,
  took_objects, stream_arrived,
}

-- The packets of one stream, one after the other.
unfoldable pub arrive_on : ℕ → List (ℤ × Bytes) → Subscriber → Option Subscriber
unfolding stream_arrived
arrive_on id [] s = some s
arrive_on id ((now, bytes) ∷ ps) s = elim (stream_arrived now id bytes s) [
  | none ↦ none
  | some s' ↦ arrive_on id ps s'
]

unfoldable pub joined : List (ℤ × Bytes) → Bytes
joined [] = []
joined ((now, bytes) ∷ ps) = bytes ++ joined ps

-- The objects of a track.
unfoldable pub count_of : Bytes → List ObjectFrame → ℕ
count_of alias [] = 0
count_of alias (f ∷ fs) = ite (Bytes-discrete f.track_alias alias) 1 0 + count_of alias fs

count_of-append :
    (alias : Bytes) (fs gs : List ObjectFrame)
    → count_of alias (fs ++ gs) ≡ count_of alias fs + count_of alias gs
unfolding count_of
count_of-append alias [] gs = omega arith
count_of-append alias (f ∷ fs) gs = omega (arith, count_of-append alias fs gs)

track_stat-insert :
    (k alias : Bytes) (ts : MoqTrackStat) (n : ℕ) (s : Subscriber)
    → track_stat alias
        (record s { sub_stats = insert Bytes-discrete k ts s.sub_stats; receive_count = n })
      ≡ ite (Bytes-discrete k alias) ts (track_stat alias s)
unfolding track_stat
track_stat-insert k alias ts n s =
    ground (arith, lookup-insert Bytes-discrete k alias ts s.sub_stats)

record_object-received :
    (f : ObjectFrame) (start now : ℤ) (alias : Bytes) (s : Subscriber)
    → (track_stat alias (record_object f start now s)).received
      ≡ (track_stat alias s).received + ite (Bytes-discrete f.track_alias alias) 1 0
unfolding record_object add_object
record_object-received f start now alias s =
    let ts = add_object f start now (track_stat f.track_alias s) in
    let e = track_stat-insert f.track_alias alias ts (s.receive_count + 1) s in
    elim (Bytes-discrete f.track_alias alias) [
      | yes p ↦
          ap (λ (t : MoqTrackStat). t.received)
            (e ∙ if_pos (Bytes-discrete f.track_alias alias) p ts (track_stat alias s))
          ∙ ap (λ (a : Bytes). (track_stat a s).received + 1) p
          ∙ ap (λ (n : ℕ). (track_stat alias s).received + n)
              (sym (if_pos (Bytes-discrete f.track_alias alias) p 1 0))
      | no n ↦
          ap (λ (t : MoqTrackStat). t.received)
            (e ∙ if_neg (Bytes-discrete f.track_alias alias) n ts (track_stat alias s))
          ∙ omega (arith, if_neg {C = ℕ} (Bytes-discrete f.track_alias alias) n 1 0)
    ]

record_objects-received :
    (fs : List ObjectFrame) (start now : ℤ) (alias : Bytes) (s : Subscriber)
    → (track_stat alias (record_objects start now fs s)).received
      ≡ (track_stat alias s).received + count_of alias fs
unfolding record_objects count_of
record_objects-received [] start now alias s = omega arith
record_objects-received (f ∷ fs) start now alias s = omega (
  arith,
  record_objects-received fs now now alias (record_object f start now s),
  record_object-received f start now alias s,
)

-- The buffers are not touched by the statistics.
record_objects-buffer :
    (fs : List ObjectFrame) (start now : ℤ) (id : ℕ) (s : Subscriber)
    → stream_buffer id (record_objects start now fs s) ≡ stream_buffer id s
unfolding record_objects record_object stream_buffer
record_objects-buffer [] start now id s = refl
record_objects-buffer (f ∷ fs) start now id s =
    record_objects-buffer fs now now id (record_object f start now s)

keep_stream-buffer :
    (id : ℕ) (rest : Bytes) (start : ℤ) (s : Subscriber)
    → (stream_buffer id (keep_stream id rest start s)).content ≡ rest
unfolding keep_stream stream_buffer
keep_stream-buffer id rest start s = ground (
  arith,
  lookup-insert_same ℕ_discrete id (record { content = rest; frame_start_time = start })
      s.stream_buffers,
)

stream_arrived_data :
    (now : ℤ) (id : ℕ) (bytes rest : Bytes) (fs : List ObjectFrame) (s : Subscriber)
    → id ≢ control_stream
    → drain try_parse ((stream_buffer id s).content ++ bytes) ≡ drained fs rest
    → (start : ℤ) × (mid : ℤ) × (stream_arrived now id bytes s
        ≡ some (record_objects start now fs (keep_stream id rest mid s)))
unfolding stream_arrived took_objects
stream_arrived_data now id bytes rest fs s h e =
    let rb = stream_buffer id s in
    let start = started now rb.content rb.frame_start_time in
    let data_stream : (id == control_stream) ≡ false = ground (arith, h) in
    (
      start,
      restarted now fs start,
      if_false _ _ _ data_stream ∙ ap (λ d. took_objects now id start d s) e,
    )

-- A track's statistics do not depend on the buffers.
keep_stream-stat :
    (id : ℕ) (rest : Bytes) (start : ℤ) (alias : Bytes) (s : Subscriber)
    → track_stat alias (keep_stream id rest start s) ≡ track_stat alias s
unfolding keep_stream track_stat
keep_stream-stat id rest start alias s = refl

unwhole :
    (f : ObjectFrame) (fs : List ObjectFrame) (buf : Bytes)
    → IsObject f
    → try_parse buf ≡ incomplete
    → buf ≢ flat_map encode (f ∷ fs)
unfolding mathlib.Core.List.flat_map
unwhole f fs buf h e = λ p.
    let x : ◌≡◌ {A = Parse (ObjectFrame × ℕ)} incomplete (parsed (f, length (encode f))) =
      sym e ∙ ap try_parse p ∙ try_parse-encode f (flat_map encode fs) h in
    cc

-- Where the buffer of a data stream holds no whole object, and with the packets that arrive on
-- the stream is the encoding of objects whose fields fit their widths, wherever that was cut,
-- then no packet is read past its end, the objects of each track are counted as received, and
-- nothing is left in the buffer.
pub arrive_on-received :
    (ps : List (ℤ × Bytes)) (fs : List ObjectFrame) (id : ℕ) (alias : Bytes) (s : Subscriber)
    → id ≢ control_stream
    → All IsObject fs
    → try_parse (stream_buffer id s).content ≡ incomplete
    → (stream_buffer id s).content ++ joined ps ≡ flat_map encode fs
    → (s' : Subscriber) × (arrive_on id ps s ≡ some s')
      × ((track_stat alias s').received ≡ (track_stat alias s).received + count_of alias fs)
      × ((stream_buffer id s').content ≡ [])
unfolding arrive_on joined count_of mathlib.Core.List.flat_map
arrive_on-received [] [] id alias s h a i e = (s, refl, omega arith, sym (append-nil _) ∙ e)
arrive_on-received [] (f ∷ fs) id alias s h (hf, a) i e =
    absurd (unwhole f fs _ hf i (sym (append-nil _) ∙ e))
arrive_on-received ((now, bytes) ∷ ps) fs id alias s h a i e =
    let content = (stream_buffer id s).content in
    let (gs, hs, rest, ef, ed, ei, er) =
      drain_piece try_parse try_parse-IsFraming encode IsObject try_parse-encode try_parse_short
        try_parse_nothing fs (content ++ bytes) (joined ps) a
        (append_assoc content bytes (joined ps) ∙ e) in
    let (start, mid, es) = stream_arrived_data now id bytes rest gs s h ed in
    let kept = keep_stream id rest mid s in
    let s1 = record_objects start now gs kept in
    let buffer : (stream_buffer id s1).content ≡ rest =
      ap (λ (b : StreamReassembler). b.content) (record_objects-buffer gs start now id kept)
      ∙ keep_stream-buffer id rest mid s in
    let (ag, ah) = All-split IsObject gs hs (rw ef at a) in
    let (s', er', count, empty) =
      arrive_on-received ps hs id alias s1 h ah (ap try_parse buffer ∙ ei)
        (ap (λ c. c ++ joined ps) buffer ∙ er) in
    (
      s',
      rw (es, arrive_on) er',
      omega (
        arith,
        count,
        record_objects-received gs start now alias kept,
        ap (λ (t : MoqTrackStat). t.received) (keep_stream-stat id rest mid alias s),
        ap (count_of alias) ef,
        count_of-append alias gs hs,
      ),
      empty,
    )
