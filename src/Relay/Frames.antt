-- ===== src/Relay/Frames.antt =====
-- The objects that the relay hands on from a data stream, with the bytes of their frames.
use moq_veins_simulation_the.Base.{
  ℕ, ◌≡◌, ◌≢◌, refl, sym, ap, ◌∙◌, arith, pos, List, [], ◌∷◌, ◌++◌, map, flat_map, length, take,
  take-append, take-append_le, All, if_neg, inl, inr, some, lookup-insert_same, lookup-insert_other,
  ℤ,
}
use mathlib.Core.Option
use moq_veins_simulation_the.Reader.{Bytes, Parse, incomplete, parsed}
use moq_veins_simulation_the.Stream.{
  push_all-drained, IsFraming, drained, drain, push_all, drain-flat_map, drain_incomplete,
  Parse-cases,
}
use moq_veins_simulation_the.Quic.{control_stream}
use moq_veins_simulation_the.Publisher.State.{ℤ-discrete}
use moq_veins_simulation_the.MoqFraming.Object.{
  ObjectFrame, IsObject, encode, try_parse, try_parse-encode, try_parse-IsFraming,
}
use moq_veins_simulation_the.Subscriber.Receive.{started}
use moq_veins_simulation_the.Subscriber.State.{StreamReassembler}
use moq_veins_simulation_the.Relay.Forward.{on_object_frame}
use moq_veins_simulation_the.Relay.State.{RelayMoment, Relay}
use moq_veins_simulation_the.Relay.Receive.{
  StreamKey-discrete, StreamKey, Node, with_bytes, recv_buffer, keep_buffer, handle_objects,
  restart, took_objects, take_in,
}

with_bytes-parsed :
    {A : Type 0} (parse : Bytes → Parse (A × ℕ)) (buf : Bytes) (a : A) (k : ℕ)
    → parse buf ≡ parsed (a, k)
    → with_bytes parse buf ≡ parsed ((a, take k buf), k)
unfolding with_bytes
with_bytes-parsed parse buf a k e = rw (e, with_bytes)

with_bytes_cases :
    {A : Type 0} (parse : Bytes → Parse (A × ℕ)) (buf : Bytes) (x : A × Bytes) (k : ℕ)
    → with_bytes parse buf ≡ parsed (x, k)
    → (parse buf ≡ parsed (x.0, k)) × (x.1 ≡ take k buf)
unfolding with_bytes
with_bytes_cases parse buf x k e = elim (Parse-cases (parse buf)) [
  | inl h ↦ absurd (ground (arith, e, h))
  | inr (inl (a, h)) ↦ ground (arith, e, h)
  | inr (inr h) ↦ absurd (ground (arith, e, h))
]

-- The bytes of a message do not depend on what follows it either.
with_bytes-IsFraming :
    {A : Type 0} (parse : Bytes → Parse (A × ℕ)) → IsFraming parse → IsFraming (with_bytes parse)
with_bytes-IsFraming parse law = record {
  progress = λ buf x k e. law.progress buf x.0 k (with_bytes_cases parse buf x k e).0;
  stable = λ buf more x k e.
      let (h, b) = with_bytes_cases parse buf x k e in
      let (lower, upper) = law.progress buf x.0 k h in
      with_bytes-parsed parse (buf ++ more) x.0 k (law.stable buf more x.0 k h)
      ∙ ap (λ (c : Bytes). parsed ((x.0, c), k)) (take-append_le k buf more upper ∙ sym b);
}

-- An object with the bytes that it was encoded to.
abbrev encoded : ObjectFrame → ObjectFrame × Bytes
encoded f = (f, encode f)

abbrev IsEncoded : ObjectFrame × Bytes → Type 0
IsEncoded x = IsObject x.0 × (x.1 ≡ encode x.0)

with_bytes-encode :
    (x : ObjectFrame × Bytes) (p : Bytes)
    → IsEncoded x
    → with_bytes try_parse (x.1 ++ p) ≡ parsed (x, length x.1)
with_bytes-encode x p (h, e) =
    with_bytes-parsed try_parse (x.1 ++ p) x.0 (length x.1) (rw e (try_parse-encode x.0 p h))
    ∙ ap (λ (c : Bytes). parsed ((x.0, c), length x.1)) (take-append x.1 p)

flat_map-encoded :
    (fs : List ObjectFrame)
    → flat_map (λ (x : ObjectFrame × Bytes). x.1) (map encoded fs) ≡ flat_map encode fs
unfolding mathlib.Core.List.flat_map
flat_map-encoded [] = refl
flat_map-encoded (f ∷ fs) = ap (◌++◌ (encode f)) (flat_map-encoded fs)

map-encoded : (fs : List ObjectFrame) → All IsObject fs → All IsEncoded (map encoded fs)
map-encoded [] a = tt
map-encoded (f ∷ fs) (h, a) = ((h, refl), map-encoded fs a)

drain-encoded :
    (fs : List ObjectFrame) (rest : Bytes)
    → All IsObject fs
    → try_parse rest ≡ incomplete
    → drain (with_bytes try_parse) (flat_map encode fs ++ rest) ≡ drained (map encoded fs) rest
unfolding with_bytes
drain-encoded fs rest a i =
    ap (λ (b : Bytes). drain (with_bytes try_parse) (b ++ rest)) (sym (flat_map-encoded fs))
    ∙ drain-flat_map (with_bytes try_parse) (with_bytes-IsFraming try_parse try_parse-IsFraming)
        (λ (x : ObjectFrame × Bytes). x.1) IsEncoded with_bytes-encode (map encoded fs) rest
        (map-encoded fs a)
    ∙ ap (push_all (map encoded fs)) (
        drain_incomplete (with_bytes try_parse) (with_bytes-IsFraming try_parse try_parse-IsFraming)
          rest (rw (i, with_bytes)))
    ∙ push_all-drained (map encoded fs) rest

-- The objects are handled one after the other, each with the bytes it was encoded to. The first one
-- began to arrive at `start`, the others now.
abbrev pub HandledInTurn : RelayMoment → ℤ → List ObjectFrame → Relay → Relay → Type 0
HandledInTurn m start [] s s' = s ≡ s'
HandledInTurn m start (f ∷ fs) s s' =
    (x : Relay) × (on_object_frame m f (encode f) start s ≡ some x) × HandledInTurn m m.now fs x s'

handle_objects-HandledInTurn :
    (m : RelayMoment) (start : ℤ) (fs : List ObjectFrame) (s s' : Relay)
    → HandledInTurn m start fs s s'
    → handle_objects m start (map encoded fs) s ≡ some s'
unfolding handle_objects Option.bind
handle_objects-HandledInTurn m start [] s s' e = ap some e
handle_objects-HandledInTurn m start (f ∷ fs) s s' (x, e, h) =
    ap (λ o. Option.bind o (handle_objects m m.now (map encoded fs))) e
    ∙ handle_objects-HandledInTurn m m.now fs x s' h

-- When the frame at the front of a buffer began to arrive: now, if the buffer was empty.
abbrev pub begun : ℤ → Bytes → ℤ → ℤ
begun now [] before = now
begun now (b ∷ bs) before = before

-- When the frame that is left began to arrive: now, if one was in front of it.
abbrev pub left_since : ℤ → List ObjectFrame → ℤ → ℤ
left_since now [] start = start
left_since now (f ∷ fs) start = now

begun-started : (now : ℤ) (content : Bytes) (t : ℤ) → started now content t ≡ begun now content t
begun-started now [] t = refl
begun-started now (b ∷ bs) t = refl

left_since-restart :
    (now : ℤ) (fs : List ObjectFrame) (t : ℤ) → restart now (map encoded fs) t ≡ left_since now fs t
left_since-restart now [] t = refl
left_since-restart now (f ∷ fs) t = refl

-- What a stream's buffer holds, and since when, with all other buffers as they were.
abbrev pub Kept : StreamKey → Bytes → ℤ → Node → Node → Type 0
Kept k rest since n n' =
    (recv_buffer k n' ≡ record { content = rest; frame_start_time = since })
    × ((j : StreamKey) → k ≢ j → recv_buffer j n' ≡ recv_buffer j n)

keep_buffer-Kept :
    (k : StreamKey) (rest : Bytes) (since : ℤ) (n : Node) (s : Relay)
    → Kept k rest since n (keep_buffer k rest since n s)
unfolding keep_buffer recv_buffer
keep_buffer-Kept k rest since n s =
    let rb : StreamReassembler = record { content = rest; frame_start_time = since } in
    (
      ground (arith, lookup-insert_same StreamKey-discrete k rb n.recv_buffers),
      λ j d. ground (arith, lookup-insert_other StreamKey-discrete k j rb n.recv_buffers d),
    )

-- Where the buffer of a data stream of the relay, with the packet behind it, holds the encoding
-- of objects whose fields fit their widths, and then bytes that are no whole object, and the
-- relay can handle these objects one after the other, each with the very bytes that it was
-- encoded to and the time since when its frame arrives, then the packet leaves the relay as
-- that does, the buffer of the stream with the bytes behind the objects and the time since when
-- they arrive, and all other buffers as they were.
pub take_in-handled :
    (m : RelayMoment) (k : StreamKey) (bytes rest : Bytes) (fs : List ObjectFrame) (n : Node)
    (s' : Relay)
    → k.stream_id ≢ pos control_stream
    → All IsObject fs
    → try_parse rest ≡ incomplete
    → (recv_buffer k n).content ++ bytes ≡ flat_map encode fs ++ rest
    → HandledInTurn m
        (begun m.now (recv_buffer k n).content (recv_buffer k n).frame_start_time)
        fs
        n.relay
        s'
    → (n' : Node) × (take_in m k bytes n ≡ some n')
      × (n'.relay ≡ s')
      × Kept k rest
          (left_since m.now fs
            (begun m.now (recv_buffer k n).content (recv_buffer k n).frame_start_time))
          n
          n'
unfolding take_in took_objects keep_buffer
take_in-handled m k bytes rest fs n s' h a i e hs =
    let content = (recv_buffer k n).content in
    let t = (recv_buffer k n).frame_start_time in
    let start = begun m.now content t in
    let since = left_since m.now fs start in
    (
      keep_buffer k rest since n s',
      if_neg (ℤ-discrete k.stream_id (pos control_stream)) h _ _
          ∙ ap (λ d. took_objects m k (started m.now content t) d n)
              (ap (drain (with_bytes try_parse)) e ∙ drain-encoded fs rest a i)
          ∙ ap (λ z. took_objects m k z (drained (map encoded fs) rest) n)
              (begun-started m.now content t)
          ∙ ap (Option.map (keep_buffer k rest (restart m.now (map encoded fs) start) n))
              (handle_objects-HandledInTurn m start fs n.relay s' hs)
          ∙ ap (λ z. some (keep_buffer k rest z n s')) (left_since-restart m.now fs start),
      refl,
      keep_buffer-Kept k rest since n s',
    )
