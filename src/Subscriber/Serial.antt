-- ===== src/Subscriber/Serial.antt =====
-- applications/moq/MoqSubscriberApp.cc: one recv at a time, and every stream that has data is read.
use moq_veins_simulation_the.Quic.{control_stream}
use moq_veins_simulation_the.MoqFraming.Control.{ControlFrame, ctrl_publish_done}
use moq_veins_simulation_the.MoqFraming.Object.{ObjectFrame}
use moq_veins_simulation_the.Base.{
  ℕ, suc, ◌≡◌, refl, sym, ap, subst, ◌∙◌, arith, ℤ, Bool, List, [], ◌∷◌, Option, none, some,
  if◌then◌else◌, inl, inr, ◌⊎◌, Option-cases, Bool-cases, if_both, ◌==◌, ◌||◌, length, map_cases,
  list_cases,
}
use mathlib.Core.Option
use mathlib.Core.Option.{some-injective}
use moq_veins_simulation_the.Reader.{Bytes}
use moq_veins_simulation_the.Stream.{Drain, drained, past_end, stuck}
use moq_veins_simulation_the.Broker.Sets.{set_has, set_insert, set_has-set_insert}
use moq_veins_simulation_the.Subscriber.State.{SubCall, recv, sent, Subscriber}
use moq_veins_simulation_the.Subscriber.Receive.{
  start_next_recv, is_in_flight, data_available, stream_arrived, data_arrived, took_controls,
  took_objects, restarted, record_object, record_objects, note_controls, note_subscription_ended,
  keep_stream,
}

-- The recvs that were called, the latest first.
unfoldable pub recvs : List SubCall → List ℕ
recvs [] = []
recvs (recv id ∷ log) = id ∷ recvs log
recvs (sent o ∷ log) = recvs log

-- Streams wait for their turn only while a recv is outstanding.
unfoldable pub IsSerial : Subscriber → Type 0
IsSerial s = (s.recv_pending ≡ []) ⊎ ((i : ℕ) × (s.recv_in_flight ≡ some i))

-- A stream is read, or will be: its recv is outstanding, or it waits.
unfoldable pub served : ℕ → Subscriber → Bool
unfolding is_in_flight set_has
served id s = is_in_flight id s || set_has id s.recv_pending

start_next_recv-IsSerial : (s : Subscriber) → IsSerial (start_next_recv s)
unfolding start_next_recv IsSerial
start_next_recv-IsSerial s = elim (list_cases s.recv_pending) [
  | inl e ↦ rw (e, start_next_recv) (inl e)
  | inr (i, js, e) ↦ rw (e, start_next_recv) (inr (i, refl))
]

start_next_recv-served :
    (j : ℕ) (s : Subscriber) → served j (start_next_recv s) ≡ set_has j s.recv_pending
unfolding start_next_recv served is_in_flight set_has
start_next_recv-served j s = elim (list_cases s.recv_pending) [
  | inl e ↦ rw (e, start_next_recv) (ground (arith, e))
  | inr (i, js, e) ↦ rw (e, start_next_recv) refl
]

-- The set with the stream of a notification.
abbrev noted : ℕ → Subscriber → Subscriber
noted id s = record s { recv_pending = set_insert id s.recv_pending }

data_available_idle :
    (id : ℕ) (s : Subscriber)
    → s.recv_in_flight ≡ none
    → data_available id s ≡ start_next_recv (noted id s)
unfolding data_available is_in_flight
data_available_idle id s e = ground (arith, e)

data_available_busy :
    (id i : ℕ) (s : Subscriber)
    → s.recv_in_flight ≡ some i
    → data_available id s ≡ (if id == i then s else noted id s)
unfolding data_available is_in_flight
data_available_busy id i s e = ground (arith, e)

served_idle :
    (j : ℕ) (s : Subscriber) → s.recv_in_flight ≡ none → served j s ≡ set_has j s.recv_pending
unfolding served is_in_flight
served_idle j s e = ground (arith, e)

served_busy :
    (i j : ℕ) (s : Subscriber)
    → s.recv_in_flight ≡ some i
    → served j s ≡ (j == i || set_has j s.recv_pending)
unfolding served is_in_flight
served_busy i j s e = ground (arith, e)

-- Where streams wait for their turn only while a recv is outstanding, that stays so after a
-- notification; the stream of the notification is then read or waits, and so do exactly the
-- streams that were read or waited before.
pub data_available-served :
    (id j : ℕ) (s : Subscriber)
    → IsSerial s
    → IsSerial (data_available id s) × (served j (data_available id s) ≡ (j == id || served j s))
unfolding IsSerial
data_available-served id j s h = elim (Option-cases s.recv_in_flight) [
  | inl e ↦ rw (data_available_idle id s e) (
    start_next_recv-IsSerial (noted id s),
    start_next_recv-served j (noted id s)
        ∙ set_has-set_insert id j s.recv_pending
        ∙ ap (λ b. j == id || b) (sym (served_idle j s e)),
  )
  | inr (i, e) ↦ rw (data_available_busy id i s e) (
    if_both IsSerial (id == i) s (noted id s) (inr (i, e)) (inr (i, e)),
    ground (
      arith,
      served_busy i j s e,
      served_busy i j (noted id s) e,
      set_has-set_insert id j s.recv_pending,
    ),
  )
]

-- What the frames of one packet leave alone.
record Quiet (s s' : Subscriber) : Type 0 where
  in_flight : s'.recv_in_flight ≡ s.recv_in_flight
  pending : s'.recv_pending ≡ s.recv_pending
  out : s'.out ≡ s.out

record_objects-Quiet :
    (start now : ℤ) (fs : List ObjectFrame) (s : Subscriber)
    → Quiet s (record_objects start now fs s)
unfolding record_objects record_object
record_objects-Quiet start now [] s = record { in_flight = refl; pending = refl; out = refl }
record_objects-Quiet start now (f ∷ fs) s =
    let q = record_objects-Quiet now now fs (record_object f start now s) in
    record { in_flight = q.in_flight; pending = q.pending; out = q.out }

note_one-Quiet :
    (now : ℤ) (c : ControlFrame) (s : Subscriber)
    → Quiet s (if c.kind == ctrl_publish_done then note_subscription_ended now c s else s)
unfolding note_subscription_ended
note_one-Quiet now c s = record {
  in_flight = ground arith;
  pending = ground arith;
  out = ground arith;
}

note_controls-Quiet :
    (now : ℤ) (cs : List ControlFrame) (s : Subscriber) → Quiet s (note_controls now cs s)
unfolding note_controls
note_controls-Quiet now [] s = record { in_flight = refl; pending = refl; out = refl }
note_controls-Quiet now (c ∷ cs) s =
    let one = note_one-Quiet now c s in
    let q =
      note_controls-Quiet now cs
        (if c.kind == ctrl_publish_done then note_subscription_ended now c s else s) in
    record {
      in_flight = q.in_flight ∙ one.in_flight;
      pending = q.pending ∙ one.pending;
      out = q.out ∙ one.out;
    }

took_controls-Quiet :
    (now : ℤ) (id : ℕ) (start : ℤ) (d : Drain ControlFrame) (s s' : Subscriber)
    → took_controls now id start d s ≡ some s'
    → Quiet s s'
unfolding took_controls keep_stream
took_controls-Quiet now id start (drained cs rest) s s' h =
    let q = note_controls-Quiet now cs (keep_stream id rest start s) in
    subst (Quiet s) (some-injective _ s' h)
      (record { in_flight = q.in_flight; pending = q.pending; out = q.out })
took_controls-Quiet now id start past_end s s' h = absurd (cc)
took_controls-Quiet now id start stuck s s' h = absurd (cc)

took_objects-Quiet :
    (now : ℤ) (id : ℕ) (start : ℤ) (d : Drain ObjectFrame) (s s' : Subscriber)
    → took_objects now id start d s ≡ some s'
    → Quiet s s'
unfolding took_objects keep_stream
took_objects-Quiet now id start (drained fs rest) s s' h =
    let q = record_objects-Quiet start now fs (keep_stream id rest (restarted now fs start) s) in
    subst (Quiet s) (some-injective _ s' h)
      (record { in_flight = q.in_flight; pending = q.pending; out = q.out })
took_objects-Quiet now id start past_end s s' h = absurd (cc)
took_objects-Quiet now id start stuck s s' h = absurd (cc)

stream_arrived-Quiet :
    (now : ℤ) (id : ℕ) (bytes : Bytes) (s s' : Subscriber)
    → stream_arrived now id bytes s ≡ some s'
    → Quiet s s'
unfolding stream_arrived
stream_arrived-Quiet now id bytes s s' h = elim (Bool-cases (id == control_stream)) [
  | inl e ↦ took_controls-Quiet now id _ _ s s' (rw e at h)
  | inr e ↦ took_objects-Quiet now id _ _ s s' (rw e at h)
]

-- The recv in flight is over.
abbrev idle : Subscriber → Subscriber
idle s = record s { recv_in_flight = none }

pub data_arrived_at :
    (now : ℤ) (id : ℕ) (bytes : Bytes) (s : Subscriber)
    → s.recv_in_flight ≡ some id
    → data_arrived now bytes s ≡ Option.map start_next_recv (stream_arrived now id bytes (idle s))
unfolding data_arrived
data_arrived_at now id bytes s e = ground (arith, e)

data_arrived_idle :
    (now : ℤ) (bytes : Bytes) (s : Subscriber)
    → s.recv_in_flight ≡ none
    → data_arrived now bytes s ≡ none
unfolding data_arrived
data_arrived_idle now bytes s e = ground (arith, e)

-- An arrival ends the recv in flight, and starts that of the first stream that waits.
data_arrived_cases :
    (now : ℤ) (bytes : Bytes) (s s' : Subscriber)
    → data_arrived now bytes s ≡ some s'
    → (mid : Subscriber) × (mid.recv_pending ≡ s.recv_pending)
      × (mid.out ≡ s.out)
      × (s' ≡ start_next_recv mid)
data_arrived_cases now bytes s s' h = elim (Option-cases s.recv_in_flight) [
  | inl e ↦ let x : none ≡ some s' = sym (data_arrived_idle now bytes s e) ∙ h in absurd (cc)
  | inr (id, e) ↦
      let (mid, em, es) =
        map_cases start_next_recv (stream_arrived now id bytes (idle s)) s'
          (sym (data_arrived_at now id bytes s e) ∙ h) in
      let q = stream_arrived-Quiet now id bytes (idle s) mid em in (mid, q.pending, q.out, es)
]

-- After the packet of a recv, streams wait for their turn only while a recv is outstanding, and
-- exactly the streams that waited before are read or wait.
pub data_arrived-served :
    (now : ℤ) (bytes : Bytes) (j : ℕ) (s s' : Subscriber)
    → data_arrived now bytes s ≡ some s'
    → IsSerial s' × (served j s' ≡ set_has j s.recv_pending)
data_arrived-served now bytes j s s' h =
    let (mid, ep, eo, es) = data_arrived_cases now bytes s s' h in
    rw es (start_next_recv-IsSerial mid, start_next_recv-served j mid ∙ ap (set_has j) ep)

-- Packets that arrive one after the other.
unfoldable pub arrive_all : List (ℤ × Bytes) → Subscriber → Option Subscriber
unfolding data_arrived
arrive_all [] s = some s
arrive_all ((now, bytes) ∷ ps) s = elim (data_arrived now bytes s) [
  | none ↦ none
  | some s' ↦ arrive_all ps s'
]

-- The streams that are read one after the other, the latest first.
unfoldable pub read_all : List ℕ → List ℕ → List ℕ
read_all [] log = log
read_all (i ∷ is) log = read_all is (i ∷ log)

start_next_recv_empty :
    (s : Subscriber)
    → s.recv_pending ≡ []
    → (start_next_recv s).recv_in_flight ≡ none
      × (start_next_recv s).recv_pending ≡ []
      × (recvs (start_next_recv s).out ≡ recvs s.out)
unfolding start_next_recv
start_next_recv_empty s e = (ground (arith, e), ground (arith, e), ground (arith, e))

start_next_recv_first :
    (i : ℕ) (is : List ℕ) (s : Subscriber)
    → s.recv_pending ≡ i ∷ is
    → ((start_next_recv s).recv_pending ≡ is) × (recvs (start_next_recv s).out ≡ i ∷ recvs s.out)
unfolding start_next_recv recvs
start_next_recv_first i is s e = (ground (arith, e), ground (arith, e))

-- Where the packet of the outstanding recv and one packet more for each stream that waits
-- arrive and can be parsed, all streams that waited are read, in their order and once each, and
-- no recv is outstanding at the end.
pub arrive_all-recvs :
    (is : List ℕ) (ps : List (ℤ × Bytes)) (s s' : Subscriber)
    → s.recv_pending ≡ is
    → length ps ≡ suc (length is)
    → arrive_all ps s ≡ some s'
    → (recvs s'.out ≡ read_all is (recvs s.out))
      × (s'.recv_in_flight ≡ none)
      × (s'.recv_pending ≡ [])
unfolding arrive_all read_all
arrive_all-recvs is [] s s' e l h = absurd (omega (arith, l))
arrive_all-recvs [] (p ∷ q ∷ ps) s s' e l h = absurd (omega (arith, l))
arrive_all-recvs [] ((now, bytes) ∷ []) s s' e l h =
    elim (Option-cases (data_arrived now bytes s)) [
      | inl d ↦ absurd (cc (rw (d, arrive_all) at h))
      | inr (s1, d) ↦
          let (mid, ep, eo, es) = data_arrived_cases now bytes s s1 d in
          let last : s1 ≡ s' = some-injective s1 s' (rw (d, arrive_all) at h) in
          let (idle_now, none_left, log) = start_next_recv_empty mid (ep ∙ e) in
          subst
            (λ (x : Subscriber).
              (recvs x.out ≡ recvs s.out) × (x.recv_in_flight ≡ none) × (x.recv_pending ≡ []))
            (sym es ∙ last) (log ∙ ap recvs eo, idle_now, none_left)
    ]
arrive_all-recvs (i ∷ is) ((now, bytes) ∷ ps) s s' e l h =
    elim (Option-cases (data_arrived now bytes s)) [
      | inl d ↦ absurd (cc (rw (d, arrive_all) at h))
      | inr (s1, d) ↦
          let (mid, ep, eo, es) = data_arrived_cases now bytes s s1 d in
          let (left, log) = start_next_recv_first i is mid (ep ∙ e) in
          let (all, in_flight, pending) =
            arrive_all-recvs is ps s1 s' (ap (λ (x : Subscriber). x.recv_pending) es ∙ left)
              (omega (arith, l)) (rw (d, arrive_all) at h) in
          let first : recvs s1.out ≡ i ∷ recvs s.out =
            ap (λ (x : Subscriber). recvs x.out) es ∙ log ∙ ap (λ z. i ∷ recvs z) eo in
          (all ∙ ap (read_all is) first, in_flight, pending)
    ]
