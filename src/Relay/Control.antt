-- ===== src/Relay/Control.antt =====
-- applications/moq/MoqRelayApp.cc: the control messages of the three transports, and the end of a
-- subscription.
use moq_veins_simulation_the.Base.{
  ℕ, ◌+◌, ◌-◌, ℤ, pos, negsuc, Bool, true, false, List, [], ◌∷◌, ◌++◌, map, none, some, ltb, ◌==◌,
  if◌then◌else◌, ite, length, lookup, insert, erase, ℕ_discrete,
}
use moq_veins_simulation_the.Reader.{Bytes, Bytes-discrete}
use moq_veins_simulation_the.SendBuffer.{Buffer}
use moq_veins_simulation_the.Quic.{
  Out, send_quic, send_tcp, send_udp, control_stream, control_stream_priority,
  err_send_buffer_overflow,
}
use moq_veins_simulation_the.MoqFraming.Control.{
  ControlFrame, no_control, encode_control, ctrl_announce, ctrl_subscribe, ctrl_subscribe_ok,
  ctrl_publish_done, pubdone_track_ended,
}
use moq_veins_simulation_the.MoqFraming.Envelope.{encode_envelope, msg_control}
use moq_veins_simulation_the.MoqFraming.Fragment.{fragment_frame}
use moq_veins_simulation_the.Publisher.State.{ℤ-discrete}
use moq_veins_simulation_the.Relay.State.{TrackKey, TrackKey-discrete, TrackMeta, FwdItem, Relay}
use moq_veins_simulation_the.Relay.Send.{emit_to, reset_downstream_stream, shed_overflow}

abbrev pub key_of : ControlFrame → TrackKey
key_of c = record { track_namespace = c.track_namespace; track_name = c.track_name }

-- `trackNamespace + "/" + trackName`
abbrev pub alias_of : TrackKey → Bytes
alias_of k = k.track_namespace ++ (b'/' ∷ k.track_name)

abbrev pub is_alias : Bytes → FwdItem → Bool
is_alias alias i = ite (Bytes-discrete i.track_alias alias) true false

abbrev pub track_of : ControlFrame → TrackMeta
track_of c = record {
  publisher_id = c.publisher_id;
  track_id = c.track_id;
  track_namespace = c.track_namespace;
  track_name = c.track_name;
  track_alias = c.track_alias;
  packet_size = c.payload_size;
  send_interval = c.send_interval;
  priority = c.priority;
  delivery_timeout = c.delivery_timeout;
  next_object_id = pos 0;
}

-- An announcement with QUIC or TCP: the track, and the socket that its publisher is reached by.
unfoldable pub register_track : ℕ → ControlFrame → Relay → Relay
register_track peer c s = record s {
  published_tracks = insert TrackKey-discrete (key_of c) (track_of c) s.published_tracks;
  publisher_peers = insert ℤ-discrete c.publisher_id peer s.publisher_peers;
  publisher_by_track_key = insert TrackKey-discrete (key_of c) peer s.publisher_by_track_key;
}

-- With UDP there is no map by the publisher's id.
unfoldable pub register_track_udp : ℕ → ControlFrame → Relay → Relay
register_track_udp peer c s = record s {
  published_tracks = insert TrackKey-discrete (key_of c) (track_of c) s.published_tracks;
  publisher_by_track_key = insert TrackKey-discrete (key_of c) peer s.publisher_by_track_key;
}

-- `subscriberByTrack[tKey]`, which is empty where there is no entry.
unfoldable pub subscribers : TrackKey → Relay → List Bytes
subscribers k s = elim (lookup TrackKey-discrete k s.subscriber_by_track) [
  | none ↦ []
  | some sids ↦ sids
]

unfoldable pub is_in : Bytes → List Bytes → Bool
is_in sid [] = false
is_in sid (x ∷ xs) = ite (Bytes-discrete x sid) true (is_in sid xs)

unfoldable pub add_subscriber : ℕ → ControlFrame → Relay → Relay
unfolding subscribers
add_subscriber peer c s = record s {
  subscriber_peers = insert Bytes-discrete c.subscriber_id peer s.subscriber_peers;
  subscriber_by_track =
      insert TrackKey-discrete (key_of c) (subscribers (key_of c) s ++ (c.subscriber_id ∷ []))
        s.subscriber_by_track;
}

-- With UDP a SUBSCRIBE may be sent again: the subscriber is added once.
unfoldable pub add_subscriber_udp : ℕ → ControlFrame → Relay → Relay
unfolding subscribers is_in
add_subscriber_udp peer c s =
    let subs = subscribers (key_of c) s in
    record s {
      subscriber_peers = insert Bytes-discrete c.subscriber_id peer s.subscriber_peers;
      subscriber_by_track =
          insert TrackKey-discrete (key_of c)
            (if is_in c.subscriber_id subs then subs else subs ++ (c.subscriber_id ∷ []))
            s.subscriber_by_track;
    }

unfoldable pub subscribe_ok : ControlFrame → TrackMeta → ControlFrame
subscribe_ok c t = record no_control {
  kind = ctrl_subscribe_ok;
  track_namespace = c.track_namespace;
  track_name = c.track_name;
  track_alias = alias_of (key_of c);
  subscriber_id = c.subscriber_id;
  start_object_id = t.next_object_id;
}

-- The publisher of a known track is told to send, by the calls that the transport makes.
unfoldable pub tell_publisher : (ControlFrame → List Out) → ControlFrame → Relay → Relay
unfolding subscribe_ok emit_to
tell_publisher calls c s = elim (lookup TrackKey-discrete (key_of c) s.publisher_by_track_key) [
  | none ↦ s
  | some peer ↦ elim (lookup TrackKey-discrete (key_of c) s.published_tracks) [
    | none ↦ s
    | some t ↦ record s { out = emit_to peer (calls (subscribe_ok c t)) s.out }
  ]
]

-- handleControlFrameTcp
unfoldable pub handle_control_frame_tcp : ℕ → ControlFrame → Relay → Relay
unfolding register_track add_subscriber tell_publisher
handle_control_frame_tcp peer c s =
    if c.kind == ctrl_announce
    then register_track peer c s
    else if c.kind == ctrl_subscribe
    then tell_publisher (λ ok. send_tcp (encode_envelope msg_control (encode_control ok)) ∷ []) c
        (add_subscriber peer c s)
    else s

-- handleControlFrameUdp
unfoldable pub handle_control_frame_udp : ℕ → ControlFrame → Relay → Relay
unfolding register_track_udp add_subscriber_udp tell_publisher
handle_control_frame_udp peer c s =
    if c.kind == ctrl_announce
    then register_track_udp peer c s
    else if c.kind == ctrl_subscribe
    then tell_publisher
        (λ ok. map send_udp (
          fragment_frame msg_control (alias_of (key_of c)) (negsuc 0) (encode_control ok)
            s.udp_fragment_size))
        c (add_subscriber_udp peer c s)
    else s

-- The loops of endSubscriberTrack over one queue: an object of the track is lost, and its stream is
-- reset when it has bytes on it.
unfoldable pub lose : FwdItem → Relay → Relay
unfolding reset_downstream_stream shed_overflow
lose i s =
    shed_overflow i.track_alias
      (if ltb 0 i.sent_offset then reset_downstream_stream i err_send_buffer_overflow s else s)

unfoldable pub end_queue : Bytes → List FwdItem → Relay → List FwdItem × Relay
unfolding lose
end_queue alias [] s = ([], s)
end_queue alias (i ∷ q) s =
    let (kept, last) = end_queue alias q (if is_alias alias i then lose i s else s) in
    ((if is_alias alias i then kept else i ∷ kept), last)

-- The loop over the queues of a socket; the number is of the objects removed.
unfoldable pub end_buffer : Bytes → Buffer FwdItem → Relay → Buffer FwdItem × ℕ × Relay
unfolding end_queue
end_buffer alias [] s = ([], 0, s)
end_buffer alias ((k, q) ∷ rest) s =
    let (kept, s') = end_queue alias q s in
    let removed = length q - length kept in
    let (others, more, last) =
      end_buffer alias rest
        (record s' { pending_forward_count = s'.pending_forward_count - removed }) in
    ((k, kept) ∷ others, removed + more, last)

unfoldable pub publish_done : Bytes → TrackKey → ℤ → ControlFrame
publish_done sid k status = record no_control {
  kind = ctrl_publish_done;
  status_code = status;
  track_namespace = k.track_namespace;
  track_name = k.track_name;
  track_alias = alias_of k;
  subscriber_id = sid;
}

-- sendPublishDone
unfoldable pub send_publish_done : Bytes → TrackKey → ℤ → Relay → Relay
unfolding publish_done
send_publish_done sid k status s = elim (lookup Bytes-discrete sid s.subscriber_peers) [
  | none ↦ s
  | some sock ↦ record s {
    out =
        (
          sock,
          send_quic control_stream control_stream_priority
              (encode_control (publish_done sid k status)),
        )
        ∷ s.out;
    publish_done_sent = s.publish_done_sent + 1;
  }
]

-- `std::remove`
unfoldable pub remove : Bytes → List Bytes → List Bytes
remove sid [] = []
remove sid (x ∷ xs) = ite (Bytes-discrete x sid) (remove sid xs) (x ∷ remove sid xs)

-- The subscriber leaves the track, and a track with no subscriber has no entry.
unfoldable pub unsubscribe : Bytes → TrackKey → Relay → Relay
unfolding remove
unsubscribe sid k s = elim (lookup TrackKey-discrete k s.subscriber_by_track) [
  | none ↦ s
  | some sids ↦ record s {
    subscriber_by_track = elim (remove sid sids) [
      | [] ↦ erase TrackKey-discrete k s.subscriber_by_track
      | x ∷ xs ↦ insert TrackKey-discrete k (x ∷ xs) s.subscriber_by_track
    ];
  }
]

-- What is queued for a socket is ended.
unfoldable pub end_socket : Bytes → ℕ → Relay → Relay
unfolding end_buffer
end_socket alias sock s = elim (lookup ℕ_discrete sock s.sock_send) [
  | none ↦ s
  | some st ↦
      let (buffer, removed, s') = end_buffer alias st.buffer s in
      record s' {
        sock_send =
            insert ℕ_discrete sock (record st { buffer = buffer; count = st.count - removed })
              s'.sock_send;
      }
]

-- endSubscriberTrack
unfoldable pub end_subscriber_track : Bytes → TrackKey → ℤ → Relay → Relay
unfolding end_socket send_publish_done unsubscribe
end_subscriber_track sid k status s = elim (lookup Bytes-discrete sid s.subscriber_peers) [
  | none ↦ s
  | some sock ↦ unsubscribe sid k (send_publish_done sid k status (end_socket (alias_of k) sock s))
]

unfoldable pub end_each : List Bytes → TrackKey → ℤ → Relay → Relay
unfolding end_subscriber_track
end_each [] k status s = s
end_each (sid ∷ sids) k status s = end_each sids k status (end_subscriber_track sid k status s)

-- endTrackDownstream
unfoldable pub end_track_downstream : TrackKey → ℤ → Relay → Relay
unfolding end_each subscribers
end_track_downstream k status s = end_each (subscribers k s) k status s

-- handleControlFrame
unfoldable pub handle_control_frame : ℕ → ControlFrame → Relay → Relay
unfolding register_track add_subscriber tell_publisher end_track_downstream
handle_control_frame peer c s =
    if c.kind == ctrl_announce
    then register_track peer c s
    else if c.kind == ctrl_subscribe
    then tell_publisher
        (λ ok. send_quic control_stream control_stream_priority (encode_control ok) ∷ []) c
        (add_subscriber peer c s)
    else if c.kind == ctrl_publish_done
    then end_track_downstream (key_of c) pubdone_track_ended s
    else s
