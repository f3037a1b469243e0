-- ===== src/Relay/Forward.antt =====
-- applications/moq/MoqRelayApp.cc: objects on their way from a publisher to the subscribers.
use moq_veins_simulation_the.Base.{
  ℕ, ◌+◌, ℤ, pos, false, List, [], ◌∷◌, map, Option, none, some, leb, ◌==◌, if◌then◌else◌, ite,
  lookup, insert, ℕ_discrete,
}
use moq_veins_simulation_the.Reader.{Bytes, Bytes-discrete}
use moq_veins_simulation_the.SendBuffer.{push_back}
use moq_veins_simulation_the.Quic.{quic, tcp, udp, send_tcp, send_udp}
use moq_veins_simulation_the.MoqFraming.Object.{ObjectFrame}
use moq_veins_simulation_the.MoqFraming.Control.{pubdone_too_far_behind}
use moq_veins_simulation_the.MoqFraming.Envelope.{encode_envelope, msg_object}
use moq_veins_simulation_the.MoqFraming.Fragment.{fragment_frame}
use moq_veins_simulation_the.Relay.State.{
  TrackKey, TrackKey-discrete, DownSubgroup, DownSubgroup-discrete, FwdItem, SockSendState,
  RelayMoment, Relay,
}
use moq_veins_simulation_the.Relay.Send.{emit_to, charge, record_forward, flush_socket}
use moq_veins_simulation_the.Relay.Control.{end_subscriber_track, is_in}

-- `find('/')`, and the two `substr`.
unfoldable pub split_alias : Bytes → Option (Bytes × Bytes)
split_alias [] = none
split_alias (b ∷ bs) =
    let rest = split_alias bs in
    if b == b'/' then some ([], bs) else elim rest [ none ↦ none | some (n, m) ↦ some (b ∷ n, m) ]

abbrev pub key_of_alias : Bytes × Bytes → TrackKey
key_of_alias x = record { track_namespace = x.0; track_name = x.1 }

abbrev pub subgroup_of : Bytes → ObjectFrame → DownSubgroup
subgroup_of sid f = record {
  subscriber_id = sid;
  track_alias = f.track_alias;
  group_id = f.group_id;
  subgroup_id = f.subgroup_id;
}

-- The stream of a subgroup, `(nextDataStreamId += 4) - 4` for a new one.
unfoldable pub open_stream : DownSubgroup → Relay → ℕ × Relay
open_stream key s = elim (lookup DownSubgroup-discrete key s.downstream_streams) [
  | some stream_id ↦ (stream_id, s)
  | none ↦ (
    s.next_data_stream_id,
    record s {
      downstream_streams =
          insert DownSubgroup-discrete key s.next_data_stream_id s.downstream_streams;
      next_data_stream_id = s.next_data_stream_id + 4;
    },
  )
]

unfoldable pub timeout_of : Bytes → Relay → ℤ
unfolding split_alias
timeout_of alias s = elim (split_alias alias) [
  | none ↦ pos 0
  | some x ↦ elim (lookup TrackKey-discrete (key_of_alias x) s.published_tracks) [
    | none ↦ pos 0
    | some t ↦ t.delivery_timeout
  ]
]

-- `sockSend[sockId]`
unfoldable pub sock_state : ℕ → Relay → SockSendState
sock_state id s = elim (lookup ℕ_discrete id s.sock_send) [
  | none ↦ record { buffer = []; count = 0; blocked = false }
  | some st ↦ st
]

unfoldable pub enqueue : ℕ → FwdItem → Relay → Relay
unfolding sock_state
enqueue id i s =
    let st = sock_state id s in
    record s {
      sock_send =
          insert ℕ_discrete id
            (record st { buffer = push_back i.priority i st.buffer; count = st.count + 1 })
            s.sock_send;
      pending_forward_count = s.pending_forward_count + 1;
    }

-- The tracks that the subscriber has, in the order of the map.
unfoldable pub tracks_with : Bytes → List (TrackKey × List Bytes) → List TrackKey
unfolding is_in
tracks_with sid [] = []
tracks_with sid ((k, sids) ∷ m) =
    let rest = tracks_with sid m in if is_in sid sids then k ∷ rest else rest

unfoldable pub end_tracks : Bytes → List TrackKey → Relay → Relay
unfolding end_subscriber_track
end_tracks sid [] s = s
end_tracks sid (k ∷ ks) s = end_tracks sid ks (end_subscriber_track sid k pubdone_too_far_behind s)

-- More objects than the limit: the subscriptions of the subscriber end.
unfoldable pub check_limit : ℕ → Bytes → Relay → Relay
unfolding sock_state tracks_with end_tracks
check_limit id sid s =
    if leb (sock_state id s).count s.quic_forward_buffer_limit
    then s
    else end_tracks sid (tracks_with sid s.subscriber_by_track)
        (record s { relay_dropped_total = s.relay_dropped_total + 1 })

unfoldable pub forward_item : Bytes → ℕ → ℕ → ObjectFrame → Bytes → ℤ → Relay → FwdItem
unfolding timeout_of
forward_item sid sock stream_id f frame first_byte_time s = record {
  sock = sock;
  subgroup = subgroup_of sid f;
  stream_id = stream_id;
  bytes = frame;
  payload_length = f.payload_length;
  priority = f.priority;
  track_alias = f.track_alias;
  first_byte_time = first_byte_time;
  created_at = f.creation_time;
  timeout = timeout_of f.track_alias s;
  sent_offset = 0;
  subscriber_id = sid;
}

-- The case PROTO_QUIC of forwardToSubscriber, for a subscriber that has a socket.
unfoldable pub forward_quic : RelayMoment → Bytes → ℕ → ObjectFrame → Bytes → ℤ → Relay → Relay
unfolding charge open_stream forward_item enqueue check_limit flush_socket
forward_quic m sid sock f frame first_byte_time s =
    elim (lookup DownSubgroup-discrete (subgroup_of sid f) s.reset_downstream) [
      | some code ↦ charge code f.track_alias s
      | none ↦
          let (stream_id, s') = open_stream (subgroup_of sid f) s in
          let i = forward_item sid sock stream_id f frame first_byte_time s' in
          flush_socket m sock (check_limit sock sid (enqueue sock i s'))
    ]

-- forwardToSubscriber
unfoldable pub forward_to_subscriber : RelayMoment → Bytes → ObjectFrame → Bytes → ℤ → Relay → Relay
unfolding forward_quic record_forward emit_to
forward_to_subscriber m sid f frame first_byte_time s =
    elim (lookup Bytes-discrete sid s.subscriber_peers) [
      | none ↦ s
      | some peer ↦ elim s.proto [
        | quic ↦ forward_quic m sid peer f frame first_byte_time s
        | tcp ↦
            record_forward sid
              (record s { out = (peer, send_tcp (encode_envelope msg_object frame)) ∷ s.out })
        | udp ↦ record_forward sid (record s {
          out =
              emit_to peer
                (map send_udp
                  (fragment_frame msg_object f.track_alias f.object_id frame s.udp_fragment_size))
                s.out;
        })
      ]
    ]

unfoldable pub Sids-discrete : Discrete (Option (List Bytes))
Sids-discrete = hlevel ℕ_discrete

-- The loop over the subscribers of a track. `none` is undefined: the loop goes on with an iterator
-- into a vector that the call changed.
unfoldable pub forward_all :
    RelayMoment → TrackKey → List Bytes → ObjectFrame → Bytes → ℤ → Relay → Option Relay
unfolding forward_to_subscriber
forward_all m k [] f frame first_byte_time s = some s
forward_all m k (sid ∷ sids) f frame first_byte_time s =
    let s' = forward_to_subscriber m sid f frame first_byte_time s in
    let rest = forward_all m k sids f frame first_byte_time s' in
    ite
      (Sids-discrete (lookup TrackKey-discrete k s'.subscriber_by_track)
        (lookup TrackKey-discrete k s.subscriber_by_track))
      rest none

unfoldable pub count_received : Bytes → Relay → Relay
count_received alias s = record s {
  recv_from_pub_by_track = λ a.
      ite (Bytes-discrete alias a) (s.recv_from_pub_by_track a + 1) (s.recv_from_pub_by_track a);
}

-- onObjectFrame: an alias without a slash is dropped, uncounted.
unfoldable pub on_object_frame : RelayMoment → ObjectFrame → Bytes → ℤ → Relay → Option Relay
unfolding split_alias forward_all count_received
on_object_frame m f frame first_byte_time s = elim (split_alias f.track_alias) [
  | none ↦ some s
  | some x ↦
      let s' = count_received f.track_alias s in
      elim (lookup TrackKey-discrete (key_of_alias x) s'.subscriber_by_track) [
        | none ↦ some s'
        | some sids ↦ forward_all m (key_of_alias x) sids f frame first_byte_time s'
      ]
]
