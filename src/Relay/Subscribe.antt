-- ===== src/Relay/Subscribe.antt =====
-- Subscriptions at the relay: a SUBSCRIBE that is sent again over UDP, and the end of a track.
use moq_veins_simulation_the.Base.{
  ℕ, ◌-◌, subst, ◌≡◌, refl, sym, ap, ◌∙◌, arith, ℤ, none, some, true, false, List, [], ◌∷◌, ◌++◌,
  inl, inr, Option-cases, Bool-cases, All, All-append, if◌then◌else◌, lookup, lookup-insert,
  lookup-erase, ℕ_discrete,
}
use moq_veins_simulation_the.Reader.{Bytes, Bytes-discrete}
use moq_veins_simulation_the.SendBuffer.{Buffer, contents}
use moq_veins_simulation_the.MoqFraming.Control.{ControlFrame}
use moq_veins_simulation_the.Relay.State.{
  TrackKey, TrackKey-discrete, FwdItem, SockSendState, Relay,
}
use moq_veins_simulation_the.Relay.Control.{
  key_of, alias_of, is_alias, subscribers, is_in, add_subscriber_udp, lose, end_queue, end_buffer,
  end_socket, remove, unsubscribe, send_publish_done, end_subscriber_track,
}
use moq_veins_simulation_the.Relay.Step.{unsubscribe-Same, send_publish_done-Same}

is_in-append : (sid : Bytes) (sids : List Bytes) → is_in sid (sids ++ (sid ∷ [])) ≡ true
unfolding is_in
is_in-append sid [] = ground arith
is_in-append sid (x ∷ xs) = ground (arith, is_in-append sid xs)

added_once :
    (sid : Bytes) (subs : List Bytes)
    → is_in sid (if is_in sid subs then subs else subs ++ (sid ∷ [])) ≡ true
added_once sid subs = elim (Bool-cases (is_in sid subs)) [
  | inl e ↦ rw e e
  | inr e ↦ rw e (is_in-append sid subs)
]

-- The subscribers of the track after a SUBSCRIBE over UDP.
subscribers-add_subscriber_udp :
    (peer : ℕ) (c : ControlFrame) (s : Relay)
    → subscribers (key_of c) (add_subscriber_udp peer c s) ≡ (
        if is_in c.subscriber_id (subscribers (key_of c) s)
        then subscribers (key_of c) s
        else subscribers (key_of c) s ++ (c.subscriber_id ∷ []))
unfolding add_subscriber_udp subscribers
subscribers-add_subscriber_udp peer c s =
    let subs = subscribers (key_of c) s in
    let new : List Bytes =
      if is_in c.subscriber_id subs then subs else subs ++ (c.subscriber_id ∷ []) in
    ground (arith, lookup-insert TrackKey-discrete (key_of c) (key_of c) new s.subscriber_by_track)

-- A SUBSCRIBE that arrives again over UDP, from whatever address, leaves the subscribers of the
-- track as the first left them.
pub add_subscriber_udp-again :
    (peer again : ℕ) (c : ControlFrame) (s : Relay)
    → subscribers (key_of c) (add_subscriber_udp again c (add_subscriber_udp peer c s))
      ≡ subscribers (key_of c) (add_subscriber_udp peer c s)
add_subscriber_udp-again peer again c s =
    let once = add_subscriber_udp peer c s in
    let there : is_in c.subscriber_id (subscribers (key_of c) once) ≡ true =
      rw (subscribers-add_subscriber_udp peer c s)
        (added_once c.subscriber_id (subscribers (key_of c) s)) in
    subscribers-add_subscriber_udp again c once ∙ rw there refl

-- No object of the track waits in the queue.
abbrev pub OtherTrack : Bytes → FwdItem → Type 0
OtherTrack alias i = is_alias alias i ≡ false

end_queue-OtherTrack :
    (alias : Bytes) (q : List FwdItem) (s : Relay) → All (OtherTrack alias) (end_queue alias q s).0
unfolding end_queue
end_queue-OtherTrack alias [] s = tt
end_queue-OtherTrack alias (i ∷ q) s = elim (Bool-cases (is_alias alias i)) [
  | inl e ↦ rw e (end_queue-OtherTrack alias q (lose i s))
  | inr e ↦ rw e (e, end_queue-OtherTrack alias q s)
]

end_buffer-OtherTrack :
    (alias : Bytes) (b : Buffer FwdItem) (s : Relay)
    → All (OtherTrack alias) (contents (end_buffer alias b s).0)
unfolding end_buffer contents
end_buffer-OtherTrack alias [] s = tt
end_buffer-OtherTrack alias ((k, q) ∷ rest) s =
    All-append (OtherTrack alias) _ _ (end_queue-OtherTrack alias q s)
      (end_buffer-OtherTrack alias rest _)

remove-is_in : (sid : Bytes) (sids : List Bytes) → is_in sid (remove sid sids) ≡ false
unfolding remove is_in
remove-is_in sid [] = refl
remove-is_in sid (x ∷ xs) = ground (arith, remove-is_in sid xs)

-- The entry of the track after `std::remove`.
unsubscribe_step :
    (sid : Bytes) (k : TrackKey) (s : Relay) (sids : List Bytes)
    → lookup TrackKey-discrete k s.subscriber_by_track ≡ some sids
    → subscribers k (unsubscribe sid k s) ≡ remove sid sids
unfolding unsubscribe subscribers
unsubscribe_step sid k s sids e =
    let left = remove sid sids in
    rw (e, unsubscribe)
      (ground (
        arith,
        lookup-erase TrackKey-discrete k k s.subscriber_by_track,
        lookup-insert TrackKey-discrete k k left s.subscriber_by_track,
      ))

unsubscribe-none :
    (sid : Bytes) (k : TrackKey) (s : Relay)
    → lookup TrackKey-discrete k s.subscriber_by_track ≡ none
    → subscribers k (unsubscribe sid k s) ≡ []
unfolding unsubscribe subscribers
unsubscribe-none sid k s e = ground (arith, e)

-- A subscriber whose subscription ended is no longer among the subscribers of the track.
unsubscribe-subscribers :
    (sid : Bytes) (k : TrackKey) (s : Relay)
    → is_in sid (subscribers k (unsubscribe sid k s)) ≡ false
unfolding is_in
unsubscribe-subscribers sid k s =
    elim (Option-cases (lookup TrackKey-discrete k s.subscriber_by_track)) [
      | inl e ↦ rw (unsubscribe-none sid k s e) refl
      | inr (sids, e) ↦ rw (unsubscribe_step sid k s sids e) (remove-is_in sid sids)
    ]

end_socket-OtherTrack :
    (alias : Bytes) (sock : ℕ) (s : Relay) (st : SockSendState)
    → lookup ℕ_discrete sock (end_socket alias sock s).sock_send ≡ some st
    → All (OtherTrack alias) (contents st.buffer)
unfolding end_socket
end_socket-OtherTrack alias sock s st e = elim (Option-cases (lookup ℕ_discrete sock s.sock_send)) [
  | inl h ↦ absurd (cc (rw (h, end_socket) at e))
  | inr (old, h) ↦
      let x = end_buffer alias old.buffer s in
      let new : SockSendState = record old { buffer = x.0; count = old.count - x.1 } in
      let found = rw (h, end_socket) at e in
      let same : new ≡ st =
        ground (arith, found, lookup-insert ℕ_discrete sock sock new x.2.sock_send) in
      subst (λ (y : SockSendState). All (OtherTrack alias) (contents y.buffer)) same
        (end_buffer-OtherTrack alias old.buffer s)
]

-- When a track ended for a subscriber that has a socket, it is not among the subscribers of the
-- track.
pub end_subscriber_track-subscribers :
    (sid : Bytes) (k : TrackKey) (status : ℤ) (sock : ℕ) (s : Relay)
    → lookup Bytes-discrete sid s.subscriber_peers ≡ some sock
    → is_in sid (subscribers k (end_subscriber_track sid k status s)) ≡ false
unfolding end_subscriber_track
end_subscriber_track-subscribers sid k status sock s e =
    rw (e, end_subscriber_track)
      (unsubscribe-subscribers sid k
        (send_publish_done sid k status (end_socket (alias_of k) sock s)))

-- When a track ended for a subscriber that has a socket, no object of the track waits on that
-- socket.
pub end_subscriber_track-OtherTrack :
    (sid : Bytes) (k : TrackKey) (status : ℤ) (sock : ℕ) (s : Relay) (st : SockSendState)
    → lookup Bytes-discrete sid s.subscriber_peers ≡ some sock
    → lookup ℕ_discrete sock (end_subscriber_track sid k status s).sock_send ≡ some st
    → All (OtherTrack (alias_of k)) (contents st.buffer)
unfolding end_subscriber_track
end_subscriber_track-OtherTrack sid k status sock s st e h =
    let ended = end_socket (alias_of k) sock s in
    let told = send_publish_done sid k status ended in
    let keeps = (unsubscribe-Same sid k told).0 ∙ (send_publish_done-Same sid k status ended).0 in
    end_socket-OtherTrack (alias_of k) sock s st
      (ap (lookup ℕ_discrete sock) (sym keeps) ∙ (rw (e, end_subscriber_track) at h))
