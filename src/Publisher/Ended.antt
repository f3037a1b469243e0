-- ===== src/Publisher/Ended.antt =====
-- What holds once the publisher's subscriptions ended.
use moq_veins_simulation_the.Base.{
  ℕ, ◌≡◌, refl, sym, ap, ◌∙◌, arith, ℤ, true, false, List, [], ◌∷◌, none, some, if◌then◌else◌, inl,
  inr, lookup, lookup-erase, Option-cases, subst, if_false, ◌==◌,
}
use moq_veins_simulation_the.SendBuffer.{contents, total}
use moq_veins_simulation_the.Quic.{
  quic, Out, send_quic, reset_stream, send_tcp, send_udp, Moment, control_stream,
}
use moq_veins_simulation_the.Publisher.State.{
  SubgroupKey, SubgroupKey-discrete, TrackMeta, Pending, Publisher,
}
use moq_veins_simulation_the.Publisher.Send.{
  emit_all, observe, flush_round, flush_stop, flush_loop, work, enter_event, flush_send_buffer,
  reset_subgroup_stream,
}
use moq_veins_simulation_the.Publisher.Teardown.{
  sweep_send_buffer_timeouts, sweep_outstanding, check_outstanding_timeouts, reset_all, shed_all,
  end_tracks, shut_streams, shed_buffer, announce_end, publish_done, send_control_frame,
  terminate_subscriptions,
}
use moq_veins_simulation_the.Publisher.Events.{
  Event, connects, queue_full, queue_drain, sweep_timer, track_timer, control_frame, step, run,
  established, send_queue_full, send_queue_drain, timeout_check, fire_timer, produce,
  handle_control_frame,
}

-- The calls for data: all but the writes on the control stream.
unfoldable pub data_calls : List Out → List Out
data_calls [] = []
data_calls (send_quic i p bytes ∷ os) =
    let rest = data_calls os in if i == control_stream then rest else send_quic i p bytes ∷ rest
data_calls (reset_stream i code ∷ os) = reset_stream i code ∷ data_calls os
data_calls (send_tcp bytes ∷ os) = send_tcp bytes ∷ data_calls os
data_calls (send_udp bytes ∷ os) = send_udp bytes ∷ data_calls os

-- With QUIC, the subscriptions ended, nothing is buffered and nothing is outstanding.
unfoldable pub IsEnded : Publisher → Type 0
IsEnded s =
    (s.proto ≡ quic)
    × (s.subscriptions_ended ≡ true)
    × (s.send_buffer ≡ [])
    × (s.send_buffer_count ≡ 0)
    × (s.outstanding ≡ [])

-- The publisher stays that way, and makes no call for data.
abbrev Quiet : Publisher → Publisher → Type 0
Quiet s s' = IsEnded s' × (data_calls s'.out ≡ data_calls s.out)

flush-Quiet : (m : Moment) (s : Publisher) → IsEnded s → Quiet s (flush_send_buffer m s)
unfolding IsEnded flush_send_buffer flush_loop flush_round flush_stop enter_event work total
    contents
flush-Quiet m s h = ground (arith, h)

sweep-Quiet : (m : Moment) (s : Publisher) → IsEnded s → Quiet s (sweep_send_buffer_timeouts m s)
unfolding IsEnded sweep_send_buffer_timeouts
sweep-Quiet m s h = ground (arith, h)

check-Quiet : (m : Moment) (s : Publisher) → IsEnded s → Quiet s (check_outstanding_timeouts m s)
unfolding IsEnded check_outstanding_timeouts observe sweep_outstanding
check-Quiet m s h = ground (arith, h)

timer-Quiet : (m : Moment) (tid : ℕ) (s : Publisher) → IsEnded s → Quiet s (fire_timer m tid s)
unfolding IsEnded fire_timer produce send_control_frame emit_all data_calls
timer-Quiet m tid s h = ground (arith, h)

step-Quiet : (m : Moment) (e : Event) (s : Publisher) → IsEnded s → Quiet s (step m e s)
unfolding step established send_queue_full send_queue_drain timeout_check handle_control_frame
    IsEnded
step-Quiet m connects s h = ground (arith, h)
step-Quiet m queue_full s h = ground (arith, h)
step-Quiet m queue_drain s h = flush-Quiet m (record s { quic_blocked = false }) h
step-Quiet m sweep_timer s h =
    let (a, b) = check-Quiet m s h in
    let (c, d) = sweep-Quiet m _ a in let (e, f) = flush-Quiet m _ c in (e, f ∙ d ∙ b)
step-Quiet m (track_timer tid) s h = timer-Quiet m tid s h
step-Quiet m (control_frame c) s h = ground (arith, h)

-- When the subscriptions of a publisher with QUIC have ended, with nothing buffered and nothing
-- outstanding, that stays so over any sequence of events, and none of them writes or resets a
-- data stream.
pub run-data_calls :
    (es : List (Moment × Event)) (s : Publisher)
    → IsEnded s
    → IsEnded (run es s) × (data_calls (run es s).out ≡ data_calls s.out)
unfolding run
run-data_calls [] s h = (h, refl)
run-data_calls ((m, e) ∷ es) s h =
    let (a, b) = step-Quiet m e s h in let (c, d) = run-data_calls es (step m e s) a in (c, d ∙ b)

-- The loop over the streams closes each of them.
reset_all-lookup :
    (ks : List (SubgroupKey × ℕ)) (s : Publisher) (k : SubgroupKey) (i : ℕ)
    → lookup SubgroupKey-discrete k (reset_all ks s).subgroup_streams ≡ some i
    → (lookup SubgroupKey-discrete k s.subgroup_streams ≡ some i)
      × (lookup SubgroupKey-discrete k ks ≡ none)
unfolding reset_all reset_subgroup_stream lookup
reset_all-lookup [] s k i e = (e, refl)
reset_all-lookup ((j, id) ∷ ks) s k i e =
    let (a, b) = reset_all-lookup ks (reset_subgroup_stream j id _ s) k i e in
    ground (arith, a, b, lookup-erase SubgroupKey-discrete j k s.subgroup_streams)

-- What the teardown leaves apart from the calls.
abbrev Kept : Publisher → Publisher → Type 0
Kept s s' =
    (s'.proto ≡ s.proto)
    × (s'.subscriptions_ended ≡ s.subscriptions_ended)
    × (s'.subgroup_streams ≡ s.subgroup_streams)
    × (s'.send_buffer ≡ s.send_buffer)
    × (s'.send_buffer_count ≡ s.send_buffer_count)
    × (s'.outstanding ≡ s.outstanding)

end_tracks-Kept :
    (status : ℤ) (ts : List (ℕ × TrackMeta)) (s : Publisher) → Kept s (end_tracks status ts s).1
unfolding end_tracks send_control_frame
end_tracks-Kept status [] s = (refl, refl, refl, refl, refl, refl)
end_tracks-Kept status ((i, t) ∷ ts) s =
    end_tracks-Kept status ts (send_control_frame (publish_done status t) s)

shed_all-Kept : (ps : List Pending) (s : Publisher) → Kept s (shed_all ps s)
unfolding shed_all
shed_all-Kept [] s = (refl, refl, refl, refl, refl, refl)
shed_all-Kept (p ∷ ps) s = shed_all-Kept ps _

reset_all-proto :
    (ks : List (SubgroupKey × ℕ)) (s : Publisher)
    → ((reset_all ks s).proto ≡ s.proto)
      × ((reset_all ks s).subscriptions_ended ≡ s.subscriptions_ended)
unfolding reset_all reset_subgroup_stream
reset_all-proto [] s = (refl, refl)
reset_all-proto ((j, id) ∷ ks) s = reset_all-proto ks (reset_subgroup_stream j id _ s)

announce_end-Kept : (status : ℤ) (s : Publisher) → Kept s (announce_end status s)
unfolding announce_end
announce_end-Kept status s = end_tracks-Kept status s.tracks s

-- The streams are closed, and the buffer is cleared.
shut_down :
    (m : Moment) (status : ℤ) (s : Publisher) (k : SubgroupKey)
    → s.proto ≡ quic
    → IsEnded (shed_buffer (shut_streams m status s))
      × (lookup SubgroupKey-discrete k (shed_buffer (shut_streams m status s)).subgroup_streams
          ≡ none)
unfolding IsEnded shed_buffer shut_streams
shut_down m status s k hp =
    let ended : Publisher = record s {
      subscriptions_ended = true;
      termination_time = m.now;
      termination_status = status;
    } in
    let closed = reset_all s.subgroup_streams ended in
    let (p, e) = reset_all-proto s.subgroup_streams ended in
    let (kp, ke, ks, kb, kc, ko) = shed_all-Kept (contents closed.send_buffer) closed in
    let none_left : lookup SubgroupKey-discrete k closed.subgroup_streams ≡ none =
      elim (Option-cases (lookup SubgroupKey-discrete k closed.subgroup_streams)) [
        | inl h ↦ h
        | inr (i, h) ↦ let (a, b) = reset_all-lookup s.subgroup_streams ended k i h in absurd (cc)
      ] in
    ((kp ∙ p ∙ hp, ke ∙ e, refl, refl, refl), ap (lookup SubgroupKey-discrete k) ks ∙ none_left)

-- With QUIC and before the subscriptions ended, the teardown ends them, leaves nothing buffered
-- and nothing outstanding, and leaves no subgroup k with an open stream.
pub terminate_subscriptions-IsEnded :
    (m : Moment) (status : ℤ) (s : Publisher) (k : SubgroupKey)
    → s.proto ≡ quic
    → s.subscriptions_ended ≡ false
    → IsEnded (terminate_subscriptions m status s)
      × (lookup SubgroupKey-discrete k (terminate_subscriptions m status s).subgroup_streams ≡ none)
unfolding terminate_subscriptions IsEnded
terminate_subscriptions-IsEnded m status s k hp he =
    let cleared = shed_buffer (shut_streams m status s) in
    let ((p, e, b, c, o), l) = shut_down m status s k hp in
    let (kp, ke, ks, kb, kc, ko) = announce_end-Kept status cleared in
    subst (λ (x : Publisher). IsEnded x × (lookup SubgroupKey-discrete k x.subgroup_streams ≡ none))
      (sym (if_false s.subscriptions_ended s (announce_end status cleared) he))
      ((kp ∙ p, ke ∙ e, kb ∙ b, kc ∙ c, ko ∙ o), ap (lookup SubgroupKey-discrete k) ks ∙ l)
