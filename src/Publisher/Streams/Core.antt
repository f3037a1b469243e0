-- ===== src/Publisher/Streams/Core.antt =====
-- applications/moq/MoqPublisherApp.cc: the streams that are open, those that were reset, and the
-- objects that are tied to one.
use moq_veins_simulation_the.Base.{
  ℕ, ◌≤◌, ◌<◌, ◌≡◌, ◌≢◌, refl, sym, ap, ◌∙◌, arith, Bool, false, ◌||◌, List, [], ◌∷◌, Option, none,
  some, ◌==◌, All, All-map, lookup, insert, erase, lookup-insert_absent, lookup-insert_other,
  lookup-erase_present, lookup-erase_other, All-erase, lookup-All,
}
use moq_veins_simulation_the.Quic.{Out, send_quic, reset_stream, send_tcp, send_udp, control_stream}
use moq_veins_simulation_the.Publisher.State.{SubgroupKey, SubgroupKey-discrete, Publisher}
use moq_veins_simulation_the.Publisher.Send.{reset_subgroup_stream}

-- A stream was reset.
unfoldable pub is_reset : ℕ → List Out → Bool
is_reset id [] = false
is_reset id (send_quic i prio bytes ∷ log) = is_reset id log
is_reset id (reset_stream i code ∷ log) = id == i || is_reset id log
is_reset id (send_tcp bytes ∷ log) = is_reset id log
is_reset id (send_udp bytes ∷ log) = is_reset id log

-- Nothing was written on a stream that was reset before.
unfoldable pub Safe : List Out → Type 0
unfolding is_reset
Safe [] = Unit {0}
Safe (send_quic i prio bytes ∷ log) = (is_reset i log ≡ false) × Safe log
Safe (reset_stream i code ∷ log) = Safe log
Safe (send_tcp bytes ∷ log) = Safe log
Safe (send_udp bytes ∷ log) = Safe log

abbrev pub StreamMap : Type 0
StreamMap = List (SubgroupKey × ℕ)

abbrev pub at_key : SubgroupKey → StreamMap → Option ℕ
at_key k m = lookup SubgroupKey-discrete k m

-- An object of a subgroup that was given a data stream: while the subgroup was not reset the
-- stream is the subgroup's, and it is never another's.
pub record Tied (streams resets : StreamMap) (next : ℕ) (key : SubgroupKey) (id : ℕ) : Type 0 where
  pub positive : 0 < id
  pub below : id < next
  pub own : at_key key resets ≡ none → at_key key streams ≡ some id
  pub alone : (k : SubgroupKey) → at_key k streams ≡ some id → k ≡ key

-- An open stream: its subgroup was not reset, nor was the stream.
pub record Live (streams resets : StreamMap) (next : ℕ) (log : List Out) (key : SubgroupKey)
    (id : ℕ) : Type 0 where
  pub tied : Tied streams resets next key id
  pub open_id : is_reset id log ≡ false
  pub open_key : at_key key resets ≡ none

pub record Streams (streams resets : StreamMap) (next : ℕ) (log : List Out) : Type 0 where
  pub safe : Safe log
  pub control : is_reset control_stream log ≡ false
  pub fresh : (i : ℕ) → next ≤ i → is_reset i log ≡ false
  pub positive : 0 < next
  pub entries : All (λ (e : SubgroupKey × ℕ). Live streams resets next log e.0 e.1) streams

abbrev pub StreamsOf : Publisher → Type 0
StreamsOf s = Streams s.subgroup_streams s.reset_subgroups s.next_stream_id s.out

abbrev pub TiedOf : Publisher → SubgroupKey → ℕ → Type 0
TiedOf s = Tied s.subgroup_streams s.reset_subgroups s.next_stream_id

-- The streams stay in order, what was tied stays tied, and the kept objects are as before.
pub record Evolves (s s' : Publisher) : Type 0 where
  pub streams : StreamsOf s'
  pub keeps : (k : SubgroupKey) (i : ℕ) → TiedOf s k i → TiedOf s' k i
  pub outstanding : s'.outstanding ≡ s.outstanding
  pub send_buffer : s'.send_buffer ≡ s.send_buffer

pub stays : (s : Publisher) → StreamsOf s → Evolves s s
stays s w = record { streams = w; keeps = λ k i t. t; outstanding = refl; send_buffer = refl }

pub then_Evolves : (s s' s'' : Publisher) → Evolves s s' → Evolves s' s'' → Evolves s s''
then_Evolves s s' s'' e f = record {
  streams = f.streams;
  keeps = λ k i t. f.keeps k i (e.keeps k i t);
  outstanding = f.outstanding ∙ e.outstanding;
  send_buffer = f.send_buffer ∙ e.send_buffer;
}

module _ (streams resets : StreamMap) (next : ℕ) (key : SubgroupKey) (code : ℕ) where
  abbrev streams' : StreamMap
  streams' = erase SubgroupKey-discrete key streams

  abbrev resets' : StreamMap
  resets' = insert SubgroupKey-discrete key code resets

  reset-Tied :
      (k : SubgroupKey) (i : ℕ) → Tied streams resets next k i → Tied streams' resets' next k i
  reset-Tied k i t = record {
    positive = t.positive;
    below = t.below;
    own = λ h.
        let (n, e) = lookup-insert_absent SubgroupKey-discrete key k code resets h in
        lookup-erase_other SubgroupKey-discrete key k streams n ∙ t.own e;
    alone = λ j h.
        let (n, e) = lookup-erase_present SubgroupKey-discrete key j i streams h in t.alone j e;
  }

  reset-Live :
      (id : ℕ) (log : List Out) (k : SubgroupKey) (i : ℕ)
      → Tied streams resets next key id
      → key ≢ k
      → Live streams resets next log k i
      → Live streams' resets' next (reset_stream id code ∷ log) k i
  unfolding is_reset
  reset-Live id log k i t n l =
      let e : at_key k streams ≡ some i = l.tied.own l.open_key in
      let other : i ≢ id = λ h. n (sym (t.alone k (e ∙ ap some h))) in
      record {
        tied = reset-Tied k i l.tied;
        open_id = ground (arith, l.open_id, other);
        open_key = lookup-insert_other SubgroupKey-discrete key k code resets n ∙ l.open_key;
      }

  pub reset-Streams :
      (id : ℕ) (log : List Out)
      → Tied streams resets next key id
      → Streams streams resets next log
      → Streams streams' resets' next (reset_stream id code ∷ log)
  unfolding is_reset Safe
  reset-Streams id log t w = record {
    safe = w.safe;
    control = ground (arith, w.control, t.positive);
    fresh = λ i h. ground (arith, w.fresh i h, t.below, h);
    positive = w.positive;
    entries =
        All-erase SubgroupKey-discrete
          (λ (e : SubgroupKey × ℕ). Live streams resets next log e.0 e.1)
          (λ (e : SubgroupKey × ℕ). Live streams' resets' next (reset_stream id code ∷ log) e.0 e.1)
          key streams (λ k i n l. reset-Live id log k i t n l) w.entries;
  }

-- A reset of a stream that an object of the subgroup has.
pub reset-Evolves :
    (key : SubgroupKey) (id code : ℕ) (s : Publisher)
    → StreamsOf s
    → TiedOf s key id
    → Evolves s (reset_subgroup_stream key id code s)
unfolding reset_subgroup_stream
reset-Evolves key id code s w t = record {
  streams =
      reset-Streams s.subgroup_streams s.reset_subgroups s.next_stream_id key code id s.out t w;
  keeps = λ k i h. reset-Tied s.subgroup_streams s.reset_subgroups s.next_stream_id key code k i h;
  outstanding = refl;
  send_buffer = refl;
}

-- Calls that reset nothing, on streams that were not reset.
pub calls-Streams :
    (streams resets : StreamMap) (next : ℕ) (log log' : List Out)
    → Streams streams resets next log
    → Safe log'
    → ((i : ℕ) → is_reset i log' ≡ is_reset i log)
    → Streams streams resets next log'
calls-Streams streams resets next log log' w safe e = record {
  safe = safe;
  control = e control_stream ∙ w.control;
  fresh = λ i h. e i ∙ w.fresh i h;
  positive = w.positive;
  entries =
      All-map (λ (e : SubgroupKey × ℕ). Live streams resets next log e.0 e.1)
        (λ p l. record { tied = l.tied; open_id = e p.1 ∙ l.open_id; open_key = l.open_key })
        streams w.entries;
}

-- A stream that an object is tied to was not reset while its subgroup was not.
pub still_unreset :
    (streams resets : StreamMap) (next : ℕ) (log : List Out) (key : SubgroupKey) (id : ℕ)
    → Streams streams resets next log
    → Tied streams resets next key id
    → at_key key resets ≡ none
    → is_reset id log ≡ false
still_unreset streams resets next log key id w t e =
    let l =
      lookup-All SubgroupKey-discrete (λ k i. Live streams resets next log k i) key id streams
        (t.own e) w.entries in
    l.open_id
