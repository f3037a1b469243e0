-- ===== src/Publisher/Streams/Open.antt =====
-- applications/moq/MoqPublisherApp.cc: the stream of a subgroup, new or open.
use moq_veins_simulation_the.Base.{
  ℕ, ◌+◌, ◌≡◌, ◌≢◌, refl, sym, subst, ◌∙◌, arith, List, none, some, inl, inr, Option-cases, insert,
  lookup-insert_present, lookup-insert_other, lookup-insert_same, All-insert, lookup-All,
}
use moq_veins_simulation_the.Quic.{Out}
use moq_veins_simulation_the.Publisher.State.{SubgroupKey, SubgroupKey-discrete, Publisher}
use moq_veins_simulation_the.Publisher.Events.{open_stream}
use moq_veins_simulation_the.Publisher.Streams.Core.{
  StreamMap, at_key, Tied, Live, Streams, StreamsOf, TiedOf, Evolves, stays,
}

-- A new stream for a subgroup that has none and was not reset.
module _ (streams resets : StreamMap) (next : ℕ) (log : List Out) (key : SubgroupKey)
    (absent : at_key key streams ≡ none) (not_reset : at_key key resets ≡ none)
    (w : Streams streams resets next log) where
  abbrev opened : StreamMap
  opened = insert SubgroupKey-discrete key next streams

  opened-Tied :
      (k : SubgroupKey) (i : ℕ) → Tied streams resets next k i → Tied opened resets (next + 4) k i
  opened-Tied k i t = record {
    positive = t.positive;
    below = omega (arith, t.below);
    own = λ h.
        let other : key ≢ k = λ e.
          let x : none ≡ some i =
            sym (subst (λ (z : SubgroupKey). at_key z streams ≡ none) e absent) ∙ t.own h in
          cc in
        lookup-insert_other SubgroupKey-discrete key k next streams other ∙ t.own h;
    alone = λ j h. elim (lookup-insert_present SubgroupKey-discrete key j next i streams h) [
      | inl (e, same) ↦ absurd (omega (arith, t.below, same))
      | inr (n, old) ↦ t.alone j old
    ];
  }

  new-Tied : Tied opened resets (next + 4) key next
  new-Tied = record {
    positive = w.positive;
    below = omega arith;
    own = λ h. lookup-insert_same SubgroupKey-discrete key next streams;
    alone = λ j h. elim (lookup-insert_present SubgroupKey-discrete key j next next streams h) [
      | inl (e, same) ↦ sym e
      | inr (n, old) ↦
          let l =
            lookup-All SubgroupKey-discrete (λ k i. Live streams resets next log k i) j next streams
              old w.entries in
          absurd (omega (arith, l.tied.below))
    ];
  }

  opened-Streams : Streams opened resets (next + 4) log
  opened-Streams = record {
    safe = w.safe;
    control = w.control;
    fresh = λ i h. w.fresh i (omega (arith, h));
    positive = omega arith;
    entries =
        All-insert SubgroupKey-discrete
          (λ (e : SubgroupKey × ℕ). Live streams resets next log e.0 e.1)
          (λ (e : SubgroupKey × ℕ). Live opened resets (next + 4) log e.0 e.1) key next streams
          (λ k i l. record {
            tied = opened-Tied k i l.tied;
            open_id = l.open_id;
            open_key = l.open_key;
          })
          (record { tied = new-Tied; open_id = w.fresh next (omega arith); open_key = not_reset })
          w.entries;
  }

-- The stream that a subgroup has, or is given.
pub open_stream-Tied :
    (key : SubgroupKey) (s : Publisher)
    → StreamsOf s
    → at_key key s.reset_subgroups ≡ none
    → Evolves s (open_stream key s).1 × TiedOf (open_stream key s).1 key (open_stream key s).0
unfolding open_stream
open_stream-Tied key s w e = elim (Option-cases (at_key key s.subgroup_streams)) [
  | inr (id, h) ↦
      let l =
        lookup-All SubgroupKey-discrete
          (λ k i. Live s.subgroup_streams s.reset_subgroups s.next_stream_id s.out k i) key id
          s.subgroup_streams h w.entries in
      rw (h, open_stream) (stays s w, l.tied)
  | inl h ↦
      rw (h, open_stream)
        (
          record {
            streams =
                opened-Streams s.subgroup_streams s.reset_subgroups s.next_stream_id s.out key h e
                  w;
            keeps = λ k i t.
                opened-Tied s.subgroup_streams s.reset_subgroups s.next_stream_id s.out key h e w k
                  i t;
            outstanding = refl;
            send_buffer = refl;
          },
          new-Tied s.subgroup_streams s.reset_subgroups s.next_stream_id s.out key h e w,
        )
]
