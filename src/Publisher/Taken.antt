-- ===== src/Publisher/Taken.antt =====
-- Which objects a flush of the publisher's send buffer takes, and what it leaves of the others.
use moq_veins_simulation_the.Base.{
  ℕ, suc, ◌+◌, ◌-◌, ◌≡◌, ◌⊎◌, ◌∙◌, sym, ap, subst, refl, arith, List, [], ◌∷◌, ◌++◌, none, some,
  inl, inr, length, length-append, append_assoc, Option-cases,
}
use moq_veins_simulation_the.SendBuffer.{
  Front, front, contents, front-contents, front-none, pop-contents, put-contents,
}
use moq_veins_simulation_the.Quic.{Moment}
use moq_veins_simulation_the.Publisher.State.{Pending, Publisher}
use moq_veins_simulation_the.Publisher.Send.{
  observe, chunk_len, chunk_sent, do_send_quic_chunk, note_sent, charge, shed_stale, drop_stale,
  pop_front, send_front, flush_front, flush_round, flush_stop, work, enter_event, flush_send_buffer,
  reset_subgroup_stream,
}
use moq_veins_simulation_the.Publisher.Loop.{MayWrite, flush_loop_inv}

-- The same objects in the same order, but for how far the first one was sent.
abbrev pub Alike : List Pending → List Pending → Type 0
Alike [] qs = qs ≡ []
Alike (p ∷ ps) qs = (n : ℕ) × (qs ≡ record p { sent_offset = n } ∷ ps)

Alike-refl : (ps : List Pending) → Alike ps ps
Alike-refl [] = refl
Alike-refl (p ∷ ps) = (p.sent_offset, refl)

-- From the objects `ps`, `c` of them by the counter, those taken stood at the front, and as many are
-- missing in the counter; the others wait.
unfoldable pub TakenFrom : List Pending → ℕ → Publisher → Type 0
TakenFrom ps c s =
    (taken : List Pending) × (rest : List Pending) × (ps ≡ taken ++ rest)
    × Alike rest (contents s.send_buffer)
    × (s.send_buffer_count + length taken ≡ c)
    × (s.send_buffer_count ≡ length rest)

-- A round takes the first object, or sends on of it.
flush_front_cases :
    (m : Moment) (f : Front Pending) (s : Publisher)
    → ((contents (flush_front m f s).send_buffer ≡ f.later ++ contents f.rest)
        × ((flush_front m f s).send_buffer_count ≡ s.send_buffer_count - 1))
      ⊎ ((contents (flush_front m f s).send_buffer
            ≡ chunk_sent s f.item ∷ (f.later ++ contents f.rest))
          × ((flush_front m f s).send_buffer_count ≡ s.send_buffer_count))
unfolding flush_front charge drop_stale send_front pop_front do_send_quic_chunk note_sent
    reset_subgroup_stream shed_stale
flush_front_cases m f s = ground (arith, pop-contents f, put-contents f (chunk_sent s f.item))

flush_front_step :
    (m : Moment) (f : Front Pending) (s : Publisher) (ps taken rest : List Pending) (c : ℕ)
    → contents s.send_buffer ≡ f.item ∷ (f.later ++ contents f.rest)
    → ps ≡ taken ++ rest
    → Alike rest (contents s.send_buffer)
    → s.send_buffer_count + length taken ≡ c
    → s.send_buffer_count ≡ length rest
    → TakenFrom ps c (flush_front m f s)
unfolding TakenFrom chunk_sent
flush_front_step m f s ps taken [] c e ep a h l = absurd (cc)
flush_front_step m f s ps taken (p ∷ rest) c e ep (n, a) h l =
    let same = sym e ∙ a in
    let head : f.item ≡ record p { sent_offset = n } = cc same in
    let tail : f.later ++ contents f.rest ≡ rest = cc same in
    elim (flush_front_cases m f s) [
      | inl (x, y) ↦ (
        taken ++ (p ∷ []),
        rest,
        ep ∙ sym (append_assoc taken (p ∷ []) rest),
        subst (Alike rest) (sym (x ∙ tail)) (Alike-refl rest),
        omega (arith, h, l, y, length-append taken (p ∷ [])),
        omega (arith, l, y),
      )
      | inr (x, y) ↦ (
        taken,
        p ∷ rest,
        ep,
        (
          f.item.sent_offset + chunk_len s f.item,
          x
              ∙ ap (λ z. z ∷ (f.later ++ contents f.rest))
                  (ap
                    (λ (q : Pending). record q {
                      sent_offset = f.item.sent_offset + chunk_len s f.item;
                    })
                    head)
              ∙ ap (◌∷◌ (record p { sent_offset = f.item.sent_offset + chunk_len s f.item })) tail,
        ),
        omega (arith, h, y),
        y ∙ l,
      )
    ]

flush_stop-contents :
    (m : Moment) (s : Publisher)
    → flush_round m s ≡ none
    → (contents (flush_stop m s).send_buffer ≡ contents s.send_buffer)
      × ((flush_stop m s).send_buffer_count ≡ s.send_buffer_count)
unfolding flush_stop flush_round observe contents
flush_stop-contents m s e = elim (Option-cases (front s.send_buffer)) [
  | inl none_left ↦ ground (arith, front-none s.send_buffer none_left)
  | inr (f, some_left) ↦ ground (arith, e, some_left)
]

-- What the other fields are does not matter.
TakenFrom-same :
    (ps : List Pending) (c : ℕ) (s s' : Publisher)
    → contents s'.send_buffer ≡ contents s.send_buffer
    → s'.send_buffer_count ≡ s.send_buffer_count
    → TakenFrom ps c s
    → TakenFrom ps c s'
unfolding TakenFrom
TakenFrom-same ps c s s' x y (taken, rest, ep, a, h, l) =
    (taken, rest, ep, subst (Alike rest) (sym x) a, omega (arith, h, y), y ∙ l)

flush_stop-TakenFrom :
    (ps : List Pending) (c : ℕ) (m : Moment) (s : Publisher)
    → flush_round m s ≡ none
    → TakenFrom ps c s
    → TakenFrom ps c (flush_stop m s)
flush_stop-TakenFrom ps c m s e h =
    let (x, y) = flush_stop-contents m s e in TakenFrom-same ps c s (flush_stop m s) x y h

flush_front-TakenFrom :
    (ps : List Pending) (c : ℕ) (m : Moment) (f : Front Pending) (s : Publisher)
    → front s.send_buffer ≡ some f
    → MayWrite m s
    → TakenFrom ps c s
    → TakenFrom ps c (flush_front m f (observe m s))
unfolding observe TakenFrom
flush_front-TakenFrom ps c m f s e may (taken, rest, ep, a, h, l) =
    flush_front_step m f (observe m s) ps taken rest c (front-contents s.send_buffer f e) ep a h l

enter_event-contents :
    (m : Moment) (s : Publisher)
    → (contents (enter_event m s).send_buffer ≡ contents s.send_buffer)
      × ((enter_event m s).send_buffer_count ≡ s.send_buffer_count)
unfolding enter_event
enter_event-contents m s = (ground arith, ground arith)

-- Where the counter of the send buffer is the number of its objects, a flush takes objects off
-- the front only, as many as the counter falls by, and the others wait in their order,
-- unchanged but for how far the first of them was sent, and are as many as the counter says.
pub flush_send_buffer-TakenFrom :
    (m : Moment) (s : Publisher)
    → s.send_buffer_count ≡ length (contents s.send_buffer)
    → TakenFrom (contents s.send_buffer) s.send_buffer_count (flush_send_buffer m s)
unfolding flush_send_buffer TakenFrom
flush_send_buffer-TakenFrom m s e =
    let ps = contents s.send_buffer in
    let (x, y) = enter_event-contents m s in
    flush_loop_inv (TakenFrom ps s.send_buffer_count) m
      (flush_front-TakenFrom ps s.send_buffer_count m)
      (flush_stop-TakenFrom ps s.send_buffer_count m) (suc (work s)) (enter_event m s)
      (TakenFrom-same ps s.send_buffer_count s (enter_event m s) x y
        ([], ps, refl, Alike-refl ps, omega arith, e))
