-- ===== src/SendBuffer.antt =====
-- `std::map<long, std::deque<T>>`, a FIFO for each priority in ascending order of the keys: the send
-- buffer of the publisher and the forward buffers of the relay.
use moq_veins_simulation_the.Base.{
  ℕ, ◌+◌, ◌≡◌, refl, ap, sym, append_assoc, All-split, Bool-cases, ◌∙◌, arith, List, [], ◌∷◌, ◌++◌,
  All, All-append, Option, none, some, ℤ, ◌<ℤ◌, ltb_ℤ, if◌then◌else◌, inl, inr,
}

abbrev pub Buffer {ℓ} : Type ℓ → Type ℓ
Buffer A = List (ℤ × List A)

-- `begin()` behind the empty queues, which are erased: the first object, and what is behind it.
pub record Front {ℓ} (A : Type ℓ) : Type ℓ where
  pub prio : ℤ
  pub item : A
  pub later : List A
  pub rest : Buffer A

module _ {ℓ} {A : Type ℓ} where
  unfoldable pub front : Buffer A → Option (Front A)
  front [] = none
  front ((k, []) ∷ m) = front m
  front ((k, p ∷ ps) ∷ m) = some (record { prio = k; item = p; later = ps; rest = m })

  -- `buffer[k].push_back(p)`
  unfoldable pub push_back : ℤ → A → Buffer A → Buffer A
  push_back k p [] = (k, p ∷ []) ∷ []
  push_back k p ((j, q) ∷ m) =
      if ltb_ℤ k j
      then (k, p ∷ []) ∷ (j, q) ∷ m
      else if ltb_ℤ j k
      then (j, q) ∷ push_back k p m
      else (j, q ++ (p ∷ [])) ∷ m

  -- `pop_front()`, and the queue is erased when that empties it.
  unfoldable pub pop : Front A → Buffer A
  pop f = elim f.later [ [] ↦ f.rest | x ∷ xs ↦ (f.prio, x ∷ xs) ∷ f.rest ]

  -- The first object is changed in place.
  unfoldable pub put : Front A → A → Buffer A
  put f p = (f.prio, p ∷ f.later) ∷ f.rest

  -- All objects, in the order in which they are sent.
  unfoldable pub contents : Buffer A → List A
  contents [] = []
  contents ((k, q) ∷ m) = q ++ contents m

  -- Ascending keys, as `std::map` keeps them.
  abbrev pub Above : ℤ → Buffer A → Type 0
  Above k [] = Unit {0}
  Above k ((j, q) ∷ m) = (k <ℤ j) × Above k m

  abbrev pub IsSorted : Buffer A → Type 0
  IsSorted [] = Unit {0}
  IsSorted ((k, q) ∷ m) = Above k m × IsSorted m

  pub front-contents :
      (m : Buffer A) (f : Front A)
      → front m ≡ some f
      → contents m ≡ f.item ∷ (f.later ++ contents f.rest)
  unfolding front contents
  front-contents [] f e = cc
  front-contents ((k, []) ∷ m) f e = front-contents m f e
  front-contents ((k, p ∷ ps) ∷ m) f e = ground arith

  pub front-none : (m : Buffer A) → front m ≡ none → contents m ≡ []
  unfolding front contents
  front-none [] e = refl
  front-none ((k, []) ∷ m) e = front-none m e
  front-none ((k, p ∷ ps) ∷ m) e = cc

  pub pop-contents : (f : Front A) → contents (pop f) ≡ f.later ++ contents f.rest
  unfolding pop contents
  pop-contents f = ground arith

  pub put-contents : (f : Front A) (p : A) → contents (put f p) ≡ p ∷ (f.later ++ contents f.rest)
  unfolding put contents
  put-contents f p = refl

  -- A push adds one object, behind all of its own priority.
  pub push_back-contents :
      (k : ℤ) (p : A) (m : Buffer A)
      → (before : List A) × (after : List A) × (contents m ≡ before ++ after)
        × (contents (push_back k p m) ≡ before ++ (p ∷ after))
  unfolding push_back contents
  push_back-contents k p [] = ([], [], refl, refl)
  push_back-contents k p ((j, q) ∷ m) = elim (Bool-cases (ltb_ℤ k j)) [
    | inl lower ↦ ([], q ++ contents m, refl, rw lower)
    | inr h ↦ elim (Bool-cases (ltb_ℤ j k)) [
      | inl higher ↦
          let (before, after, old, new) = push_back-contents k p m in
          (
            q ++ before,
            after,
            ap (◌++◌ q) old ∙ sym (append_assoc q before after),
            rw (h, higher) (ap (◌++◌ q) new ∙ sym (append_assoc q before (p ∷ after))),
          )
      | inr same ↦ (q, contents m, refl, rw (h, same) (append_assoc q (p ∷ []) (contents m)))
    ]
  ]

  push_back-Above :
      (i k : ℤ) (p : A) (m : Buffer A) → i <ℤ k → Above i m → Above i (push_back k p m)
  unfolding push_back
  push_back-Above i k p [] h a = (h, tt)
  push_back-Above i k p ((j, q) ∷ m) h a = ground (arith, push_back-Above i k p m h a.1)

  Above-trans : (i k : ℤ) (m : Buffer A) → i <ℤ k → Above k m → Above i m
  Above-trans i k [] h a = tt
  Above-trans i k ((j, q) ∷ m) h a = (omega arith, Above-trans i k m h a.1)

  pub push_back-IsSorted : (k : ℤ) (p : A) (m : Buffer A) → IsSorted m → IsSorted (push_back k p m)
  unfolding push_back
  push_back-IsSorted k p [] s = (tt, tt)
  push_back-IsSorted k p ((j, q) ∷ m) s =
      ground (arith, push_back-Above j k p m, push_back-IsSorted k p m s.1, Above-trans k j m)

  pub front-IsSorted :
      (m : Buffer A) (f : Front A)
      → front m ≡ some f
      → IsSorted m
      → Above f.prio f.rest × IsSorted f.rest
  unfolding front
  front-IsSorted [] f e s = absurd (cc)
  front-IsSorted ((k, []) ∷ m) f e s = front-IsSorted m f e s.1
  front-IsSorted ((k, p ∷ ps) ∷ m) f e s = ground arith

  pub pop-IsSorted : (f : Front A) → Above f.prio f.rest → IsSorted f.rest → IsSorted (pop f)
  unfolding pop
  pop-IsSorted f a s = ground arith

-- Every object of the buffer.
module _ {ℓ κ} {A : Type ℓ} (P : A → Type κ) where
  pub All-push_back :
      (k : ℤ) (p : A) (m : Buffer A) → P p → All P (contents m) → All P (contents (push_back k p m))
  All-push_back k p m hp h =
      let (before, after, old, new) = push_back-contents k p m in
      let (hb, ha) = All-split P before after (rw old at h) in
      rw new (All-append P before (p ∷ after) hb (hp, ha))

-- A measure of the objects, summed up.
module _ {ℓ} {A : Type ℓ} (w : A → ℕ) where
  unfoldable pub total : List A → ℕ
  total [] = 0
  total (x ∷ xs) = w x + total xs

  pub total-append : (xs ys : List A) → total (xs ++ ys) ≡ total xs + total ys
  unfolding total
  total-append [] ys = omega arith
  total-append (x ∷ xs) ys = omega (arith, total-append xs ys)

  pub total-push_back :
      (k : ℤ) (p : A) (m : Buffer A) → total (contents (push_back k p m)) ≡ w p + total (contents m)
  unfolding total
  total-push_back k p m =
      let (before, after, old, new) = push_back-contents k p m in
      rw (old, new) (omega (arith, total-append before after, total-append before (p ∷ after)))
