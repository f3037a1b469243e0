-- ===== src/Stream.antt =====
-- The receive loops: bytes are appended to a buffer, and `while (tryParse(buf, f, consumed))` takes
-- messages off its front. One loop serves every parser of the two framing headers.
pub mod Pieces
use moq_veins_simulation_the.Base.{
  ℕ, zero, suc, ◌≤◌, ◌<◌, ◌≡◌, refl, ap, ◌∙◌, List, [], ◌∷◌, ◌++◌, arith, length, length-drop, drop,
  drop-append, drop-append_le, append_assoc, flat_map, All, sym, ◌⊎◌, inl, inr, ◌≢◌,
}
use moq_veins_simulation_the.Reader.{Bytes, Parse, incomplete, parsed, overread}

-- What the loop over a parser relies on.
pub record IsFraming {A : Type 0} (parse : Bytes → Parse (A × ℕ)) : Type 0 where
  pub progress :
      (buf : Bytes) (a : A) (k : ℕ) → parse buf ≡ parsed (a, k) → (0 < k) × (k ≤ length buf)
  pub stable :
      (buf more : Bytes) (a : A) (k : ℕ)
      → parse buf ≡ parsed (a, k)
      → parse (buf ++ more) ≡ parsed (a, k)

-- The messages and the bytes that stay in the buffer. `past_end` is a read past the buffer's end,
-- and `stuck` says that the fuel ran out.
pub data Drain (A : Type 0) : Type 0 where
  drained : List A → Bytes → Drain A
  past_end : Drain A
  stuck : Drain A

unfoldable pub push : {A : Type 0} → A → Drain A → Drain A
push a (drained fs rest) = drained (a ∷ fs) rest
push a past_end = past_end
push a stuck = stuck

pub Parse-cases {ℓ} :
    {A : Type ℓ} (r : Parse A) → (r ≡ incomplete) ⊎ ((a : A) × (r ≡ parsed a)) ⊎ (r ≡ overread)
Parse-cases incomplete = inl refl
Parse-cases (parsed a) = inr (inl (a, refl))
Parse-cases overread = inr (inr refl)

module _ {A : Type 0} (parse : Bytes → Parse (A × ℕ)) where
  unfoldable pub drain_loop : ℕ → Bytes → Drain A
  drain_loop zero buf = stuck
  drain_loop (suc n) buf = elim (parse buf) [
    | incomplete ↦ drained [] buf
    | parsed (a, k) ↦ push a (drain_loop n (drop k buf))
    | overread ↦ past_end
  ]

  -- Each round takes a byte at least, so these rounds are enough.
  unfoldable pub drain : Bytes → Drain A
  unfolding drain_loop push
  drain buf = drain_loop (suc (length buf)) buf

unfoldable pub push_all : {A : Type 0} → List A → Drain A → Drain A
push_all [] d = d
push_all (f ∷ fs) d = push f (push_all fs d)

pub push_all-drained :
    {A : Type 0} (fs : List A) (rest : Bytes) → push_all fs (drained [] rest) ≡ drained fs rest
unfolding push_all push
push_all-drained [] rest = refl
push_all-drained (f ∷ fs) rest = ap (push f) (push_all-drained fs rest)

push-ne-stuck : {A : Type 0} (a : A) (d : Drain A) → d ≢ stuck → push a d ≢ stuck
unfolding push
push-ne-stuck a (drained fs rest) h = λ e. cc
push-ne-stuck a past_end h = λ e. cc
push-ne-stuck a stuck h = absurd (h refl)

push-eq-drained :
    {A : Type 0} (a : A) (d : Drain A) (fs : List A) (rest : Bytes)
    → push a d ≡ drained fs rest
    → (gs : List A) × (d ≡ drained gs rest) × (fs ≡ a ∷ gs)
unfolding push
push-eq-drained a (drained gs q) fs rest e = (gs, ground arith, ground arith)
push-eq-drained a past_end fs rest e = absurd (cc)
push-eq-drained a stuck fs rest e = absurd (cc)

module _ {A : Type 0} (parse : Bytes → Parse (A × ℕ)) (law : IsFraming parse) where
  drain_loop-ne-stuck : (n : ℕ) (buf : Bytes) → length buf < n → drain_loop parse n buf ≢ stuck
  unfolding drain_loop
  drain_loop-ne-stuck zero buf h = absurd (omega arith)
  drain_loop-ne-stuck (suc n) buf h = elim (Parse-cases (parse buf)) [
    | inl e ↦ rw (e, drain_loop) (λ x. cc)
    | inr (inl ((a, k), e)) ↦
        rw (e, drain_loop)
          (push-ne-stuck a _ (
            drain_loop-ne-stuck n (drop k buf)
              (omega (arith, law.progress buf a k e, length-drop k buf))))
    | inr (inr e) ↦ rw (e, drain_loop) (λ x. cc)
  ]

  -- For a parser that takes a byte at least and whose success does not depend on the bytes
  -- behind a message, the receive loop ends on every buffer within its fuel.
  pub drain-ne-stuck : (buf : Bytes) → drain parse buf ≢ stuck
  unfolding drain
  drain-ne-stuck buf = drain_loop-ne-stuck (suc (length buf)) buf (omega arith)

  drain_loop_fuel :
      (n m : ℕ) (buf : Bytes)
      → length buf < n
      → length buf < m
      → drain_loop parse n buf ≡ drain_loop parse m buf
  unfolding drain_loop
  drain_loop_fuel zero m buf hn hm = absurd (omega arith)
  drain_loop_fuel (suc n) zero buf hn hm = absurd (omega arith)
  drain_loop_fuel (suc n) (suc m) buf hn hm = elim (Parse-cases (parse buf)) [
    | inl e ↦ rw (e, drain_loop)
    | inr (inl ((a, k), e)) ↦
        rw (e, drain_loop)
          (ap (push a) (
            drain_loop_fuel n m (drop k buf)
              (omega (arith, law.progress buf a k e, length-drop k buf))
              (omega (arith, law.progress buf a k e, length-drop k buf))))
    | inr (inr e) ↦ rw (e, drain_loop)
  ]

  pub drain_incomplete : (buf : Bytes) → parse buf ≡ incomplete → drain parse buf ≡ drained [] buf
  unfolding drain
  drain_incomplete buf e = rw (e, drain_loop)

  -- The loop hands on the first message, then goes on behind it.
  pub drain_parsed :
      (buf : Bytes) (a : A) (k : ℕ)
      → parse buf ≡ parsed (a, k)
      → drain parse buf ≡ push a (drain parse (drop k buf))
  unfolding drain
  drain_parsed buf a k e =
      rw (e, drain_loop)
        (ap (push a) (
          drain_loop_fuel (length buf) (suc (length (drop k buf))) (drop k buf)
            (omega (arith, law.progress buf a k e, length-drop k buf)) (omega arith)))

  pub drain_overread : (buf : Bytes) → parse buf ≡ overread → drain parse buf ≡ past_end
  unfolding drain
  drain_overread buf e = rw (e, drain_loop)

  drain_append_loop :
      (n : ℕ) (buf more : Bytes) (fs : List A) (rest : Bytes)
      → length buf < n
      → drain parse buf ≡ drained fs rest
      → drain parse (buf ++ more) ≡ push_all fs (drain parse (rest ++ more))
  unfolding push_all
  drain_append_loop zero buf more fs rest hn e = absurd (omega arith)
  drain_append_loop (suc n) buf more fs rest hn e = elim (Parse-cases (parse buf)) [
    | inl ep ↦
        let e' : drained [] buf ≡ drained fs rest = sym (drain_incomplete buf ep) ∙ e in
        ground arith
    | inr (inl ((a, k), ep)) ↦
        let (gs, ed, ef) =
          push-eq-drained a (drain parse (drop k buf)) fs rest
            (sym (drain_parsed buf a k ep) ∙ e) in
        drain_parsed (buf ++ more) a k (law.stable buf more a k ep)
        ∙ rw (drop-append_le k buf more (law.progress buf a k ep).1, ef)
            (ap (push a) (
              drain_append_loop n (drop k buf) more gs rest
                (omega (arith, law.progress buf a k ep, length-drop k buf)) ed))
    | inr (inr ep) ↦ absurd (cc (drain_overread buf ep))
  ]

  -- For a parser that takes a byte at least and whose success does not depend on the bytes
  -- behind a message: where draining a first piece of a stream gives some messages and a rest,
  -- draining both pieces at once gives those messages and then what the rest with the second
  -- piece behind it gives.
  pub drain-append :
      (buf more : Bytes) (fs : List A) (rest : Bytes)
      → drain parse buf ≡ drained fs rest
      → drain parse (buf ++ more) ≡ push_all fs (drain parse (rest ++ more))
  drain-append buf more fs rest e =
      drain_append_loop (suc (length buf)) buf more fs rest (omega arith) e

  -- Messages written one after the other are all found, in order, and the bytes behind them are
  -- drained as they would be alone.
  module _ (write : A → Bytes) (IsFit : A → Type 0)
      (found : (a : A) (p : Bytes)
        → IsFit a
        → parse (write a ++ p) ≡ parsed (a, length (write a))) where
    pub drain-flat_map :
        (fs : List A) (p : Bytes)
        → All IsFit fs
        → drain parse (flat_map write fs ++ p) ≡ push_all fs (drain parse p)
    unfolding push_all mathlib.Core.List.flat_map
    drain-flat_map [] p h = refl
    drain-flat_map (a ∷ fs) p h = rw append_assoc (
        drain_parsed (write a ++ (flat_map write fs ++ p)) a (length (write a)) (found a _ h.0)
        ∙ rw (drop-append (write a) (flat_map write fs ++ p))
            (ap (push a) (drain-flat_map fs p h.1)))
