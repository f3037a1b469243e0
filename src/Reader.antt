-- ===== src/Reader.antt =====
-- Reading through a pointer into a byte buffer. What is left of the buffer stands for the pointer,
-- and `none` is a read past the buffer's end, which C++ leaves undefined.
use moq_veins_simulation_the.Base.{
  ℕ, zero, suc, ◌+◌, ◌≤◌, ◌<◌, ◌≡◌, refl, ◌∙◌, inl, inr, Option-cases, ℕ_discrete, List, [], ◌∷◌,
  ◌++◌, Option, none, some, arith, length,
}

abbrev pub Bytes : Type 0
Bytes = List ℕ

abbrev pub IsByte : ℕ → Type 0
IsByte b = b < 256

abbrev pub Reader {ℓ} : Type ℓ → Type ℓ
Reader A = Bytes → Option (A × Bytes)

infixl 5 ◌>>=◌
unfoldable pub ◌>>=◌ {ℓ κ} : {A : Type ℓ} {B : Type κ} → Reader A → (A → Reader B) → Reader B
◌>>=◌ m f p = elim (m p) [ none ↦ none | some (a, q) ↦ f a q ]

unfoldable pub return {ℓ} : {A : Type ℓ} → A → Reader A
return a p = some (a, p)

-- One byte, `*p; p += 1`.
unfoldable pub get_byte : Reader ℕ
get_byte [] = none
get_byte (b ∷ p) = some (b, p)

-- A string of `n` bytes at the pointer, `assign(p, n); p += n`.
unfoldable pub get_bytes : ℕ → Reader Bytes
get_bytes zero = return []
get_bytes (suc n) = do b ← get_byte; s ← get_bytes n; return (b ∷ s)

module _ {ℓ κ} {A : Type ℓ} {B : Type κ} where
  -- A read that succeeds hands its value to the next.
  pub bind_step :
      (m : Reader A) (f : A → Reader B) (p q : Bytes) (a : A)
      → m p ≡ some (a, q)
      → (m >>= f) p ≡ f a q
  unfolding ◌>>=◌
  bind_step m f p q a e = rw (e, ◌>>=◌)

pub get_bytes-append : (s p : Bytes) → get_bytes (length s) (s ++ p) ≡ some (s, p)
unfolding get_bytes get_byte return ◌>>=◌
get_bytes-append [] p = refl
get_bytes-append (b ∷ s) p = ground (arith, get_bytes-append s p)

-- What a parse of the front of a buffer comes to: more bytes are needed, a value was read, or a
-- read went past the buffer's end.
pub data Parse {ℓ} (A : Type ℓ) : Type ℓ where
  incomplete : Parse A
  parsed : A → Parse A
  overread : Parse A

-- A read that succeeds takes `k` bytes at least, and succeeds alike when more bytes follow.
pub record Reads {ℓ} {A : Type ℓ} (k : ℕ) (m : Reader A) : Type ℓ where
  pub takes : (p q : Bytes) (a : A) → m p ≡ some (a, q) → k + length q ≤ length p
  pub stable : (p q more : Bytes) (a : A) → m p ≡ some (a, q) → m (p ++ more) ≡ some (a, q ++ more)

>>=_cases {ℓ κ} :
    {A : Type ℓ} {B : Type κ} (m : Reader A) (f : A → Reader B) (p q : Bytes) (b : B)
    → (m >>= f) p ≡ some (b, q)
    → (a : A) × (r : Bytes) × (m p ≡ some (a, r)) × (f a r ≡ some (b, q))
unfolding ◌>>=◌
>>=_cases m f p q b e = elim (Option-cases (m p)) [
  | inl h ↦ absurd (cc (rw (h, ◌>>=◌) at e))
  | inr ((a, r), h) ↦ (a, r, h, rw (h, ◌>>=◌) at e)
]

pub >>=-Reads {ℓ κ} :
    {A : Type ℓ} {B : Type κ} (i j : ℕ) (m : Reader A) (f : A → Reader B)
    → Reads i m
    → ((a : A) → Reads j (f a))
    → Reads (i + j) (m >>= f)
>>=-Reads i j m f hm hf = record {
  takes = λ p q b e.
      let (a, r, em, ef) = >>=_cases m f p q b e in
      omega (arith, hm.takes p r a em, (hf a).takes r q b ef);
  stable = λ p q more b e.
      let (a, r, em, ef) = >>=_cases m f p q b e in
      bind_step m f _ _ a (hm.stable p r more a em) ∙ (hf a).stable r q more b ef;
}

pub return-Reads {ℓ} : {A : Type ℓ} (a : A) → Reads 0 (return a)
unfolding return
return-Reads a = record { takes = λ p q b e. ground arith; stable = λ p q more b e. ground arith }

pub get_byte-Reads : Reads 1 get_byte
unfolding get_byte
get_byte-Reads = record { takes = takes; stable = stable }
  where
    takes : (p q : Bytes) (a : ℕ) → get_byte p ≡ some (a, q) → 1 + length q ≤ length p
    takes [] q a e = cc
    takes (b ∷ p) q a e = ground arith

    stable :
        (p q more : Bytes) (a : ℕ)
        → get_byte p ≡ some (a, q)
        → get_byte (p ++ more) ≡ some (a, q ++ more)
    stable [] q more a e = cc
    stable (b ∷ p) q more a e = ground arith

pub Reads-weaken {ℓ} : {A : Type ℓ} (k j : ℕ) (m : Reader A) → k ≤ j → Reads j m → Reads k m
Reads-weaken k j m h r = record {
  takes = λ p q a e. omega (arith, r.takes p q a e);
  stable = r.stable;
}

pub get_bytes-Reads : (n : ℕ) → Reads 0 (get_bytes n)
unfolding get_bytes
get_bytes-Reads zero = return-Reads []
get_bytes-Reads (suc n) = Reads-weaken 0 1 _ (omega arith) (
    >>=-Reads 1 0 _ _ get_byte-Reads
      (λ b. >>=-Reads 0 0 _ _ (get_bytes-Reads n) (λ s. return-Reads (b ∷ s))))

-- A reader of exactly `k` bytes: it succeeds wherever the buffer still holds them.
abbrev pub Fixed {ℓ} : {A : Type ℓ} → ℕ → Reader A → Type ℓ
Fixed {A} k m =
    (p : Bytes)
    → k ≤ length p
    → (a : A) × (q : Bytes) × (m p ≡ some (a, q)) × (length p ≡ k + length q)

pub return-Fixed {ℓ} : {A : Type ℓ} (a : A) → Fixed 0 (return a)
unfolding return
return-Fixed a p h = (a, p, refl, omega arith)

pub get_byte-Fixed : Fixed 1 get_byte
unfolding get_byte
get_byte-Fixed [] h = absurd (omega arith)
get_byte-Fixed (b ∷ p) h = (b, p, refl, omega arith)

pub >>=-Fixed {ℓ κ} :
    {A : Type ℓ} {B : Type κ} (i j : ℕ) (m : Reader A) (f : A → Reader B)
    → Fixed i m
    → ((a : A) → Fixed j (f a))
    → Fixed (i + j) (m >>= f)
>>=-Fixed i j m f hm hf p h =
    let (a, r, em, lm) = hm p (omega arith) in
    let (b, q, ef, lf) = hf a r (omega arith) in (b, q, bind_step m f p r a em ∙ ef, omega arith)

pub Fixed-weaken {ℓ} : {A : Type ℓ} (i j : ℕ) (m : Reader A) → i ≡ j → Fixed i m → Fixed j m
Fixed-weaken i j m e h p le = let (a, q, em, l) = h p (omega arith) in (a, q, em, omega arith)

pub get_bytes-Fixed : (n : ℕ) → Fixed n (get_bytes n)
unfolding get_bytes
get_bytes-Fixed zero = return-Fixed []
get_bytes-Fixed (suc n) = Fixed-weaken (1 + (n + 0)) (suc n) _ (omega arith) (
    >>=-Fixed 1 (n + 0) _ _ get_byte-Fixed
      (λ b. >>=-Fixed n 0 _ _ (get_bytes-Fixed n) (λ s. return-Fixed (b ∷ s))))

unfoldable pub Bytes-discrete : Discrete Bytes
Bytes-discrete = hlevel ℕ_discrete
