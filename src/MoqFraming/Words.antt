-- ===== src/MoqFraming/Words.antt =====
-- The little-endian integers of models/MoqFraming.h: putU32, putI64, getU32, getI64, putStr, getStr.
use moq_veins_simulation_the.Base.{
  ℕ, zero, suc, ◌+◌, ◌*◌, ◌/◌, ◌%◌, ◌^◌, ◌<◌, ◌≡◌, refl, ◌∙◌, [], ◌∷◌, ◌++◌, some, arith, length, ℤ,
  IsI64, to_u64, of_u64, to_u64-lt, of_u64-to_u64, append_assoc,
}
use moq_veins_simulation_the.Reader.{
  Bytes, Reader, ◌>>=◌, return, get_bytes, get_bytes-append, bind_step, Reads, >>=-Reads,
  get_bytes-Reads, get_byte, get_byte-Reads, return-Reads, Reads-weaken, Fixed, return-Fixed,
  get_byte-Fixed, >>=-Fixed,
}

-- `b.push_back((uint8_t)((v >> 8 * i) & 0xff))` for the four bytes of `v`.
unfoldable pub put_u32 : ℕ → Bytes
put_u32 v = v % 256 ∷ v / 2 ^ 8 % 256 ∷ v / 2 ^ 16 % 256 ∷ v / 2 ^ 24 % 256 ∷ []

-- The loop of putI64: the low byte of `u`, then `u >>= 8`, `n` times.
unfoldable pub put_le : ℕ → ℕ → Bytes
put_le zero u = []
put_le (suc n) u = (u % 256) ∷ put_le n (u / 256)

unfoldable pub put_i64 : ℤ → Bytes
unfolding put_le
put_i64 v = put_le 8 (to_u64 v)

unfoldable pub get_u32 : Reader ℕ
get_u32 = do
  a ← get_byte
  b ← get_byte
  c ← get_byte
  d ← get_byte
  return (a + b * 2 ^ 8 + c * 2 ^ 16 + d * 2 ^ 24)

-- The loop of getI64 takes the last byte first: `u = (u << 8) | p[i]`.
unfoldable pub get_le : ℕ → Reader ℕ
get_le zero = return 0
get_le (suc n) = do b ← get_byte; u ← get_le n; return (u * 256 + b)

unfoldable pub get_i64 : Reader ℤ
get_i64 = do u ← get_le 8; return (of_u64 u)

unfoldable pub put_str : Bytes → Bytes
put_str s = put_u32 (length s % 2 ^ 32) ++ s

unfoldable pub get_str : Reader Bytes
get_str = do n ← get_u32; get_bytes n

pub get_u32-put_u32 : (v : ℕ) (p : Bytes) → v < 2 ^ 32 → get_u32 (put_u32 v ++ p) ≡ some (v, p)
unfolding get_u32 put_u32 get_byte return ◌>>=◌
get_u32-put_u32 v p h = ground arith

get_le-put_le : (n u : ℕ) (p : Bytes) → u < 256 ^ n → get_le n (put_le n u ++ p) ≡ some (u, p)
unfolding get_le put_le get_byte return ◌>>=◌
get_le-put_le zero u p h = ground arith
get_le-put_le (suc n) u p h = ground (arith, get_le-put_le n (u / 256) p (omega arith))

pub get_i64-put_i64 : (z : ℤ) (p : Bytes) → IsI64 z → get_i64 (put_i64 z ++ p) ≡ some (z, p)
unfolding get_i64 put_i64 return ◌>>=◌
get_i64-put_i64 z p h =
    ground (arith, get_le-put_le 8 (to_u64 z) p (to_u64-lt z), of_u64-to_u64 z h)

pub get_str-put_str : (s p : Bytes) → length s < 2 ^ 32 → get_str (put_str s ++ p) ≡ some (s, p)
unfolding get_str put_str
get_str-put_str s p h =
    let fits : length s % 2 ^ 32 ≡ length s = omega arith in
    rw (fits, append_assoc)
      (bind_step get_u32 get_bytes _ _ (length s) (get_u32-put_u32 (length s) (s ++ p) h)
        ∙ get_bytes-append s p)

-- A read of what was written hands the value to the reader that follows.
module _ {ℓ} {A : Type ℓ} where
  pub get_i64-then :
      (z : ℤ) (f : ℤ → Reader A) (p : Bytes) → IsI64 z → (get_i64 >>= f) (put_i64 z ++ p) ≡ f z p
  get_i64-then z f p h = bind_step get_i64 f _ p z (get_i64-put_i64 z p h)

  pub get_u32-then :
      (v : ℕ) (f : ℕ → Reader A) (p : Bytes) → v < 2 ^ 32 → (get_u32 >>= f) (put_u32 v ++ p) ≡ f v p
  get_u32-then v f p h = bind_step get_u32 f _ p v (get_u32-put_u32 v p h)

  pub get_str-then :
      (s : Bytes) (f : Bytes → Reader A) (p : Bytes)
      → length s < 2 ^ 32
      → (get_str >>= f) (put_str s ++ p) ≡ f s p
  get_str-then s f p h = bind_step get_str f _ p s (get_str-put_str s p h)

pub length-put_i64 : (z : ℤ) → length (put_i64 z) ≡ 8
unfolding put_i64
length-put_i64 z = refl

pub length-put_u32 : (v : ℕ) → length (put_u32 v) ≡ 4
unfolding put_u32
length-put_u32 v = refl

pub get_u32-Reads : Reads 4 get_u32
unfolding get_u32
get_u32-Reads = >>=-Reads 1 3 _ _ get_byte-Reads (λ a. >>=-Reads 1 2 _ _ get_byte-Reads (λ b.
    >>=-Reads 1 1 _ _ get_byte-Reads (λ c. >>=-Reads 1 0 _ _ get_byte-Reads (λ d. return-Reads _))))

get_le-Reads : (n : ℕ) → Reads n (get_le n)
unfolding get_le
get_le-Reads zero = return-Reads 0
get_le-Reads (suc n) = Reads-weaken (suc n) (1 + (n + 0)) _ (omega arith) (
    >>=-Reads 1 (n + 0) _ _ get_byte-Reads
      (λ b. >>=-Reads n 0 _ _ (get_le-Reads n) (λ u. return-Reads _)))

pub get_i64-Reads : Reads 8 get_i64
unfolding get_i64
get_i64-Reads = >>=-Reads 8 0 _ _ (get_le-Reads 8) (λ u. return-Reads _)

pub get_str-Reads : Reads 4 get_str
unfolding get_str
get_str-Reads = >>=-Reads 4 0 _ _ get_u32-Reads get_bytes-Reads

pub get_byte-then {ℓ} :
    {A : Type ℓ} (b : ℕ) (f : ℕ → Reader A) (p : Bytes) → (get_byte >>= f) (b ∷ p) ≡ f b p
unfolding get_byte
get_byte-then b f p = bind_step get_byte f _ p b refl

pub get_u32-Fixed : Fixed 4 get_u32
unfolding get_u32
get_u32-Fixed = >>=-Fixed 1 3 _ _ get_byte-Fixed (λ a. >>=-Fixed 1 2 _ _ get_byte-Fixed (λ b.
    >>=-Fixed 1 1 _ _ get_byte-Fixed (λ c. >>=-Fixed 1 0 _ _ get_byte-Fixed (λ d. return-Fixed _))))

get_le-Fixed : (n : ℕ) → Fixed (n + 0) (get_le n)
unfolding get_le
get_le-Fixed zero p h = return-Fixed 0 p h
get_le-Fixed (suc n) p h =
    let step =
      >>=-Fixed 1 (n + 0 + 0) _ _ get_byte-Fixed
        (λ b. >>=-Fixed (n + 0) 0 _ _ (get_le-Fixed n) (λ u. return-Fixed (u * 256 + b))) in
    let (a, q, e, l) = step p (omega arith) in (a, q, e, omega arith)

pub get_i64-Fixed : Fixed 8 get_i64
unfolding get_i64
get_i64-Fixed = >>=-Fixed 8 0 _ _ (get_le-Fixed 8) (λ u. return-Fixed _)
