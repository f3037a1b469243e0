-- ===== src/MqttFraming/Words.antt =====
-- The big-endian integers, strings and Variable Byte Integers of models/MqttFraming.h.
use moq_veins_simulation_the.Base.{
  ℕ, zero, suc, ◌+◌, ◌*◌, ◌/◌, ◌%◌, ◌^◌, ◌≤◌, ◌<◌, ◌≡◌, refl, ◌∙◌, [], ◌∷◌, ◌++◌, none, some, arith,
  length, ℤ, IsI64, to_u64, of_u64, to_u64-lt, of_u64-to_u64, ltb, if◌then◌else◌, if_both,
}
use moq_veins_simulation_the.Reader.{
  Bytes, Reader, ◌>>=◌, return, get_bytes, get_bytes-append, bind_step, Reads, >>=-Reads, get_byte,
  get_byte-Reads, return-Reads, Reads-weaken,
}

unfoldable pub put_u16 : ℕ → Bytes
put_u16 v = v / 2 ^ 8 % 256 ∷ v % 256 ∷ []

unfoldable pub put_u32 : ℕ → Bytes
put_u32 v = v / 2 ^ 24 % 256 ∷ v / 2 ^ 16 % 256 ∷ v / 2 ^ 8 % 256 ∷ v % 256 ∷ []

-- `for (int i = n - 1; i >= 0; i--) b.push_back((u >> (i * 8)) & 0xff)`
unfoldable pub put_be : ℕ → ℕ → Bytes
put_be zero u = []
put_be (suc i) u = (u / 256 ^ i % 256) ∷ put_be i u

unfoldable pub put_i64 : ℤ → Bytes
unfolding put_be
put_i64 v = put_be 8 (to_u64 v)

unfoldable pub put_string : Bytes → Bytes
unfolding put_u16
put_string s = put_u16 (length s % 2 ^ 16) ++ s

-- The do loop of putVarInt. Five rounds are enough for 32 bits.
unfoldable pub put_var_loop : ℕ → ℕ → Bytes
put_var_loop zero v = []
put_var_loop (suc n) v =
    let more = put_var_loop n (v / 128) in
    if ltb 0 (v / 128) then (v % 128 + 128) ∷ more else v % 128 ∷ []

unfoldable pub put_var_int : ℕ → Bytes
unfolding put_var_loop
put_var_int v = put_var_loop 5 v

-- varIntSize, a do loop too.
unfoldable pub var_int_loop : ℕ → ℕ → ℕ
var_int_loop zero v = 0
var_int_loop (suc n) v =
    let more = var_int_loop n (v / 128) in if ltb 0 (v / 128) then 1 + more else 1

unfoldable pub var_int_size : ℕ → ℕ
unfolding var_int_loop
var_int_size v = var_int_loop 5 v

unfoldable pub get_u16 : Reader ℕ
get_u16 = do a ← get_byte; b ← get_byte; return (a * 2 ^ 8 + b)

unfoldable pub get_u32 : Reader ℕ
get_u32 = do
  a ← get_byte
  b ← get_byte
  c ← get_byte
  d ← get_byte
  return (a * 2 ^ 24 + b * 2 ^ 16 + c * 2 ^ 8 + d)

-- `u = (u << 8) | p[i]`, `n` times.
unfoldable pub get_be : ℕ → ℕ → Reader ℕ
get_be zero u = return u
get_be (suc n) u = do b ← get_byte; get_be n (u * 256 + b)

unfoldable pub get_i64 : Reader ℤ
get_i64 = do u ← get_be 8 0; return (of_u64 u)

unfoldable pub get_string : Reader Bytes
get_string = do n ← get_u16; get_bytes n

-- getVarInt: `none` where it returns false, with no byte left or after four bytes that continue.
unfoldable pub get_var_loop : ℕ → ℕ → ℕ → Reader ℕ
get_var_loop zero multiplier out = λ p. none
get_var_loop (suc n) multiplier out = do
  byte ← get_byte
  let out' = out + byte % 128 * multiplier
  if ltb byte 128 then return out' else get_var_loop n (multiplier * 128) out'

unfoldable pub get_var_int : Reader ℕ
get_var_int = get_var_loop 4 1 0

pub get_u16-put_u16 : (v : ℕ) (p : Bytes) → v < 2 ^ 16 → get_u16 (put_u16 v ++ p) ≡ some (v, p)
unfolding get_u16 put_u16 get_byte return ◌>>=◌
get_u16-put_u16 v p h = ground arith

pub get_u32-put_u32 : (v : ℕ) (p : Bytes) → v < 2 ^ 32 → get_u32 (put_u32 v ++ p) ≡ some (v, p)
unfolding get_u32 put_u32 get_byte return ◌>>=◌
get_u32-put_u32 v p h = ground arith

get_be-put_be : (u : ℕ) (p : Bytes) → u < 2 ^ 64 → get_be 8 0 (put_be 8 u ++ p) ≡ some (u, p)
unfolding get_be put_be get_byte return ◌>>=◌
get_be-put_be u p h = ground arith

pub get_i64-put_i64 : (z : ℤ) (p : Bytes) → IsI64 z → get_i64 (put_i64 z ++ p) ≡ some (z, p)
unfolding get_i64 put_i64 return ◌>>=◌
get_i64-put_i64 z p h = ground (arith, get_be-put_be (to_u64 z) p (to_u64-lt z), of_u64-to_u64 z h)

pub get_string-put_string :
    (s p : Bytes) → length s < 2 ^ 16 → get_string (put_string s ++ p) ≡ some (s, p)
unfolding get_string put_string put_u16
get_string-put_string s p h =
    let fits : length s % 2 ^ 16 ≡ length s = omega arith in
    rw fits (
      bind_step get_u16 get_bytes _ _ (length s) (get_u16-put_u16 (length s) (s ++ p) h)
      ∙ get_bytes-append s p)

length-put_var_loop : (n v : ℕ) → length (put_var_loop n v) ≡ var_int_loop n v
unfolding put_var_loop var_int_loop
length-put_var_loop zero v = refl
length-put_var_loop (suc n) v = ground (arith, length-put_var_loop n (v / 128))

-- The size that is reckoned with is the size that is written.
pub length-put_var_int : (v : ℕ) → length (put_var_int v) ≡ var_int_size v
unfolding put_var_int var_int_size
length-put_var_int v = length-put_var_loop 5 v

-- A Variable Byte Integer holds 28 bits.
pub get_var_int-put_var_int :
    (v : ℕ) (p : Bytes) → v < 2 ^ 28 → get_var_int (put_var_int v ++ p) ≡ some (v, p)
unfolding get_var_int get_var_loop put_var_int put_var_loop get_byte return ◌>>=◌
get_var_int-put_var_int v p h = ground arith

-- A value of 2^28 or more is written as a Variable Byte Integer that is never read back.
pub get_var_int_too_large :
    (v : ℕ) (p : Bytes) → 2 ^ 28 ≤ v → v < 2 ^ 32 → get_var_int (put_var_int v ++ p) ≡ none
unfolding get_var_int get_var_loop put_var_int put_var_loop get_byte return ◌>>=◌
get_var_int_too_large v p h l = ground arith

-- A read of what was written hands the value to the reader that follows.
module _ {ℓ} {A : Type ℓ} where
  pub get_i64-then :
      (z : ℤ) (f : ℤ → Reader A) (p : Bytes) → IsI64 z → (get_i64 >>= f) (put_i64 z ++ p) ≡ f z p
  get_i64-then z f p h = bind_step get_i64 f _ p z (get_i64-put_i64 z p h)

  pub get_u16-then :
      (v : ℕ) (f : ℕ → Reader A) (p : Bytes) → v < 2 ^ 16 → (get_u16 >>= f) (put_u16 v ++ p) ≡ f v p
  get_u16-then v f p h = bind_step get_u16 f _ p v (get_u16-put_u16 v p h)

  pub get_u32-then :
      (v : ℕ) (f : ℕ → Reader A) (p : Bytes) → v < 2 ^ 32 → (get_u32 >>= f) (put_u32 v ++ p) ≡ f v p
  get_u32-then v f p h = bind_step get_u32 f _ p v (get_u32-put_u32 v p h)

  pub get_string-then :
      (s : Bytes) (f : Bytes → Reader A) (p : Bytes)
      → length s < 2 ^ 16
      → (get_string >>= f) (put_string s ++ p) ≡ f s p
  get_string-then s f p h = bind_step get_string f _ p s (get_string-put_string s p h)

  pub get_var_int-then :
      (v : ℕ) (f : ℕ → Reader A) (p : Bytes)
      → v < 2 ^ 28
      → (get_var_int >>= f) (put_var_int v ++ p) ≡ f v p
  get_var_int-then v f p h = bind_step get_var_int f _ p v (get_var_int-put_var_int v p h)

get_var_loop-Reads : (n mul out : ℕ) → Reads 0 (get_var_loop n mul out)
unfolding get_var_loop
get_var_loop-Reads zero mul out = record { takes = λ p q a e. cc; stable = λ p q more a e. cc }
get_var_loop-Reads (suc n) mul out = Reads-weaken 0 1 _ (omega arith) (
    >>=-Reads 1 0 _ _ get_byte-Reads (λ b.
      if_both (Reads 0) (ltb b 128) _ _ (return-Reads _)
        (get_var_loop-Reads n (mul * 128) (out + b % 128 * mul))))

pub get_var_int-Reads : Reads 0 get_var_int
unfolding get_var_int
get_var_int-Reads = get_var_loop-Reads 4 1 0
