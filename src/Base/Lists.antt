-- ===== src/Base/Lists.antt =====
-- Lists measured and cut by native numbers, under the library's names.
use Prim.Native.Nat.{ℕ, zero, suc, ◌+◌, ◌-◌, ◌≤◌, ◌<◌, min}
use mathlib.Core.Path.{◌≡◌, refl, ap}
use mathlib.Core.List.{List, [], ◌∷◌, ◌++◌}
use mathlib.Core.Option.{Option, none, some}
use mathlib.Core.Bool.{Bool, true, false}
use moq_veins_simulation_the.Base.Tests.{◌==◌, if◌then◌else◌}
use native.Mathlib.Omega.{arith}

module _ {ℓ} {A : Type ℓ} where
  abbrev pub length : List A → ℕ
  length [] = 0
  length (x ∷ xs) = suc (length xs)

  abbrev pub take : ℕ → List A → List A
  take zero xs = []
  take (suc n) [] = []
  take (suc n) (x ∷ xs) = x ∷ take n xs

  abbrev pub drop : ℕ → List A → List A
  drop zero xs = xs
  drop (suc n) [] = []
  drop (suc n) (x ∷ xs) = drop n xs

  abbrev pub replicate : ℕ → A → List A
  replicate zero a = []
  replicate (suc n) a = a ∷ replicate n a

  -- A predicate of every element, by recursion: it computes to a tuple.
  abbrev pub All {κ} : (A → Type κ) → List A → Type κ
  All P [] = Unit {κ}
  All P (x ∷ xs) = P x × All P xs

  pub length-append : (xs ys : List A) → length (xs ++ ys) ≡ length xs + length ys
  length-append [] ys = omega arith
  length-append (x ∷ xs) ys = omega (arith, length-append xs ys)

  pub take-append-drop : (n : ℕ) (xs : List A) → take n xs ++ drop n xs ≡ xs
  take-append-drop zero xs = refl
  take-append-drop (suc n) [] = refl
  take-append-drop (suc n) (x ∷ xs) = ap (◌∷◌ x) (take-append-drop n xs)

  pub length-take : (n : ℕ) (xs : List A) → length (take n xs) ≡ min n (length xs)
  length-take zero xs = omega arith
  length-take (suc n) [] = omega arith
  length-take (suc n) (x ∷ xs) = omega (arith, length-take n xs)

  pub length-drop : (n : ℕ) (xs : List A) → length (drop n xs) ≡ length xs - n
  length-drop zero xs = omega arith
  length-drop (suc n) [] = omega arith
  length-drop (suc n) (x ∷ xs) = omega (arith, length-drop n xs)

  pub length-replicate : (n : ℕ) (a : A) → length (replicate n a) ≡ n
  length-replicate zero a = refl
  length-replicate (suc n) a = ap suc (length-replicate n a)

  -- A cut at the seam of two lists.
  pub take-append : (xs ys : List A) → take (length xs) (xs ++ ys) ≡ xs
  take-append [] ys = refl
  take-append (x ∷ xs) ys = ap (◌∷◌ x) (take-append xs ys)

  pub drop-append : (xs ys : List A) → drop (length xs) (xs ++ ys) ≡ ys
  drop-append [] ys = refl
  drop-append (x ∷ xs) ys = drop-append xs ys

  -- A cut inside the first of two lists.
  pub take-append_le : (n : ℕ) (xs ys : List A) → n ≤ length xs → take n (xs ++ ys) ≡ take n xs
  take-append_le zero xs ys h = refl
  take-append_le (suc n) [] ys h = absurd (omega arith)
  take-append_le (suc n) (x ∷ xs) ys h = ap (◌∷◌ x) (take-append_le n xs ys (omega arith))

  pub drop-append_le :
      (n : ℕ) (xs ys : List A) → n ≤ length xs → drop n (xs ++ ys) ≡ drop n xs ++ ys
  drop-append_le zero xs ys h = refl
  drop-append_le (suc n) [] ys h = absurd (omega arith)
  drop-append_le (suc n) (x ∷ xs) ys h = drop-append_le n xs ys (omega arith)

module _ {ℓ κ} {A : Type ℓ} (P : A → Type κ) where
  pub All-append : (xs ys : List A) → All P xs → All P ys → All P (xs ++ ys)
  All-append [] ys hx hy = hy
  All-append (x ∷ xs) ys hx hy = (hx.0, All-append xs ys hx.1 hy)

  pub All-split : (xs ys : List A) → All P (xs ++ ys) → All P xs × All P ys
  All-split [] ys h = (tt, h)
  All-split (x ∷ xs) ys h = let (hx, hy) = All-split xs ys h.1 in ((h.0, hx), hy)

  pub All-map : {Q : A → Type κ} → ((a : A) → P a → Q a) → (xs : List A) → All P xs → All Q xs
  All-map f [] h = tt
  All-map f (x ∷ xs) h = (f x h.0, All-map f xs h.1)

module _ {ℓ} {A : Type ℓ} where
  abbrev pub get_elem? : List A → ℕ → Option A
  get_elem? [] i = none
  get_elem? (x ∷ xs) zero = some x
  get_elem? (x ∷ xs) (suc i) = get_elem? xs i

  -- A write out of bounds changes nothing.
  abbrev pub set : List A → ℕ → A → List A
  set [] i v = []
  set (x ∷ xs) zero v = v ∷ xs
  set (x ∷ xs) (suc i) v = x ∷ set xs i v

  pub length-set : (xs : List A) (i : ℕ) (v : A) → length (set xs i v) ≡ length xs
  length-set [] i v = refl
  length-set (x ∷ xs) zero v = refl
  length-set (x ∷ xs) (suc i) v = ap suc (length-set xs i v)

  -- Lists of one length that agree at every index are equal.
  pub get_elem?-ext :
      (xs ys : List A)
      → length xs ≡ length ys
      → ((i : ℕ) → i < length xs → get_elem? xs i ≡ get_elem? ys i)
      → xs ≡ ys
  get_elem?-ext [] [] h e = refl
  get_elem?-ext [] (y ∷ ys) h e = absurd (omega arith)
  get_elem?-ext (x ∷ xs) [] h e = absurd (omega arith)
  get_elem?-ext (x ∷ xs) (y ∷ ys) h e = ground (
    arith,
    e 0 (omega arith),
    get_elem?-ext xs ys (omega arith) (λ i hi. e (suc i) (omega arith)),
  )

  pub get_elem?-drop :
      (n : ℕ) (xs : List A) (i : ℕ) → get_elem? (drop n xs) i ≡ get_elem? xs (n + i)
  get_elem?-drop zero xs i = let e : 0 + i ≡ i = omega arith in rw e
  get_elem?-drop (suc n) [] i = refl
  get_elem?-drop (suc n) (x ∷ xs) i =
      let e : suc n + i ≡ suc (n + i) = omega arith in rw e (get_elem?-drop n xs i)

  pub get_elem?-take :
      (n : ℕ) (xs : List A) (i : ℕ) → i < n → get_elem? (take n xs) i ≡ get_elem? xs i
  get_elem?-take zero xs i h = absurd (omega arith)
  get_elem?-take (suc n) [] i h = refl
  get_elem?-take (suc n) (x ∷ xs) zero h = refl
  get_elem?-take (suc n) (x ∷ xs) (suc i) h = get_elem?-take n xs i (omega arith)

  -- `std::copy(cs.begin(), cs.end(), xs.begin() + off)`, for a target that is long enough.
  abbrev pub copy_at : ℕ → List A → List A → List A
  copy_at off cs [] = []
  copy_at zero [] (x ∷ xs) = x ∷ xs
  copy_at zero (c ∷ cs) (x ∷ xs) = c ∷ copy_at zero cs xs
  copy_at (suc off) cs (x ∷ xs) = x ∷ copy_at off cs xs

  pub length-copy_at : (off : ℕ) (cs xs : List A) → length (copy_at off cs xs) ≡ length xs
  length-copy_at off cs [] = refl
  length-copy_at zero [] (x ∷ xs) = refl
  length-copy_at zero (c ∷ cs) (x ∷ xs) = ap suc (length-copy_at zero cs xs)
  length-copy_at (suc off) cs (x ∷ xs) = ap suc (length-copy_at off cs xs)

  pub get_elem?-copy_at_before :
      (off : ℕ) (cs xs : List A) (i : ℕ)
      → i < off
      → get_elem? (copy_at off cs xs) i ≡ get_elem? xs i
  get_elem?-copy_at_before off cs [] i h = refl
  get_elem?-copy_at_before zero [] (x ∷ xs) i h = refl
  get_elem?-copy_at_before zero (c ∷ cs) (x ∷ xs) i h = absurd (omega arith)
  get_elem?-copy_at_before (suc off) cs (x ∷ xs) zero h = refl
  get_elem?-copy_at_before (suc off) cs (x ∷ xs) (suc i) h =
      get_elem?-copy_at_before off cs xs i (omega arith)

  pub get_elem?-copy_at_after :
      (off : ℕ) (cs xs : List A) (i : ℕ)
      → off + length cs ≤ i
      → get_elem? (copy_at off cs xs) i ≡ get_elem? xs i
  get_elem?-copy_at_after off cs [] i h = refl
  get_elem?-copy_at_after zero [] (x ∷ xs) i h = refl
  get_elem?-copy_at_after zero (c ∷ cs) (x ∷ xs) zero h = absurd (omega arith)
  get_elem?-copy_at_after zero (c ∷ cs) (x ∷ xs) (suc i) h =
      get_elem?-copy_at_after zero cs xs i (omega arith)
  get_elem?-copy_at_after (suc off) cs (x ∷ xs) zero h = absurd (omega arith)
  get_elem?-copy_at_after (suc off) cs (x ∷ xs) (suc i) h =
      get_elem?-copy_at_after off cs xs i (omega arith)

  pub get_elem?-copy_at :
      (off : ℕ) (cs xs : List A) (i : ℕ)
      → off + length cs ≤ length xs
      → i < length cs
      → get_elem? (copy_at off cs xs) (off + i) ≡ get_elem? cs i
  get_elem?-copy_at off [] xs i h hi = absurd (omega arith)
  get_elem?-copy_at off (c ∷ cs) [] i h hi = absurd (omega arith)
  get_elem?-copy_at zero (c ∷ cs) (x ∷ xs) zero h hi = refl
  get_elem?-copy_at zero (c ∷ cs) (x ∷ xs) (suc i) h hi =
      let e : 0 + suc i ≡ suc (0 + i) = omega arith in
      rw e (get_elem?-copy_at zero cs xs i (omega arith) (omega arith))
  get_elem?-copy_at (suc off) (c ∷ cs) (x ∷ xs) i h hi =
      let e : suc off + i ≡ suc (off + i) = omega arith in
      rw e (get_elem?-copy_at off (c ∷ cs) xs i (omega arith) hi)

-- The flags of a bit vector that are set.
abbrev pub count_true : List Bool → ℕ
count_true [] = 0
count_true (true ∷ bs) = suc (count_true bs)
count_true (false ∷ bs) = count_true bs

pub count_true-le : (bs : List Bool) → count_true bs ≤ length bs
count_true-le [] = omega arith
count_true-le (true ∷ bs) = omega (arith, count_true-le bs)
count_true-le (false ∷ bs) = omega (arith, count_true-le bs)

pub count_true-set :
    (bs : List Bool) (i : ℕ)
    → get_elem? bs i ≡ some false
    → count_true (set bs i true) ≡ suc (count_true bs)
count_true-set [] i h = absurd (cc)
count_true-set (true ∷ bs) zero h = absurd (cc)
count_true-set (false ∷ bs) zero h = refl
count_true-set (true ∷ bs) (suc i) h = ap suc (count_true-set bs i h)
count_true-set (false ∷ bs) (suc i) h = count_true-set bs i h

-- All flags are set when as many are set as there are.
pub count_true_full :
    (bs : List Bool) (i : ℕ)
    → count_true bs ≡ length bs
    → i < length bs
    → get_elem? bs i ≡ some true
count_true_full [] i h hi = absurd (omega arith)
count_true_full (true ∷ bs) zero h hi = refl
count_true_full (true ∷ bs) (suc i) h hi = count_true_full bs i (omega arith) (omega arith)
count_true_full (false ∷ bs) i h hi = absurd (omega (arith, count_true-le bs))

pub get_elem?-set {ℓ} :
    {A : Type ℓ} (xs : List A) (i j : ℕ) (v : A)
    → i < length xs
    → get_elem? (set xs i v) j ≡ (if i == j then some v else get_elem? xs j)
get_elem?-set [] i j v h = absurd (omega arith)
get_elem?-set (x ∷ xs) zero zero v h = refl
get_elem?-set (x ∷ xs) zero (suc j) v h = ground arith
get_elem?-set (x ∷ xs) (suc i) zero v h = ground arith
get_elem?-set (x ∷ xs) (suc i) (suc j) v h = ground (arith, get_elem?-set xs i j v)
