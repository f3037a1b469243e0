-- ===== src/Broker/Sets.antt =====
-- `std::set<int>` as the ascending list of its elements, which is the order of its iterators.
use moq_veins_simulation_the.Base.{
  ℕ, ◌<◌, ◌≡◌, refl, arith, Bool, false, ◌||◌, List, [], ◌∷◌, ltb, ◌==◌, if◌then◌else◌, All,
}

-- `count(n) > 0`
unfoldable pub set_has : ℕ → List ℕ → Bool
set_has n [] = false
set_has n (x ∷ xs) = n == x || set_has n xs

-- `insert(n)`
unfoldable pub set_insert : ℕ → List ℕ → List ℕ
set_insert n [] = n ∷ []
set_insert n (x ∷ xs) =
    let rest = set_insert n xs in
    if n == x then x ∷ xs else if ltb n x then n ∷ x ∷ xs else x ∷ rest

-- `erase(n)`
unfoldable pub set_erase : ℕ → List ℕ → List ℕ
set_erase n [] = []
set_erase n (x ∷ xs) = let rest = set_erase n xs in if n == x then rest else x ∷ rest

pub set_has-set_insert :
    (n j : ℕ) (xs : List ℕ) → set_has j (set_insert n xs) ≡ (j == n || set_has j xs)
unfolding set_has set_insert
set_has-set_insert n j [] = refl
set_has-set_insert n j (x ∷ xs) = ground (arith, set_has-set_insert n j xs)

pub set_has-set_erase :
    (n j : ℕ) (xs : List ℕ) → set_has j (set_erase n xs) ≡ (if j == n then false else set_has j xs)
unfolding set_has set_erase
set_has-set_erase n j [] = ground arith
set_has-set_erase n j (x ∷ xs) = ground (arith, set_has-set_erase n j xs)

-- The elements ascend, so that none is there twice.
unfoldable pub Ascending : List ℕ → Type 0
Ascending [] = Unit
Ascending (x ∷ xs) = All (λ y. x < y) xs × Ascending xs
