-- ===== src/Base/Dict.antt =====
-- `std::map` and `std::unordered_map` as association lists, and maps of counters as functions.
use Prim.Native.Nat.{ℕ, ◌+◌}
use mathlib.Core.Path.{◌≡◌, refl, sym, subst, ◌∙◌}
use mathlib.Core.Logic.{ite, if_pos, if_neg, ◌≢◌, ◌⊎◌, inl, inr}
use mathlib.Core.List.{List, [], ◌∷◌}
use mathlib.Core.Option.{Option, none, some, some-injective}
use moq_veins_simulation_the.Base.Lists.{All, All-map}
use native.Mathlib.Omega.{arith}

module _ {ℓ} {K V : Type ℓ} (d : Discrete K) where
  -- `m.find(k)`
  unfoldable pub lookup : K → List (K × V) → Option V
  lookup k [] = none
  lookup k ((j, v) ∷ m) = ite (d j k) (some v) (lookup k m)

  -- `m[k] = v`
  unfoldable pub insert : K → V → List (K × V) → List (K × V)
  insert k v [] = (k, v) ∷ []
  insert k v ((j, w) ∷ m) = ite (d j k) ((k, v) ∷ m) ((j, w) ∷ insert k v m)

  -- `m.erase(k)`
  unfoldable pub erase : K → List (K × V) → List (K × V)
  erase k [] = []
  erase k ((j, w) ∷ m) = ite (d j k) (erase k m) ((j, w) ∷ erase k m)

  pub lookup-insert :
      (k j : K) (v : V) (m : List (K × V))
      → lookup j (insert k v m) ≡ ite (d k j) (some v) (lookup j m)
  unfolding lookup insert
  lookup-insert k j v [] = refl
  lookup-insert k j v ((i, w) ∷ m) = ground (arith, lookup-insert k j v m)

  pub lookup-erase :
      (k j : K) (m : List (K × V)) → lookup j (erase k m) ≡ ite (d k j) none (lookup j m)
  unfolding lookup erase
  lookup-erase k j [] = ground arith
  lookup-erase k j ((i, w) ∷ m) = ground (arith, lookup-erase k j m)

  -- The laws by cases.
  pub lookup-insert_absent :
      (k j : K) (v : V) (m : List (K × V))
      → lookup j (insert k v m) ≡ none
      → (k ≢ j) × (lookup j m ≡ none)
  lookup-insert_absent k j v m e =
      let h = sym (lookup-insert k j v m) ∙ e in
      elim (d k j) [
        | yes p ↦ let h' : some v ≡ none = sym (if_pos (d k j) p _ _) ∙ h in absurd (cc)
        | no n ↦ (n, sym (if_neg (d k j) n _ _) ∙ h)
      ]

  pub lookup-insert_present :
      (k j : K) (v w : V) (m : List (K × V))
      → lookup j (insert k v m) ≡ some w
      → ((k ≡ j) × (v ≡ w)) ⊎ ((k ≢ j) × (lookup j m ≡ some w))
  lookup-insert_present k j v w m e =
      let h = sym (lookup-insert k j v m) ∙ e in
      elim (d k j) [
        | yes p ↦ inl (p, some-injective v w (sym (if_pos (d k j) p _ _) ∙ h))
        | no n ↦ inr (n, sym (if_neg (d k j) n _ _) ∙ h)
      ]

  pub lookup-insert_other :
      (k j : K) (v : V) (m : List (K × V)) → k ≢ j → lookup j (insert k v m) ≡ lookup j m
  lookup-insert_other k j v m n = lookup-insert k j v m ∙ if_neg (d k j) n _ _

  pub lookup-insert_same : (k : K) (v : V) (m : List (K × V)) → lookup k (insert k v m) ≡ some v
  lookup-insert_same k v m = lookup-insert k k v m ∙ if_pos (d k k) refl _ _

  pub lookup-erase_present :
      (k j : K) (w : V) (m : List (K × V))
      → lookup j (erase k m) ≡ some w
      → (k ≢ j) × (lookup j m ≡ some w)
  lookup-erase_present k j w m e =
      let h = sym (lookup-erase k j m) ∙ e in
      elim (d k j) [
        | yes p ↦ let h' : none ≡ some w = sym (if_pos (d k j) p _ _) ∙ h in absurd (cc)
        | no n ↦ (n, sym (if_neg (d k j) n _ _) ∙ h)
      ]

  pub lookup-erase_other : (k j : K) (m : List (K × V)) → k ≢ j → lookup j (erase k m) ≡ lookup j m
  lookup-erase_other k j m n = lookup-erase k j m ∙ if_neg (d k j) n _ _

  module _ {κ} (P Q : K × V → Type κ) where
    pub All-erase :
        (k : K) (m : List (K × V))
        → ((j : K) (v : V) → k ≢ j → P (j, v) → Q (j, v))
        → All P m
        → All Q (erase k m)
    unfolding erase
    All-erase k [] f a = tt
    All-erase k ((j, v) ∷ m) f (h, a) = elim (d j k) [
      | yes p ↦
          subst (All Q) (sym (if_pos (d j k) p (erase k m) ((j, v) ∷ erase k m)))
            (All-erase k m f a)
      | no n ↦
          subst (All Q) (sym (if_neg (d j k) n (erase k m) ((j, v) ∷ erase k m)))
            (f j v (λ e. n (sym e)) h, All-erase k m f a)
    ]

    pub All-insert :
        (k : K) (v : V) (m : List (K × V))
        → ((j : K) (w : V) → P (j, w) → Q (j, w))
        → Q (k, v)
        → All P m
        → All Q (insert k v m)
    unfolding insert
    All-insert k v [] f h a = (h, tt)
    All-insert k v ((j, w) ∷ m) f h (hj, a) = elim (d j k) [
      | yes p ↦
          subst (All Q) (sym (if_pos (d j k) p ((k, v) ∷ m) ((j, w) ∷ insert k v m)))
            (h, All-map P (λ e. f e.0 e.1) m a)
      | no n ↦
          subst (All Q) (sym (if_neg (d j k) n ((k, v) ∷ m) ((j, w) ∷ insert k v m)))
            (f j w hj, All-insert k v m f h a)
    ]

  pub lookup-All {κ} :
      (P : K → V → Type κ) (k : K) (v : V) (m : List (K × V))
      → lookup k m ≡ some v
      → All (λ (e : K × V). P e.0 e.1) m
      → P k v
  unfolding lookup
  lookup-All P k v [] e a = absurd (cc)
  lookup-All P k v ((j, w) ∷ m) e (h, a) = elim (d j k) [
    | yes p ↦
        subst (λ (z : K). P z v) p
          (subst (λ (z : V). P j z) (some-injective w v (sym (if_pos (d j k) p _ _) ∙ e)) h)
    | no n ↦ lookup-All P k v m (sym (if_neg (d j k) n _ _) ∙ e) a
  ]

-- `m[k]++` on a map of counters that reads as 0 where there is no entry.
unfoldable pub bump {ℓ} : {K : Type ℓ} → Discrete K → K → (K → ℕ) → K → ℕ
bump d k m j = ite (d k j) (m j + 1) (m j)
