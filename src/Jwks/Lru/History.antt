-- ===== src/Jwks/Lru/History.antt =====
-- What the entries are, by the uses of the cache.
use refactoring_pyjwt.Prelude.{
  ℕ, zero, suc, ◌≤◌, Bool, none, some, List, [], ◌∷◌, take, length, arith, ◌≡◌, refl, inl, inr,
  Bool-cases,
}
use refactoring_pyjwt.Jwks.Lru.{lookup, remove, touch}

module _ {ℓ} {K V : Type ℓ} (same : K → K → Bool) where
  -- Of the uses, the latest first, that of each key that was the last one.
  abbrev pub recent : List (K × V) → List (K × V)
  recent [] = []
  recent ((k, v) ∷ uses) = touch same k v (recent uses)

  remove-take-suc :
      (k : K) (m : ℕ) (l : List (K × V)) {v : V}
      → lookup same k (take (suc m) l) ≡ some v
      → remove same k (take (suc m) l) ≡ take m (remove same k l)
  unfolding lookup remove
  remove-take-suc k m [] h = cc
  remove-take-suc k zero ((j, w) ∷ l) h = elim (Bool-cases (same j k)) [
    | inl found ↦ rw (found, remove)
    | inr other ↦ let h' = rw (other, lookup) at h in cc
  ]
  remove-take-suc k (suc m) ((j, w) ∷ l) h = elim (Bool-cases (same j k)) [
    | inl found ↦ rw (found, remove)
    | inr other ↦ rw (other, remove, remove-take-suc k m l (rw (other, lookup) at h))
  ]

  take-take-suc :
      (k : K) (m : ℕ) (l : List (K × V))
      → lookup same k (take (suc m) l) ≡ none
      → take m (take (suc m) l) ≡ take m (remove same k l)
  unfolding lookup remove
  take-take-suc k zero l h = refl
  take-take-suc k (suc m) [] h = refl
  take-take-suc k (suc m) ((j, w) ∷ l) h = elim (Bool-cases (same j k)) [
    | inl found ↦ let h' = rw (found, lookup) at h in cc
    | inr other ↦ rw (other, remove, take-take-suc k m l (rw (other, lookup) at h))
  ]

  -- A hit, on the first `n` entries of a list.
  pub touch-take :
      (k : K) (v : V) (n : ℕ) (l : List (K × V))
      → lookup same k (take n l) ≡ some v
      → touch same k v (take n l) ≡ take n (touch same k v l)
  unfolding lookup
  touch-take k v zero l h = cc
  touch-take k v (suc m) l h = rw (remove-take-suc k m l h)

  -- A miss.
  pub push-take :
      (k : K) (v : V) (n : ℕ) (l : List (K × V))
      → lookup same k (take n l) ≡ none
      → take n ((k, v) ∷ take n l) ≡ take n (touch same k v l)
  push-take k v zero l h = refl
  push-take k v (suc m) l h = rw (take-take-suc k m l h)

pub length_take_le {ℓ} : {A : Type ℓ} (n : ℕ) (l : List A) → length (take n l) ≤ n
length_take_le zero l = omega arith
length_take_le (suc n) [] = omega arith
length_take_le (suc n) (x ∷ l) = omega (arith, length_take_le n l)
