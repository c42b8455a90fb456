-- ===== src/Values/Dicts.antt =====
-- Laws of the operations on dicts.
use refactoring_pyjwt.Prelude.{
  String, Option, none, some, List, [], ◌∷◌, ◌≡◌, refl, false, arith, str_eq, eq_iff, if◌then◌else◌,
}
use refactoring_pyjwt.Values.{get, set, remove, update}

-- `d == e`: the same items, in any order.
abbrev pub SameItems {ℓ} : {A : Type ℓ} → List (String × A) → List (String × A) → Type ℓ
SameItems d e = (k : String) → get k d ≡ get k e

abbrev or_else {ℓ} : {A : Type ℓ} → Option A → Option A → Option A
or_else (some a) o = some a
or_else none o = o

module _ {ℓ} {A : Type ℓ} where
  pub get-set :
      (k j : String) (v : A) (d : List (String × A))
      → get j (set k v d) ≡ (if str_eq k j then some v else get j d)
  unfolding get set
  get-set k j v [] = refl
  get-set k j v ((i, w) ∷ d) = ground (arith, eq_iff k j, eq_iff i k, eq_iff i j, get-set k j v d)

  pub get-remove :
      (k j : String) (d : List (String × A))
      → get j (remove k d) ≡ (if str_eq k j then none else get j d)
  unfolding get remove
  get-remove k j [] = ground arith
  get-remove k j ((i, w) ∷ d) = ground (arith, eq_iff k j, eq_iff i k, eq_iff i j, get-remove k j d)

  -- The later of two dicts wins; in it, the last item of a key does.
  abbrev pub last : String → List (String × A) → Option A
  last k [] = none
  last k ((j, v) ∷ d) = elim (last k d) [
    | some w ↦ some w
    | none ↦ if str_eq j k then some v else none
  ]

  pub get-update :
      (k : String) (d e : List (String × A)) → get k (update d e) ≡ or_else (last k e) (get k d)
  unfolding update
  get-update k d [] = refl
  get-update k d ((j, v) ∷ e) = ground (arith, get-update k (set j v d) e, get-set j k v d)

-- The order of two items with different keys does not matter.
pub swap-SameItems {ℓ} :
    {A : Type ℓ} (j k : String) (v w : A) (d : List (String × A))
    → str_eq j k ≡ false
    → SameItems ((j, v) ∷ (k, w) ∷ d) ((k, w) ∷ (j, v) ∷ d)
unfolding get
swap-SameItems j k v w d h i = ground (arith, eq_iff j i, eq_iff k i, eq_iff j k)

pub cons-SameItems {ℓ} :
    {A : Type ℓ} (k : String) (v : A) (d e : List (String × A))
    → SameItems d e
    → SameItems ((k, v) ∷ d) ((k, v) ∷ e)
unfolding get
cons-SameItems k v d e h i = rw (h i)
