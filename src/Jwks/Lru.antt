-- ===== src/Jwks/Lru.antt =====
-- functools.lru_cache, as jwt/jwks_client.py uses it: the entries, the most recently used first.
pub mod History
use refactoring_pyjwt.Prelude.{
  ℕ, Bool, true, false, Option, none, some, List, [], ◌∷◌, take, if◌then◌else◌,
}

pub record Lru {ℓ} (K V : Type ℓ) : Type ℓ where
  pub maxsize : ℕ
  pub entries : List (K × V)

abbrev pub init {ℓ} : {K V : Type ℓ} → ℕ → Lru K V
init maxsize = record { maxsize = maxsize; entries = [] }

-- `same` is the equality of keys.
module _ {ℓ} {K V : Type ℓ} (same : K → K → Bool) where
  unfoldable pub lookup : K → List (K × V) → Option V
  lookup k [] = none
  lookup k ((j, v) ∷ l) = if same j k then some v else lookup k l

  -- No key has two entries.
  unfoldable pub remove : K → List (K × V) → List (K × V)
  remove k [] = []
  remove k ((j, v) ∷ l) = let rest = remove k l in if same j k then l else (j, v) ∷ rest

  -- The entry becomes the most recent one.
  abbrev pub touch : K → V → List (K × V) → List (K × V)
  touch k v l = (k, v) ∷ remove k l

  -- A hit, and the result of a miss: the least recent entry goes where there are too many.
  unfoldable pub hit : K → V → Lru K V → Lru K V
  hit k v c = record c { entries = touch k v c.entries }

  unfoldable pub store : K → V → Lru K V → Lru K V
  store k v c = record c { entries = take c.maxsize ((k, v) ∷ c.entries) }
