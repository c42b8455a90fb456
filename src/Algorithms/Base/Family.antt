-- ===== src/Algorithms/Base/Family.antt =====
-- Keys of a family, and what the type check of the base class shows.
use refactoring_pyjwt.Prelude.{Bool, true, false, not, some, ◌≡◌, inl, inr, refl, Bool-cases}
use refactoring_pyjwt.Exceptions.{ok, raise_if_lem, invalid_key_error}
use refactoring_pyjwt.Algorithms.Keys.{Env, Algorithm, CryptoKey, KeyObject, crypto}
use refactoring_pyjwt.Algorithms.Base.{crypto_key_types, check_types, check_crypto_key_type}

-- A key of a family.
abbrev pub IsKeyOf : (CryptoKey → Bool) → KeyObject → Type 0
IsKeyOf accepts key = (k : CryptoKey) × (key ≡ crypto k) × (accepts k ≡ true)

not-false : (b : Bool) → not b ≡ false → b ≡ true
not-false true h = refl
not-false false h = cc

pub check_crypto_key_type-eq-ok :
    (env : Env) (alg : Algorithm) (accepts : CryptoKey → Bool) (key : CryptoKey)
    → crypto_key_types alg ≡ some accepts
    → check_crypto_key_type env alg key ≡ ok tt
    → accepts key ≡ true
unfolding check_crypto_key_type
check_crypto_key_type-eq-ok env alg accepts key e h = elim (Bool-cases env.has_crypto) [
  | inl there ↦
      not-false (accepts key)
        ((raise_if_lem (not (accepts key)) invalid_key_error).0 (rw (there, e, check_types) at h))
  | inr missing ↦ let h' = rw (missing, check_types) at h in cc
]
