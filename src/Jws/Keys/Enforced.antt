-- ===== src/Jws/Keys/Enforced.antt =====
-- Which keys `_prepare_signing_key` returns where key lengths are enforced.
use refactoring_pyjwt.Prelude.{
  ℕ, ◌≤◌, Bool, true, false, Option, none, some, Bytes, length, ltb, ◌≡◌, refl, sym, ap, ◌∙◌, inl,
  inr, arith, Bool-cases, if◌then◌else◌,
}
use refactoring_pyjwt.Exceptions.{ok, >>=-eq-ok, ok-injective}
use refactoring_pyjwt.Algorithms.Keys.{
  Env, Hash, digest_size, Algorithm, hmac_algorithm, rsa_algorithm, rsa_pss_algorithm,
  custom_algorithm, CryptoKey, KeyObject, raw, crypto, ShortKey,
}
use refactoring_pyjwt.Algorithms.Hmac
use refactoring_pyjwt.Algorithms.Rsa
use refactoring_pyjwt.Algorithms.Rsa.{rsa_key_size, min_key_size}
use refactoring_pyjwt.Algorithms.Base.{is_rsa_key}
use refactoring_pyjwt.Algorithms.Base.Family.{IsKeyOf}
use refactoring_pyjwt.Algorithms.Registry
use refactoring_pyjwt.Algorithms.Registry.Families.{IsSecret, IsKeyFor, prepare_key-IsKeyFor}
use refactoring_pyjwt.Jws.State.{PyJws}
use refactoring_pyjwt.Jws.Keys.{Key, key_object, check_length, prepare_signing_key}

-- An HMAC secret of at least the digest's size, an RSA key of at least 2048 bits, and what the own
-- check_key_length of a custom algorithm lets through.
abbrev pub IsLong : Algorithm → KeyObject → Type 0
IsLong (hmac_algorithm h) key = (b : Bytes) × (key ≡ raw b) × (digest_size h ≤ length b)
IsLong (rsa_algorithm h) key = (k : CryptoKey) × (key ≡ crypto k) × (2048 ≤ rsa_key_size k)
IsLong (rsa_pss_algorithm h) key = (k : CryptoKey) × (key ≡ crypto k) × (2048 ≤ rsa_key_size k)
IsLong (custom_algorithm a) key = a.check_key_length key ≡ none
IsLong _ key = Unit

not_short : (a b : ℕ) (s : ShortKey) → (if ltb a b then some s else none) ≡ none → b ≤ a
not_short a b s h = elim (Bool-cases (ltb a b)) [
  | inl short ↦ let h' = rw short at h in cc
  | inr long ↦ ground arith
]

secret-IsLong :
    (hash : Hash) (key : KeyObject)
    → IsSecret key
    → Registry.check_key_length (hmac_algorithm hash) key ≡ none
    → (b : Bytes) × (key ≡ raw b) × (digest_size hash ≤ length b)
unfolding Registry.check_key_length Hmac.check_key_length
secret-IsLong hash key (b, same, plain) h =
    (b, same, not_short (length b) (digest_size hash) _ (rw same at h))

rsa-IsLong :
    (hash : Hash) (key : KeyObject)
    → IsKeyOf is_rsa_key key
    → Registry.check_key_length (rsa_algorithm hash) key ≡ none
    → (k : CryptoKey) × (key ≡ crypto k) × (2048 ≤ rsa_key_size k)
unfolding Registry.check_key_length Rsa.check_key_length
rsa-IsLong hash key (k, same, family) h =
    (k, same, not_short (rsa_key_size k) 2048 _ (rw same at h))

check_key_length-IsLong :
    (alg : Algorithm) (key : KeyObject)
    → IsKeyFor alg key
    → Registry.check_key_length alg key ≡ none
    → IsLong alg key
unfolding Registry.check_key_length
check_key_length-IsLong (hmac_algorithm hash) key family h = secret-IsLong hash key family h
check_key_length-IsLong (rsa_algorithm hash) key family h = rsa-IsLong hash key family h
check_key_length-IsLong (rsa_pss_algorithm hash) key family h = rsa-IsLong hash key family h
check_key_length-IsLong (custom_algorithm a) key family h = h
check_key_length-IsLong _ key family h = tt

check_length-eq-ok :
    (enforce : Bool) (prepared k : KeyObject) (short : Option ShortKey)
    → (check_length enforce prepared short).0 ≡ ok k
    → (prepared ≡ k) × (enforce ≡ true → short ≡ none)
unfolding check_length
check_length-eq-ok enforce prepared k none h = (ok-injective h, λ on. refl)
check_length-eq-ok true prepared k (some s) h = cc
check_length-eq-ok false prepared k (some s) h = (ok-injective h, λ on. cc)

-- A key of the algorithm's own family, and a long one where lengths are enforced.
pub prepare_signing_key-IsLong :
    (env : Env) (jws : PyJws) (alg : Algorithm) (key : Key) (k : KeyObject)
    → (prepare_signing_key env jws alg key).0 ≡ ok k
    → IsKeyFor alg k × (jws.options.enforce_minimum_key_length ≡ true → IsLong alg k)
unfolding prepare_signing_key
prepare_signing_key-IsLong env jws alg key k h =
    let (prepared, h1, h2) = >>=-eq-ok (Registry.prepare_key env alg (key_object key)) _ h in
    let (same, long) =
      check_length-eq-ok jws.options.enforce_minimum_key_length prepared k
        (Registry.check_key_length alg prepared) h2 in
    let family = prepare_key-IsKeyFor env alg (key_object key) k (h1 ∙ ap ok same) in
    (
      family,
      λ on.
          check_key_length-IsLong alg k family
            (ap (Registry.check_key_length alg) (sym same) ∙ long on),
    )
