-- ===== src/Algorithms/Rsa/Family.antt =====
-- Which keys RSAAlgorithm.prepare_key lets through.
use refactoring_pyjwt.Prelude.{Bool, some, Bytes, ◌≡◌, inl, inr, sym, Bool-cases}
use refactoring_pyjwt.Exceptions.{
  Result, ok, catching-eq-ok, >>=-eq-ok, ok-injective, value_error, invalid_key_error,
  unsupported_algorithm,
}
use refactoring_pyjwt.Exceptions.Inversion.{handling-eq-ok, if-eq-ok}
use refactoring_pyjwt.Text.{encode_utf8, starts_with}
use refactoring_pyjwt.Utils.Base64.{force_bytes}
use refactoring_pyjwt.Algorithms.Keys.{
  Env, Algorithm, CryptoKey, KeyObject, text, raw, crypto, str_or_bytes,
}
use refactoring_pyjwt.Algorithms.Base.{is_rsa_key, crypto_key_types, check_crypto_key_type}
use refactoring_pyjwt.Algorithms.Base.Family.{IsKeyOf, check_crypto_key_type-eq-ok}
use refactoring_pyjwt.Algorithms.Rsa.{checked, load_key, prepare_key}

pub checked-IsKeyOf :
    (env : Env) (alg : Algorithm) (accepts : CryptoKey → Bool) (loaded : Result CryptoKey)
    (k : KeyObject)
    → crypto_key_types alg ≡ some accepts
    → checked env alg loaded ≡ ok k
    → IsKeyOf accepts k
checked-IsKeyOf env alg accepts loaded k e h =
    let (key, h1, h2) = >>=-eq-ok loaded _ h in
    let (done, h3, h4) = >>=-eq-ok (check_crypto_key_type env alg key) _ h2 in
    (key, sym (ok-injective h4), check_crypto_key_type-eq-ok env alg accepts key e h3)

load_key-IsKeyOf :
    (env : Env) (alg : Algorithm) (b : Bytes) (k : KeyObject)
    → crypto_key_types alg ≡ some is_rsa_key
    → load_key env alg b ≡ ok k
    → IsKeyOf is_rsa_key k
unfolding load_key
load_key-IsKeyOf env alg b k e h =
    let crypt = env.cryptography in
    let ssh = checked env alg (crypt.load_ssh_public_key b) in
    let pem = checked env alg (crypt.load_pem_private_key b) in
    let loaded = checked-IsKeyOf env alg is_rsa_key in
    elim (handling-eq-ok value_error _ _ h) [
      | inl first ↦ elim (if-eq-ok (starts_with (encode_utf8 "ssh-rsa") b) ssh pem first) [
        | inl p ↦ loaded (crypt.load_ssh_public_key b) k e p
        | inr p ↦ loaded (crypt.load_pem_private_key b) k e p
      ]
      | inr second ↦ loaded (crypt.load_pem_public_key b) k e (
          catching-eq-ok value_error invalid_key_error _
            (catching-eq-ok unsupported_algorithm invalid_key_error _ second))
    ]

pub prepare_key-IsKeyOf :
    (env : Env) (alg : Algorithm) (key k : KeyObject)
    → crypto_key_types alg ≡ some is_rsa_key
    → prepare_key env alg key ≡ ok k
    → IsKeyOf is_rsa_key k
unfolding prepare_key
prepare_key-IsKeyOf env alg (crypto key) k e h = elim (Bool-cases (is_rsa_key key)) [
  | inl good ↦ (key, sym (ok-injective (rw (good, prepare_key) at h)), good)
  | inr bad ↦ let h' = rw (bad, prepare_key) at h in cc
]
prepare_key-IsKeyOf env alg (text s) k e h =
    let (b, h1, h2) = >>=-eq-ok (force_bytes (str_or_bytes (text s))) _ h in
    load_key-IsKeyOf env alg b k e h2
prepare_key-IsKeyOf env alg (raw s) k e h =
    let (b, h1, h2) = >>=-eq-ok (force_bytes (str_or_bytes (raw s))) _ h in
    load_key-IsKeyOf env alg b k e h2
prepare_key-IsKeyOf env alg _ k e h = cc
