-- ===== src/Algorithms/Okp/Family.antt =====
-- Which keys OKPAlgorithm.prepare_key lets through.
use refactoring_pyjwt.Prelude.{Bool, true, false, some, Bytes, ◌≡◌, inl, inr, sym, if◌then◌else◌}
use refactoring_pyjwt.Exceptions.{
  ok, raise, >>=-eq-ok, ok-injective, value_error, invalid_key_error,
}
use refactoring_pyjwt.Exceptions.Inversion.{if-eq-ok}
use refactoring_pyjwt.Text.{encode_utf8, decode_utf8, starts_with, contains}
use refactoring_pyjwt.Algorithms.Keys.{
  Env, Algorithm, KeyObject, text, raw, crypto, no_key, other_object,
}
use refactoring_pyjwt.Algorithms.Base.{is_okp_key, crypto_key_types, check_crypto_key_type}
use refactoring_pyjwt.Algorithms.Base.Family.{IsKeyOf, check_crypto_key_type-eq-ok}
use refactoring_pyjwt.Algorithms.Rsa.Family.{checked-IsKeyOf}
use refactoring_pyjwt.Algorithms.Okp.{load_key, prepare_key}

load_key-IsKeyOf :
    (env : Env) (alg : Algorithm) (b : Bytes) (k : KeyObject)
    → crypto_key_types alg ≡ some is_okp_key
    → load_key env alg b ≡ ok k
    → IsKeyOf is_okp_key k
unfolding load_key
load_key-IsKeyOf env alg b k e h =
    let crypt = env.cryptography in
    let loaded = checked-IsKeyOf env alg is_okp_key in
    elim (if-eq-ok (contains (encode_utf8 "-----BEGIN PUBLIC") b) _ _ h) [
      | inl p ↦ loaded (crypt.load_pem_public_key b) k e p
      | inr other ↦ elim (if-eq-ok (contains (encode_utf8 "-----BEGIN PRIVATE") b) _ _ other) [
        | inl p ↦ loaded (crypt.load_pem_private_key b) k e p
        | inr last ↦ elim (if-eq-ok (starts_with (encode_utf8 "ssh-") b) _ _ last) [
          | inl p ↦ loaded (crypt.load_ssh_public_key b) k e p
          | inr q ↦ cc
        ]
      ]
    ]

no_other :
    (b : Bool) (k : KeyObject)
    → (if b then raise {A = KeyObject} invalid_key_error else raise value_error) ≡ ok k
    → IsKeyOf is_okp_key k
no_other true k h = cc
no_other false k h = cc

pub prepare_key-IsKeyOf :
    (env : Env) (alg : Algorithm) (key k : KeyObject)
    → crypto_key_types alg ≡ some is_okp_key
    → prepare_key env alg key ≡ ok k
    → IsKeyOf is_okp_key k
unfolding prepare_key
prepare_key-IsKeyOf env alg (text s) k e h = load_key-IsKeyOf env alg (encode_utf8 s) k e h
prepare_key-IsKeyOf env alg (raw b) k e h =
    let (s, h1, h2) = >>=-eq-ok (decode_utf8 b) _ h in load_key-IsKeyOf env alg b k e h2
prepare_key-IsKeyOf env alg (crypto key) k e h =
    let (done, h1, h2) = >>=-eq-ok (check_crypto_key_type env alg key) _ h in
    (key, sym (ok-injective h2), check_crypto_key_type-eq-ok env alg is_okp_key key e h1)
prepare_key-IsKeyOf env alg no_key k e h = no_other env.has_crypto k h
prepare_key-IsKeyOf env alg other_object k e h = no_other env.has_crypto k h
