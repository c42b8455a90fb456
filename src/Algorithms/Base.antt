-- ===== src/Algorithms/Base.antt =====
-- jwt/algorithms/algorithms_base.py: what the algorithm classes share.
pub mod Family
use refactoring_pyjwt.Prelude.{Bool, true, false, not, Option, none, some, Bytes}
use refactoring_pyjwt.Exceptions.{
  Result, ok, raise, raise_if, value_error, invalid_key_error, not_implemented_error,
}
use refactoring_pyjwt.Algorithms.Keys.{
  Env, CryptoKey, Hash, Algorithm, hmac_algorithm, rsa_algorithm, rsa_pss_algorithm, ec_algorithm,
  okp_algorithm, rsa_public, rsa_private, ec_public, ec_private, okp_public, okp_private,
}

abbrev pub is_rsa_key : CryptoKey → Bool
is_rsa_key (rsa_public k) = true
is_rsa_key (rsa_private k) = true
is_rsa_key _ = false

abbrev pub is_ec_key : CryptoKey → Bool
is_ec_key (ec_public k) = true
is_ec_key (ec_private d k) = true
is_ec_key _ = false

abbrev pub is_okp_key : CryptoKey → Bool
is_okp_key (okp_public c x) = true
is_okp_key (okp_private c d) = true
is_okp_key _ = false

-- `_crypto_key_types`, as the test that `isinstance` makes with it.
abbrev pub crypto_key_types : Algorithm → Option (CryptoKey → Bool)
crypto_key_types (rsa_algorithm h) = some is_rsa_key
crypto_key_types (rsa_pss_algorithm h) = some is_rsa_key
crypto_key_types (ec_algorithm h c) = some is_ec_key
crypto_key_types okp_algorithm = some is_okp_key
crypto_key_types _ = none

abbrev check_types : Bool → Option (CryptoKey → Bool) → CryptoKey → Result (Unit {0})
check_types false types key = raise value_error
check_types true none key = raise value_error
check_types true (some accepts) key = raise_if (not (accepts key)) invalid_key_error

unfoldable pub check_crypto_key_type : Env → Algorithm → CryptoKey → Result (Unit {0})
check_crypto_key_type env alg key = check_types env.has_crypto (crypto_key_types alg) key

-- `getattr(self, "hash_alg", None)`
abbrev pub hash_alg : Algorithm → Option Hash
hash_alg (hmac_algorithm h) = some h
hash_alg (rsa_algorithm h) = some h
hash_alg (rsa_pss_algorithm h) = some h
hash_alg (ec_algorithm h c) = some h
hash_alg _ = none

unfoldable pub compute_hash_digest : Env → Algorithm → Bytes → Result Bytes
compute_hash_digest env alg bytestr = elim (hash_alg alg) [
  | none ↦ raise not_implemented_error
  | some h ↦ ok (env.hash_digest h bytestr)
]
