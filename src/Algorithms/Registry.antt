-- ===== src/Algorithms/Registry.antt =====
-- jwt/algorithms/__init__.py: the default algorithms; and the methods of an algorithm object, each
-- by the object's class.
pub mod Families
pub mod JwkForms
use refactoring_pyjwt.Prelude.{
  String, Bool, Option, none, some, List, [], ◌∷◌, ◌++◌, Bytes, if◌then◌else◌,
}
use refactoring_pyjwt.Exceptions.{Result, ok, raise, type_error, not_implemented_error}
use refactoring_pyjwt.Values.{Value}
use refactoring_pyjwt.Algorithms.Keys.{
  Env, Hash, sha256, sha384, sha512, secp256r1, secp384r1, secp521r1, secp256k1, Algorithm,
  none_algorithm, hmac_algorithm, rsa_algorithm, rsa_pss_algorithm, ec_algorithm, okp_algorithm,
  custom_algorithm, KeyObject, raw, crypto, ShortKey,
}
use refactoring_pyjwt.Algorithms.Hmac
use refactoring_pyjwt.Algorithms.NoneAlgorithm
use refactoring_pyjwt.Algorithms.Rsa
use refactoring_pyjwt.Algorithms.Ec
use refactoring_pyjwt.Algorithms.Okp

abbrev pub requires_cryptography : List String
requires_cryptography =
    "RS256" ∷ "RS384" ∷ "RS512" ∷ "ES256" ∷ "ES256K" ∷ "ES384" ∷ "ES521" ∷ "ES512" ∷ "PS256"
    ∷ "PS384" ∷ "PS512" ∷ "EdDSA" ∷ []

abbrev base_algorithms : List (String × Algorithm)
base_algorithms =
    ("none", none_algorithm)
    ∷ ("HS256", hmac_algorithm sha256)
    ∷ ("HS384", hmac_algorithm sha384)
    ∷ ("HS512", hmac_algorithm sha512)
    ∷ []

abbrev crypto_algorithms : List (String × Algorithm)
crypto_algorithms =
    ("RS256", rsa_algorithm sha256)
    ∷ ("RS384", rsa_algorithm sha384)
    ∷ ("RS512", rsa_algorithm sha512)
    ∷ ("ES256", ec_algorithm sha256 (some secp256r1))
    ∷ ("ES256K", ec_algorithm sha256 (some secp256k1))
    ∷ ("ES384", ec_algorithm sha384 (some secp384r1))
    ∷ ("ES521", ec_algorithm sha512 (some secp521r1))
    ∷ ("ES512", ec_algorithm sha512 (some secp521r1))
    ∷ ("PS256", rsa_pss_algorithm sha256)
    ∷ ("PS384", rsa_pss_algorithm sha384)
    ∷ ("PS512", rsa_pss_algorithm sha512)
    ∷ ("EdDSA", okp_algorithm)
    ∷ []

-- No name stands in both tables, so `update` appends.
unfoldable pub get_default_algorithms : (has_crypto : Bool) → List (String × Algorithm)
get_default_algorithms has_crypto =
    if has_crypto then base_algorithms ++ crypto_algorithms else base_algorithms

unfoldable pub prepare_key : Env → Algorithm → KeyObject → Result KeyObject
prepare_key env none_algorithm key = NoneAlgorithm.prepare_key key
prepare_key env (hmac_algorithm h) key = Hmac.prepare_key key
prepare_key env (rsa_algorithm h) key = Rsa.prepare_key env (rsa_algorithm h) key
prepare_key env (rsa_pss_algorithm h) key = Rsa.prepare_key env (rsa_pss_algorithm h) key
prepare_key env (ec_algorithm h c) key = Ec.prepare_key env (ec_algorithm h c) c key
prepare_key env okp_algorithm key = Okp.prepare_key env okp_algorithm key
prepare_key env (custom_algorithm a) key = a.prepare_key key

-- `hmac.new` takes the bytes that `prepare_key` returned.
abbrev hmac_sign : Env → Hash → Bytes → KeyObject → Result Bytes
hmac_sign env h msg (raw key) = ok (Hmac.sign env h msg key)
hmac_sign env h msg _ = raise type_error

abbrev hmac_verify : Env → Hash → Bytes → KeyObject → Bytes → Result Bool
hmac_verify env h msg (raw key) sig = ok (Hmac.verify env h msg key sig)
hmac_verify env h msg _ sig = raise type_error

unfoldable pub sign : Env → Algorithm → (msg : Bytes) → KeyObject → Result Bytes
sign env none_algorithm msg key = ok (NoneAlgorithm.sign msg)
sign env (hmac_algorithm h) msg key = hmac_sign env h msg key
sign env (rsa_algorithm h) msg key = Rsa.sign env h msg key
sign env (rsa_pss_algorithm h) msg key = Rsa.sign_pss env h msg key
sign env (ec_algorithm h c) msg key = Ec.sign env h msg key
sign env okp_algorithm msg key = Okp.sign env msg key
sign env (custom_algorithm a) msg key = a.sign msg key

unfoldable pub verify : Env → Algorithm → (msg : Bytes) → KeyObject → (sig : Bytes) → Result Bool
verify env none_algorithm msg key sig = ok (NoneAlgorithm.verify msg sig)
verify env (hmac_algorithm h) msg key sig = hmac_verify env h msg key sig
verify env (rsa_algorithm h) msg key sig = Rsa.verify env h msg key sig
verify env (rsa_pss_algorithm h) msg key sig = Rsa.verify_pss env h msg key sig
verify env (ec_algorithm h c) msg key sig = Ec.verify env h msg key sig
verify env okp_algorithm msg key sig = Okp.verify env msg key sig
verify env (custom_algorithm a) msg key sig = a.verify msg key sig

abbrev hmac_length : Hash → KeyObject → Option ShortKey
hmac_length h (raw key) = Hmac.check_key_length h key
hmac_length h _ = none

abbrev rsa_length : KeyObject → Option ShortKey
rsa_length (crypto key) = Rsa.check_key_length key
rsa_length _ = none

-- Of a key that `prepare_key` returned.
unfoldable pub check_key_length : Algorithm → KeyObject → Option ShortKey
check_key_length (hmac_algorithm h) key = hmac_length h key
check_key_length (rsa_algorithm h) key = rsa_length key
check_key_length (rsa_pss_algorithm h) key = rsa_length key
check_key_length (custom_algorithm a) key = a.check_key_length key
check_key_length _ key = none

-- Only the default algorithms read JWKs.
unfoldable pub from_jwk : Env → Algorithm → Value → Result KeyObject
from_jwk env none_algorithm jwk = NoneAlgorithm.from_jwk jwk
from_jwk env (hmac_algorithm h) jwk = Hmac.from_jwk env jwk
from_jwk env (rsa_algorithm h) jwk = Rsa.from_jwk env jwk
from_jwk env (rsa_pss_algorithm h) jwk = Rsa.from_jwk env jwk
from_jwk env (ec_algorithm h c) jwk = Ec.from_jwk env jwk
from_jwk env okp_algorithm jwk = Okp.from_jwk env jwk
from_jwk env (custom_algorithm a) jwk = raise not_implemented_error

unfoldable pub to_jwk : Env → Algorithm → (key_obj : KeyObject) → (as_dict : Bool) → Result Value
to_jwk env none_algorithm key_obj as_dict = NoneAlgorithm.to_jwk key_obj as_dict
to_jwk env (hmac_algorithm h) key_obj as_dict = Hmac.to_jwk env key_obj as_dict
to_jwk env (rsa_algorithm h) key_obj as_dict = Rsa.to_jwk env key_obj as_dict
to_jwk env (rsa_pss_algorithm h) key_obj as_dict = Rsa.to_jwk env key_obj as_dict
to_jwk env (ec_algorithm h c) key_obj as_dict = Ec.to_jwk env key_obj as_dict
to_jwk env okp_algorithm key_obj as_dict = Okp.to_jwk env key_obj as_dict
to_jwk env (custom_algorithm a) key_obj as_dict = raise not_implemented_error
