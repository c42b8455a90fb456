-- ===== src/Algorithms/Ec.antt =====
-- jwt/algorithms/algorithms_ec.py: the class ECAlgorithm.
pub mod Family
pub mod RoundTrip
use refactoring_pyjwt.Prelude.{
  ℕ, Bool, false, not, ◌||◌, Option, none, some, [], ◌∷◌, ◌++◌, ◌==◌, Bytes, length, if◌then◌else◌,
}
use refactoring_pyjwt.Exceptions.{
  Result, ok, err, raise, raise_if, handling, type_error, value_error, attribute_error,
  invalid_key_error, ◌>>=◌, ◌>>◌,
}
use refactoring_pyjwt.Values.{Value, str, Dict, get, has, or_null, equals_str}
use refactoring_pyjwt.Text.{encode_utf8, starts_with}
use refactoring_pyjwt.Utils.Base64.{force_bytes, base64url_decode}
use refactoring_pyjwt.Utils.Integers.{from_bytes}
use refactoring_pyjwt.Utils.Signatures.{der_to_raw_signature, raw_to_der_signature}
use refactoring_pyjwt.Algorithms.Keys.{
  Env, Hash, Curve, key_size, same_curve, Algorithm, CryptoKey, ec_public, ec_private, ecdsa,
  EcPublicNumbers, KeyObject, text, raw, crypto, str_or_bytes,
}
use refactoring_pyjwt.Algorithms.Base.{check_crypto_key_type}
use refactoring_pyjwt.Algorithms.Jwk.{
  parse_jwk_json, serialize_jwk, need_dict, input_of, uint_text, resolve_ec_curve_from_jwk,
  jwk_curve_name,
}
use refactoring_pyjwt.Algorithms.Rsa.{verified}

-- `key.curve`
abbrev pub curve_of : CryptoKey → Option Curve
curve_of (ec_public k) = some k.curve
curve_of (ec_private d k) = some k.curve
curve_of _ = none

abbrev check_curve : Option Curve → Option Curve → Result (Unit {0})
check_curve none curve = ok tt
check_curve (some expected) none = raise attribute_error
check_curve (some expected) (some curve) =
    raise_if (not (same_curve curve expected)) invalid_key_error

unfoldable pub validate_curve : (expected_curve : Option Curve) → CryptoKey → Result (Unit {0})
validate_curve expected key = check_curve expected (curve_of key)

abbrev checked : Env → Algorithm → Option Curve → Result CryptoKey → Result KeyObject
checked env self expected loaded = do
  key ← loaded
  check_crypto_key_type env self key
  validate_curve expected key
  ok (crypto key)

load_key : Env → Algorithm → Option Curve → Bytes → Result KeyObject
load_key env self expected key_bytes =
    handling value_error
      (checked env self expected (env.cryptography.load_pem_private_key key_bytes))
      (checked env self expected (
        if starts_with (encode_utf8 "ecdsa-sha2-") key_bytes
        then env.cryptography.load_ssh_public_key key_bytes
        else env.cryptography.load_pem_public_key key_bytes))

with_bytes : Env → Algorithm → Option Curve → KeyObject → Result KeyObject
unfolding load_key
with_bytes env self expected key = do
  key_bytes ← force_bytes (str_or_bytes key)
  load_key env self expected key_bytes

with_curve : Option Curve → CryptoKey → Result KeyObject
with_curve expected key = do validate_curve expected key; ok (crypto key)

-- `self` is the algorithm object, and `expected` its `expected_curve`.
unfoldable pub prepare_key :
    Env → (self : Algorithm) → (expected : Option Curve) → KeyObject → Result KeyObject
unfolding with_bytes with_curve
prepare_key env self expected (crypto (ec_public k)) = with_curve expected (ec_public k)
prepare_key env self expected (crypto (ec_private d k)) = with_curve expected (ec_private d k)
prepare_key env self expected (text s) = with_bytes env self expected (text s)
prepare_key env self expected (raw b) = with_bytes env self expected (raw b)
prepare_key env self expected _ = raise type_error

-- Only a private key has the method `sign`.
unfoldable pub sign : Env → Hash → (msg : Bytes) → KeyObject → Result Bytes
sign env hash msg (crypto (ec_private d k)) = do
  der_sig ← env.cryptography.sign (ecdsa hash) (ec_private d k) msg
  der_to_raw_signature env.cryptography.dss der_sig (key_size k.curve)
sign env hash msg _ = raise attribute_error

abbrev public_of : Env → CryptoKey → CryptoKey
public_of env (ec_private d k) = env.cryptography.public_key (ec_private d k)
public_of env key = key

verify_raw : Env → Hash → Bytes → CryptoKey → EcPublicNumbers → Bytes → Result Bool
verify_raw env hash msg key numbers sig =
    elim (handling value_error (ok none) (do
      der_sig ← raw_to_der_signature env.cryptography.dss sig (key_size numbers.curve)
      ok (some der_sig))) [
        | err e ↦ err e
        | ok none ↦ ok false
        | ok (some der_sig) ↦
            verified (env.cryptography.verify (ecdsa hash) (public_of env key) der_sig msg)
      ]

unfoldable pub verify : Env → Hash → (msg : Bytes) → KeyObject → (sig : Bytes) → Result Bool
unfolding verify_raw
verify env hash msg (crypto (ec_public k)) sig = verify_raw env hash msg (ec_public k) k sig
verify env hash msg (crypto (ec_private d k)) sig = verify_raw env hash msg (ec_private d k) k sig
verify env hash msg _ sig = raise attribute_error

point_dict : Env → EcPublicNumbers → Result Dict
point_dict env k = do
  crv ← jwk_curve_name env k.curve
  x ← uint_text k.x (some (key_size k.curve))
  y ← uint_text k.y (some (key_size k.curve))
  ok (("kty", str "EC") ∷ ("crv", str crv) ∷ ("x", x) ∷ ("y", y) ∷ [])

unfoldable pub to_jwk : Env → KeyObject → (as_dict : Bool) → Result Value
unfolding point_dict
to_jwk env (crypto (ec_public k)) as_dict = do obj ← point_dict env k; serialize_jwk env obj as_dict
to_jwk env (crypto (ec_private private_value k)) as_dict = do
  obj ← point_dict env k
  d ← uint_text private_value (some (key_size k.curve))
  serialize_jwk env (obj ++ ("d", d) ∷ []) as_dict
to_jwk env _ as_dict = raise invalid_key_error

private_from : Env → Dict → EcPublicNumbers → (x_len : ℕ) → Result KeyObject
private_from env obj numbers x_len = do
  d ← base64url_decode (input_of (or_null (get "d" obj)))
  raise_if (not (length d == x_len)) invalid_key_error
  key ← env.cryptography.ec_private_key (from_bytes d) numbers
  ok (crypto key)

public_from : Env → EcPublicNumbers → Result KeyObject
public_from env numbers = do key ← env.cryptography.ec_public_key numbers; ok (crypto key)

unfoldable pub from_jwk : Env → Value → Result KeyObject
unfolding private_from public_from
from_jwk env jwk = do
  parsed ← parse_jwk_json env jwk
  obj ← need_dict parsed
  raise_if (not (equals_str (or_null (get "kty" obj)) "EC")) invalid_key_error
  raise_if (not (has "x" obj) || not (has "y" obj)) invalid_key_error
  x ← base64url_decode (input_of (or_null (get "x" obj)))
  y ← base64url_decode (input_of (or_null (get "y" obj)))
  curve ← resolve_ec_curve_from_jwk env (or_null (get "crv" obj)) (length x) (length y)
  let numbers : EcPublicNumbers = record { x = from_bytes x; y = from_bytes y; curve = curve }
  if has "d" obj then private_from env obj numbers (length x) else public_from env numbers
