-- ===== src/Algorithms/Okp.antt =====
-- jwt/algorithms/algorithms_okp.py: the class OKPAlgorithm.
pub mod Family
pub mod RoundTrip
use refactoring_pyjwt.Prelude.{String, Bool, not, [], ◌∷◌, Bytes, if◌then◌else◌}
use refactoring_pyjwt.Exceptions.{
  Result, ok, raise, raise_if, catching, value_error, attribute_error, invalid_key_error, ◌>>=◌,
  ◌>>◌,
}
use refactoring_pyjwt.Values.{Value, str, Dict, get, has, or_null, equals_str}
use refactoring_pyjwt.Text.{encode_utf8, decode_utf8, starts_with, contains}
use refactoring_pyjwt.Utils.Base64.{base64url_decode}
use refactoring_pyjwt.Algorithms.Keys.{
  Env, Algorithm, CryptoKey, okp_public, okp_private, eddsa, EdwardsCurve, ed25519, ed448,
  KeyObject, text, raw, crypto,
}
use refactoring_pyjwt.Algorithms.Base.{check_crypto_key_type}
use refactoring_pyjwt.Algorithms.Jwk.{
  parse_jwk_json, serialize_jwk, need_dict, input_of, bytes_text,
}
use refactoring_pyjwt.Algorithms.Rsa.{verified, checked}

-- The tests on `key_str` are made on its UTF-8, where an ASCII text occurs just where it occurs in
-- the text itself.
load_key : Env → Algorithm → Bytes → Result KeyObject
load_key env self key_bytes =
    if contains (encode_utf8 "-----BEGIN PUBLIC") key_bytes
    then checked env self (env.cryptography.load_pem_public_key key_bytes)
    else if contains (encode_utf8 "-----BEGIN PRIVATE") key_bytes
    then checked env self (env.cryptography.load_pem_private_key key_bytes)
    else if starts_with (encode_utf8 "ssh-") key_bytes
    then checked env self (env.cryptography.load_ssh_public_key key_bytes)
    else raise invalid_key_error

-- A `bytes` key must decode; any object but a text is given to the type check, which refuses what
-- is no key of the family.
unfoldable pub prepare_key : Env → (self : Algorithm) → KeyObject → Result KeyObject
unfolding load_key
prepare_key env self (text s) = load_key env self (encode_utf8 s)
prepare_key env self (raw b) = do key_str ← decode_utf8 b; load_key env self b
prepare_key env self (crypto key) = do check_crypto_key_type env self key; ok (crypto key)
prepare_key env self _ = if env.has_crypto then raise invalid_key_error else raise value_error

-- Only a private key has the method `sign`.
unfoldable pub sign : Env → (msg : Bytes) → KeyObject → Result Bytes
sign env msg (crypto (okp_private c d)) = env.cryptography.sign eddsa (okp_private c d) msg
sign env msg _ = raise attribute_error

unfoldable pub verify : Env → (msg : Bytes) → KeyObject → (sig : Bytes) → Result Bool
verify env msg (crypto (okp_private c d)) sig =
    verified (env.cryptography.verify eddsa (env.cryptography.public_key (okp_private c d)) sig msg)
verify env msg (crypto (okp_public c x)) sig =
    verified (env.cryptography.verify eddsa (okp_public c x) sig msg)
verify env msg _ sig = raise attribute_error

abbrev pub curve_name : EdwardsCurve → String
curve_name ed25519 = "Ed25519"
curve_name ed448 = "Ed448"

-- `key.public_bytes(…)` of an Edwards curve's public key
abbrev public_bytes : CryptoKey → Result Bytes
public_bytes (okp_public c x) = ok x
public_bytes _ = raise attribute_error

unfoldable pub to_jwk : Env → KeyObject → (as_dict : Bool) → Result Value
to_jwk env (crypto (okp_public c x)) as_dict = do
  x_text ← bytes_text x
  serialize_jwk env (("x", x_text) ∷ ("kty", str "OKP") ∷ ("crv", str (curve_name c)) ∷ []) as_dict
to_jwk env (crypto (okp_private c d)) as_dict = do
  x ← public_bytes (env.cryptography.public_key (okp_private c d))
  x_text ← bytes_text x
  d_text ← bytes_text d
  serialize_jwk env
      (("x", x_text) ∷ ("d", d_text) ∷ ("kty", str "OKP") ∷ ("crv", str (curve_name c)) ∷ [])
      as_dict
to_jwk env _ as_dict = raise invalid_key_error

abbrev curve_named : Value → Result EdwardsCurve
curve_named v =
    if equals_str v "Ed25519"
    then ok ed25519
    else if equals_str v "Ed448"
    then ok ed448
    else raise invalid_key_error

public_from : Env → EdwardsCurve → Bytes → Result KeyObject
public_from env curve x = do key ← env.cryptography.from_public_bytes curve x; ok (crypto key)

private_from : Env → EdwardsCurve → Dict → Result KeyObject
private_from env curve obj = do
  d ← base64url_decode (input_of (or_null (get "d" obj)))
  key ← env.cryptography.from_private_bytes curve d
  ok (crypto key)

unfoldable pub from_jwk : Env → Value → Result KeyObject
unfolding public_from private_from
from_jwk env jwk = do
  parsed ← parse_jwk_json env jwk
  obj ← need_dict parsed
  raise_if (not (equals_str (or_null (get "kty" obj)) "OKP")) invalid_key_error
  curve ← curve_named (or_null (get "crv" obj))
  raise_if (not (has "x" obj)) invalid_key_error
  x ← base64url_decode (input_of (or_null (get "x" obj)))
  catching value_error invalid_key_error
      (if has "d" obj then private_from env curve obj else public_from env curve x)
