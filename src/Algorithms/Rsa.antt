-- ===== src/Algorithms/Rsa.antt =====
-- jwt/algorithms/algorithms_rsa.py: the classes RSAAlgorithm and RSAPSSAlgorithm, which differ in
-- the padding scheme only.
pub mod Family
pub mod RoundTrip
use refactoring_pyjwt.Prelude.{
  ℕ, String, Bool, true, false, not, ◌&&◌, Option, none, some, [], ◌∷◌, Bytes, ltb, if◌then◌else◌,
}
use refactoring_pyjwt.Exceptions.{
  Result, ok, err, raise, raise_if, is_instance, type_error, value_error, attribute_error,
  invalid_key_error, unsupported_algorithm, invalid_signature, ◌>>=◌, ◌>>◌, handling, catching,
}
use refactoring_pyjwt.Values.{Value, str, list, cons, nil, Dict, get, has, or_null, equals_str}
use refactoring_pyjwt.Text.{encode_utf8, starts_with}
use refactoring_pyjwt.Utils.Base64.{force_bytes}
use refactoring_pyjwt.Utils.Integers.{bit_length}
use refactoring_pyjwt.Algorithms.Keys.{
  Env, Algorithm, CryptoKey, rsa_public, rsa_private, ec_public, ec_private, okp_public, Hash,
  Scheme, pkcs1v15, pss, RsaPublicNumbers, RsaPrivateNumbers, KeyObject, text, raw, crypto,
  str_or_bytes, ShortKey,
}
use refactoring_pyjwt.Algorithms.Base.{is_rsa_key, check_crypto_key_type}
use refactoring_pyjwt.Algorithms.Jwk.{
  parse_jwk_json, serialize_jwk, need_dict, uint_item, uint_text, rsa_private_numbers_from_jwk,
}

-- `key.key_size`: the bits of the modulus.
abbrev pub rsa_key_size : CryptoKey → ℕ
rsa_key_size (rsa_public k) = bit_length k.n
rsa_key_size (rsa_private k) = bit_length k.public_numbers.n
rsa_key_size _ = 0

abbrev pub min_key_size : ℕ
min_key_size = 2048

unfoldable pub check_key_length : CryptoKey → Option ShortKey
check_key_length key =
    if ltb (rsa_key_size key) min_key_size
    then some (record { length = rsa_key_size key; minimum = min_key_size })
    else none

-- Loads a key and checks its family.
abbrev pub checked : Env → Algorithm → Result CryptoKey → Result KeyObject
checked env alg loaded = do key ← loaded; check_crypto_key_type env alg key; ok (crypto key)

load_key : Env → Algorithm → Bytes → Result KeyObject
load_key env alg key_bytes =
    handling value_error
      (catching unsupported_algorithm invalid_key_error (
        catching value_error invalid_key_error
          (checked env alg (env.cryptography.load_pem_public_key key_bytes))))
      (if starts_with (encode_utf8 "ssh-rsa") key_bytes
        then checked env alg (env.cryptography.load_ssh_public_key key_bytes)
        else checked env alg (env.cryptography.load_pem_private_key key_bytes))

-- `self` is the algorithm object.
unfoldable pub prepare_key : Env → (self : Algorithm) → KeyObject → Result KeyObject
unfolding load_key
prepare_key env self (crypto key) = if is_rsa_key key then ok (crypto key) else raise type_error
prepare_key env self (text s) = do
  key_bytes ← force_bytes (str_or_bytes (text s))
  load_key env self key_bytes
prepare_key env self (raw b) = do
  key_bytes ← force_bytes (str_or_bytes (raw b))
  load_key env self key_bytes
prepare_key env self _ = raise type_error

key_ops : String → Value
key_ops op = list (cons (str op) nil)

private_dict : RsaPrivateNumbers → Result Dict
unfolding key_ops
private_dict numbers = do
  n ← uint_text numbers.public_numbers.n none
  e ← uint_text numbers.public_numbers.e none
  d ← uint_text numbers.d none
  p ← uint_text numbers.p none
  q ← uint_text numbers.q none
  dp ← uint_text numbers.dmp1 none
  dq ← uint_text numbers.dmq1 none
  qi ← uint_text numbers.iqmp none
  ok (
      ("kty", str "RSA")
      ∷ ("key_ops", key_ops "sign")
      ∷ ("n", n)
      ∷ ("e", e)
      ∷ ("d", d)
      ∷ ("p", p)
      ∷ ("q", q)
      ∷ ("dp", dp)
      ∷ ("dq", dq)
      ∷ ("qi", qi)
      ∷ [])

public_dict : RsaPublicNumbers → Result Dict
unfolding key_ops
public_dict numbers = do
  n ← uint_text numbers.n none
  e ← uint_text numbers.e none
  ok (("kty", str "RSA") ∷ ("key_ops", key_ops "verify") ∷ ("n", n) ∷ ("e", e) ∷ [])

-- The tests are `hasattr`s. An EC key passes them, and has no RSA numbers; an Ed25519 or Ed448 public
-- key has a method `verify`, and no `public_numbers`. The keys of other families are taken to have
-- neither attribute.
unfoldable pub to_jwk : Env → KeyObject → (as_dict : Bool) → Result Value
unfolding private_dict public_dict
to_jwk env (crypto (rsa_private numbers)) as_dict = do
  obj ← private_dict numbers
  serialize_jwk env obj as_dict
to_jwk env (crypto (rsa_public numbers)) as_dict = do
  obj ← public_dict numbers
  serialize_jwk env obj as_dict
to_jwk env (crypto (ec_private d numbers)) as_dict = raise attribute_error
to_jwk env (crypto (ec_public numbers)) as_dict = raise attribute_error
to_jwk env (crypto (okp_public curve b)) as_dict = raise attribute_error
to_jwk env _ as_dict = raise invalid_key_error

abbrev public_numbers_of : Dict → Result RsaPublicNumbers
public_numbers_of obj = do
  e ← uint_item "e" obj
  n ← uint_item "n" obj
  ok (record { e = e; n = n })

private_from : Env → Dict → Result KeyObject
private_from env obj = do
  public_numbers ← public_numbers_of obj
  numbers ← rsa_private_numbers_from_jwk env obj public_numbers
  key ← env.cryptography.rsa_private_key numbers
  ok (crypto key)

public_from : Env → Dict → Result KeyObject
public_from env obj = do
  numbers ← public_numbers_of obj
  key ← env.cryptography.rsa_public_key numbers
  ok (crypto key)

unfoldable pub from_jwk : Env → Value → Result KeyObject
unfolding private_from public_from
from_jwk env jwk = do
  parsed ← parse_jwk_json env jwk
  obj ← need_dict parsed
  raise_if (not (equals_str (or_null (get "kty" obj)) "RSA")) invalid_key_error
  if has "d" obj && has "e" obj && has "n" obj
      then private_from env obj
      else if has "n" obj && has "e" obj
      then public_from env obj
      else raise invalid_key_error

-- Only a private key has the method `sign`.
abbrev sign_with : Env → Scheme → (msg : Bytes) → KeyObject → Result Bytes
sign_with env scheme msg (crypto (rsa_private k)) = env.cryptography.sign scheme (rsa_private k) msg
sign_with env scheme msg _ = raise attribute_error

unfoldable pub sign : Env → Hash → (msg : Bytes) → KeyObject → Result Bytes
sign env hash msg key = sign_with env (pkcs1v15 hash) msg key

-- The method of RSAPSSAlgorithm. The scheme has MGF1 with the same hash, and a salt of the size of
-- its digest.
unfoldable pub sign_pss : Env → Hash → (msg : Bytes) → KeyObject → Result Bytes
sign_pss env hash msg key = sign_with env (pss hash) msg key

abbrev pub verified : Result (Unit {0}) → Result Bool
verified (ok u) = ok true
verified (err e) = if is_instance e invalid_signature then ok false else err e

-- Only a public key has the method `verify`.
abbrev verify_with : Env → Scheme → (msg : Bytes) → KeyObject → (sig : Bytes) → Result Bool
verify_with env scheme msg (crypto (rsa_public k)) sig =
    verified (env.cryptography.verify scheme (rsa_public k) sig msg)
verify_with env scheme msg _ sig = raise attribute_error

unfoldable pub verify : Env → Hash → (msg : Bytes) → KeyObject → (sig : Bytes) → Result Bool
verify env hash msg key sig = verify_with env (pkcs1v15 hash) msg key sig

-- The method of RSAPSSAlgorithm.
unfoldable pub verify_pss : Env → Hash → (msg : Bytes) → KeyObject → (sig : Bytes) → Result Bool
verify_pss env hash msg key sig = verify_with env (pss hash) msg key sig
