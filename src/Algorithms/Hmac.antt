-- ===== src/Algorithms/Hmac.antt =====
-- jwt/algorithms/algorithms_hmac.py: the class HMACAlgorithm.
pub mod Laws
use refactoring_pyjwt.Prelude.{
  String, Bool, ◌||◌, not, Option, none, some, List, [], ◌∷◌, Bytes, ltb, length, bytes_eq,
  if◌then◌else◌,
}
use refactoring_pyjwt.Exceptions.{
  Result, ok, raise, raise_if, type_error, invalid_key_error, ◌>>=◌, ◌>>◌,
}
use refactoring_pyjwt.Values.{Value, str, get, or_null, equals_str}
use refactoring_pyjwt.Utils.Base64.{force_bytes, base64url_decode}
use refactoring_pyjwt.Utils.KeyFormats.{is_pem_format, is_ssh_key}
use refactoring_pyjwt.Algorithms.Keys.{
  Env, Hash, digest_size, KeyObject, raw, str_or_bytes, ShortKey,
}
use refactoring_pyjwt.Algorithms.Jwk.{
  parse_jwk_json, serialize_jwk, need_dict, item, input_of, bytes_text,
}

unfoldable pub prepare_key : KeyObject → Result KeyObject
prepare_key key = do
  key_bytes ← force_bytes (str_or_bytes key)
  raise_if (is_pem_format key_bytes || is_ssh_key key_bytes) invalid_key_error
  ok (raw key_bytes)

unfoldable pub to_jwk : Env → KeyObject → (as_dict : Bool) → Result Value
to_jwk env key_obj as_dict = do
  b ← force_bytes (str_or_bytes key_obj)
  k ← bytes_text b
  serialize_jwk env (("k", k) ∷ ("kty", str "oct") ∷ []) as_dict

unfoldable pub from_jwk : Env → Value → Result KeyObject
from_jwk env jwk = do
  parsed ← parse_jwk_json env jwk
  obj ← need_dict parsed
  raise_if (not (equals_str (or_null (get "kty" obj)) "oct")) invalid_key_error
  k ← item "k" obj
  key ← base64url_decode (input_of k)
  ok (raw key)

-- The message names the two lengths.
unfoldable pub check_key_length : Hash → Bytes → Option ShortKey
check_key_length hash key =
    if ltb (length key) (digest_size hash)
    then some (record { length = length key; minimum = digest_size hash })
    else none

unfoldable pub sign : Env → Hash → (msg key : Bytes) → Bytes
sign env hash msg key = env.hmac_digest hash key msg

-- `hmac.compare_digest` is an equality test that takes the same time on every input.
unfoldable pub verify : Env → Hash → (msg key sig : Bytes) → Bool
unfolding sign
verify env hash msg key sig = bytes_eq sig (sign env hash msg key)
