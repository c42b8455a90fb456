-- ===== src/Tests.antt =====
-- An environment with concrete functions in place of the packages, an object and a key; the
-- children apply the theorems to them.
pub mod Tokens
pub mod Refusals
pub mod Report
pub mod Claims
pub mod Registries
pub mod Numbers
pub mod Endpoints
pub mod KeyObjects
pub mod Journey
pub mod Enforcement
pub mod DetachedPayload
use refactoring_pyjwt.Prelude.{
  ℕ, ◌%◌, String, Bool, true, false, Option, none, some, List, [], ◌∷◌, Bytes, replicate, length,
  bytes_eq, if◌then◌else◌,
}
use refactoring_pyjwt.Prelude.Int.{ℤ, pos}
use refactoring_pyjwt.Exceptions.{Result, ok, raise, type_error, value_error, unsupported_algorithm}
use refactoring_pyjwt.Values.{Value, str, dict, Fields, field, end, fields, Dict}
use refactoring_pyjwt.Text.{encode_utf8}
use refactoring_pyjwt.Utils.Base64.{StrOrBytes}
use refactoring_pyjwt.Utils.Signatures.{DssCodec}
use refactoring_pyjwt.Algorithms.Keys.{
  Env, Cryptography, CryptoKey, Hash, sha256, none_algorithm, hmac_algorithm, KeyObject, raw,
}
use refactoring_pyjwt.Jws.State.{PyJws}
use refactoring_pyjwt.Jwt.Options.{PyJwt, default_options}

-- The header with its keys sorted, as `encode` writes it by default, and as they were inserted.
abbrev pub header_text : String
header_text = "{\"alg\":\"HS256\",\"typ\":\"JWT\"}"

abbrev unsorted_text : String
unsorted_text = "{\"typ\":\"JWT\",\"alg\":\"HS256\"}"

abbrev pub payload_text : String
payload_text = "{\"sub\":\"a\"}"

abbrev pub header_dict : Dict
header_dict = ("alg", str "HS256") ∷ ("typ", str "JWT") ∷ []

abbrev pub unsorted_dict : Dict
unsorted_dict = ("typ", str "JWT") ∷ ("alg", str "HS256") ∷ []

abbrev pub payload_value : Value
payload_value = dict (field "sub" (str "a") end)

abbrev pub loads : StrOrBytes → Result Value
loads (StrOrBytes.bytes b) =
    if bytes_eq b (encode_utf8 header_text)
    then ok (dict (fields header_dict))
    else if bytes_eq b (encode_utf8 unsorted_text)
    then ok (dict (fields unsorted_dict))
    else if bytes_eq b (encode_utf8 payload_text)
    then ok payload_value
    else raise value_error
loads (StrOrBytes.str s) = raise value_error
loads StrOrBytes.other = raise type_error

abbrev pub dumps : Bool → Value → Result String
dumps true (dict (field k v (field l w fs))) = ok header_text
dumps false (dict (field k v (field l w fs))) = ok unsorted_text
dumps sort_keys _ = ok payload_text

abbrev decode_pair : Bytes → Result (ℕ × ℕ)
decode_pair (r ∷ s ∷ []) = ok (r, s)
decode_pair _ = raise value_error

abbrev pub codec : DssCodec
codec = record { encode_dss_signature = λ r s. r ∷ s ∷ []; decode_dss_signature = decode_pair }

abbrev pub cryptography : Cryptography
cryptography = record {
  load_pem_public_key = λ b. raise value_error;
  load_pem_private_key = λ b. raise value_error;
  load_ssh_public_key = λ b. raise value_error;
  public_key = λ k. k;
  sign = λ s k m. raise unsupported_algorithm;
  verify = λ s k m n. raise unsupported_algorithm;
  dss = codec;
  rsa_public_key = λ n. raise value_error;
  rsa_private_key = λ n. raise value_error;
  rsa_recover_prime_factors = λ n d e. raise value_error;
  rsa_crt_dmp1 = λ d p. 0;
  rsa_crt_dmq1 = λ d q. 0;
  rsa_crt_iqmp = λ p q. 0;
  ec_public_key = λ n. raise value_error;
  ec_private_key = λ d n. raise value_error;
  from_public_bytes = λ c b. raise value_error;
  from_private_bytes = λ c b. raise value_error;
}

abbrev pub env : Env
env = record {
  has_crypto = false;
  cryptography = cryptography;
  hmac_digest = λ h k m. (length k % 256) ∷ (length m % 256) ∷ [];
  hash_digest = λ h m. (length m % 256) ∷ [];
  json_loads = loads;
  json_dumps = dumps;
  int_of_str = λ s. none;
}

abbrev pub jws : PyJws
jws = record {
  algorithms = ("none", none_algorithm) ∷ ("HS256", hmac_algorithm sha256) ∷ [];
  valid_algs = "none" ∷ "HS256" ∷ [];
  options = record { verify_signature = true; enforce_minimum_key_length = false };
}

abbrev pub jwt : PyJwt
jwt = record { options = default_options; jws = jws }

abbrev pub secret : Bytes
secret = replicate 32 115
