-- ===== src/Jws/Token.antt =====
-- jwt/api_jws.py: `_load`, `_decode_segment` and `get_unverified_header`.
pub mod Joined
pub mod Malformed
use refactoring_pyjwt.Prelude.{String, Bool, false, Option, none, some, Bytes}
use refactoring_pyjwt.Exceptions.{
  Exception, Result, ok, err, raise, catching, type_error, value_error, binascii_error,
  decode_error, ◌>>=◌, ◌>>◌,
}
use refactoring_pyjwt.Values.{Value, Dict, as_dict}
use refactoring_pyjwt.Text.{encode_utf8, split_dot, rsplit_dot}
use refactoring_pyjwt.Utils.Base64
use refactoring_pyjwt.Utils.Base64.{StrOrBytes, base64url_decode}
use refactoring_pyjwt.Algorithms.Keys.{Env}
use refactoring_pyjwt.Jws.Headers.{validate_headers}

pub record Loaded : Type 0 where
  pub payload : Bytes
  pub signing_input : Bytes
  pub header : Dict
  pub signature : Bytes

-- What the two splits leave.
pub record Segments : Type 0 where
  pub signing_input : Bytes
  pub header_segment : Bytes
  pub payload_segment : Bytes
  pub crypto_segment : Bytes

pub token_bytes : StrOrBytes → Result Bytes
token_bytes (StrOrBytes.str s) = ok (encode_utf8 s)
token_bytes (StrOrBytes.bytes b) = ok b
token_bytes StrOrBytes.other = raise decode_error

-- Unpacking a list of one part is a ValueError, which becomes a DecodeError.
abbrev two_parts : Option (Bytes × Bytes) → Result (Bytes × Bytes)
two_parts none = raise decode_error
two_parts (some parts) = ok parts

unfoldable pub split_token : Bytes → Result Segments
split_token jwt = do
  (signing_input, crypto_segment) ← two_parts (rsplit_dot jwt)
  (header_segment, payload_segment) ← two_parts (split_dot signing_input)
  ok (record {
    signing_input = signing_input;
    header_segment = header_segment;
    payload_segment = payload_segment;
    crypto_segment = crypto_segment;
  })

unfoldable pub decode_segment : Bytes → Result Bytes
decode_segment segment =
    catching binascii_error decode_error
      (catching type_error decode_error (base64url_decode (StrOrBytes.bytes segment)))

abbrev pub need_object : Value → Result Dict
need_object v = elim (as_dict v) [ none ↦ raise decode_error | some d ↦ ok d ]

parse_header : Env → Bytes → Result Dict
parse_header env header_data = do
  header ← catching value_error decode_error (env.json_loads (StrOrBytes.bytes header_data))
  need_object header

unfoldable pub load : Env → (jwt : StrOrBytes) → Result Loaded
unfolding token_bytes parse_header
load env jwt = do
  token ← token_bytes jwt
  segments ← split_token token
  header_data ← decode_segment segments.header_segment
  header ← parse_header env header_data
  payload ← decode_segment segments.payload_segment
  signature ← decode_segment segments.crypto_segment
  ok (record {
    payload = payload;
    signing_input = segments.signing_input;
    header = header;
    signature = signature;
  })

unfoldable pub get_unverified_header : Env → (jwt : StrOrBytes) → Result Dict
get_unverified_header env jwt = do
  loaded ← load env jwt
  validate_headers false loaded.header
  ok loaded.header
