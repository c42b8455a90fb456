-- ===== src/Jws/Token/Malformed.antt =====
-- Tokens that are not well formed: the exceptions of `_load`.
use refactoring_pyjwt.Prelude.{false, Bytes, ◌≡◌, ◌⊎◌}
use refactoring_pyjwt.Exceptions.{
  Exception, Result, ◌>>=◌, ok, err, raised, is_instance, decode_error, value_error,
}
use refactoring_pyjwt.Utils.Base64.{StrOrBytes, bytes}
use refactoring_pyjwt.Algorithms.Keys.{Env}
use refactoring_pyjwt.Jws.Token.{split_token, decode_segment, token_bytes}

abbrev IsDecodeError : Exception → Type 0
IsDecodeError e = e ≡ raised decode_error

-- The bytes of the header: the first segment of the token, decoded.
abbrev header_bytes : StrOrBytes → Result Bytes
header_bytes jwt = do
  token ← token_bytes jwt
  segments ← split_token token
  decode_segment segments.header_segment

-- What json.loads raises for a text, if it is no ValueError.
abbrev IsJsonError : Env → Bytes → Exception → Type 0
IsJsonError env b e = (env.json_loads (bytes b) ≡ err e) × (is_instance e value_error ≡ false)

abbrev IsHeaderError : Env → Bytes → Exception → Type 0
IsHeaderError env b e = IsDecodeError e ⊎ IsJsonError env b e

abbrev pub IsLoadError : Env → StrOrBytes → Exception → Type 0
IsLoadError env jwt e =
    IsDecodeError e
    ⊎ ((header_data : Bytes) × (header_bytes jwt ≡ ok header_data) × IsJsonError env header_data e)
