-- ===== src/Tests/DetachedPayload.antt =====
-- A token without its payload.
use refactoring_pyjwt.Prelude.{
  String, true, false, none, some, [], ◌∷◌, Bytes, bytes_eq, ◌∙◌, arith, ◌≡◌, refl, if◌then◌else◌,
}
use refactoring_pyjwt.Exceptions.{Result, ok, raise, type_error, value_error}
use refactoring_pyjwt.Values.{Value, Dict, str, bool, dict, fields, get}
use refactoring_pyjwt.Values.Dicts.{SameItems, swap-SameItems, cons-SameItems}
use refactoring_pyjwt.Text.{encode_utf8}
use refactoring_pyjwt.Utils.Base64.{StrOrBytes}
use refactoring_pyjwt.Utils.KeyFormats.{is_pem_format, is_ssh_key}
use refactoring_pyjwt.Algorithms.Keys.{Env, sha256, raw}
use refactoring_pyjwt.Algorithms.Hmac
use refactoring_pyjwt.Jws.Keys.{object}
use refactoring_pyjwt.Jws.Encode as JwsEncode
use refactoring_pyjwt.Jws.Encode.{named}
use refactoring_pyjwt.Jws.Token.Joined.{joined}
use refactoring_pyjwt.Jws.Decode as JwsDecode
use refactoring_pyjwt.Jws.RoundTrip.{Signs, ReadAs}
use refactoring_pyjwt.Jws.RoundTrip.Hmac.{hmac_algorithm-Signs}
use refactoring_pyjwt.Jws.RoundTrip.Detached.{
  detached_header, detached_input, decode_complete-encode_detached,
}
use refactoring_pyjwt.Tests as Tests
use refactoring_pyjwt.Tests.{jws, secret}

abbrev header_text : String
header_text = "{\"alg\":\"HS256\",\"b64\":false,\"typ\":\"JWT\"}"

abbrev header_dict : Dict
header_dict = ("alg", str "HS256") ∷ ("b64", bool false) ∷ ("typ", str "JWT") ∷ []

abbrev loads : StrOrBytes → Result Value
loads (StrOrBytes.bytes b) =
    if bytes_eq b (encode_utf8 header_text)
    then ok (dict (fields header_dict))
    else raise value_error
loads (StrOrBytes.str s) = raise value_error
loads StrOrBytes.other = raise type_error

abbrev env : Env
env = record Tests.env { json_loads = loads; json_dumps = λ sort_keys v. ok header_text }

-- Bytes with a dot among them.
abbrev payload : Bytes
payload = 7 ∷ 46 ∷ 200 ∷ []

abbrev signature : Bytes
signature = env.hmac_digest sha256 secret (detached_input header_text payload)

signs : Signs env jws "HS256" (raw secret) (detached_input header_text payload) signature
unfolding get is_pem_format is_ssh_key Hmac.check_key_length
signs =
    hmac_algorithm-Signs env jws "HS256" sha256 secret (detached_input header_text payload) refl
      refl refl (omega arith, (omega arith, tt))

parsed :
    env.json_loads (StrOrBytes.bytes (encode_utf8 header_text)) ≡ ok (dict (fields header_dict))
unfolding encode_utf8
parsed = refl

header_same : SameItems header_dict (detached_header "HS256" none)
header_same k =
    cons-SameItems "alg" (str "HS256") _ _
      (swap-SameItems "b64" "typ" (bool false) (str "JWT") [] refl) k
    ∙ swap-SameItems "alg" "typ" (str "HS256") (str "JWT") (("b64", bool false) ∷ []) refl k

read : ReadAs env header_text header_dict (detached_header "HS256" none)
read = record { parsed = parsed; same = header_same }

decode_complete-encode_detached_example :
    (token : String) × (encode_utf8 token ≡ joined (encode_utf8 header_text) [] signature)
    × ((JwsEncode.encode env jws payload (object (raw secret)) (named "HS256") [] none true true).0
        ≡ ok token)
    × ((JwsDecode.decode_complete env jws
          (StrOrBytes.str token)
          (object (raw secret))
          (some ("HS256" ∷ []))
          none
          (some payload)
          []).0
        ≡ ok (record { payload = payload; header = header_dict; signature = signature }))
decode_complete-encode_detached_example =
    decode_complete-encode_detached env jws "HS256" none (raw secret) none true payload signature
      header_text header_dict ("HS256" ∷ []) none signs refl read refl refl
