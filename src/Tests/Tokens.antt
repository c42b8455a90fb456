-- ===== src/Tests/Tokens.antt =====
-- Tokens signed with HS256, in the environment of the parent.
use refactoring_pyjwt.Prelude.{
  String, true, false, none, some, [], ◌∷◌, Bytes, ◌≡◌, ◌≢◌, refl, arith,
}
use refactoring_pyjwt.Prelude.Int.{pos}
use refactoring_pyjwt.Exceptions.{ok, catching}
use refactoring_pyjwt.Values.{field, end, dict, str, Dict, items, fields, get, truthy}
use refactoring_pyjwt.Values.Dicts.{SameItems, swap-SameItems}
use refactoring_pyjwt.Text.{encode_utf8}
use refactoring_pyjwt.Text.Octets.{encode_utf8-IsByte}
use refactoring_pyjwt.Exceptions.Warned.{warn_removed_kwargs}
use refactoring_pyjwt.Utils.Base64.{StrOrBytes}
use refactoring_pyjwt.Utils.KeyFormats.{is_pem_format, is_ssh_key}
use refactoring_pyjwt.Algorithms.Keys.{sha256, raw, no_key}
use refactoring_pyjwt.Algorithms.Hmac
use refactoring_pyjwt.Jws.State.{merge}
use refactoring_pyjwt.Jws.Keys.{Key, object}
use refactoring_pyjwt.Jws.Encode as JwsEncode
use refactoring_pyjwt.Jws.Encode.{named}
use refactoring_pyjwt.Jws.Decode as JwsDecode
use refactoring_pyjwt.Jws.Decode.{Decoded}
use refactoring_pyjwt.Jws.Decode.Verified.{IsChecked, decode_complete-IsChecked}
use refactoring_pyjwt.Jws.Decode.NoneRefused.{none_token_refused}
use refactoring_pyjwt.Jws.RoundTrip.{
  Signs, ReadAs, signing_input, token_header, decode_complete-encode,
}
use refactoring_pyjwt.Jws.RoundTrip.Hmac.{hmac_algorithm-Signs}
use refactoring_pyjwt.Jwt.Options.{default_options, merge_options}
use refactoring_pyjwt.Jwt.Claims.{
  Expected, seconds, validate_claims, validate_required_claims, validate_iss, validate_aud,
  validate_sub, validate_jti,
}
use refactoring_pyjwt.Jwt.Encode as JwtEncode
use refactoring_pyjwt.Jwt.Decode as JwtDecode
use refactoring_pyjwt.Jwt.Decode.{DecodedToken, signature_only}
use refactoring_pyjwt.Jwt.Decode.Verified.{IsTrusted, decode_complete-IsTrusted}
use refactoring_pyjwt.Jwt.RoundTrip.{decode-encode}
use refactoring_pyjwt.Tests.{
  env, jws, jwt, secret, header_text, header_dict, payload_text, payload_value,
}

abbrev input : Bytes
input = signing_input header_text (encode_utf8 payload_text)

abbrev signature : Bytes
signature = env.hmac_digest sha256 secret input

abbrev raw_key : Key
raw_key = object (raw secret)

abbrev pub anyone : Expected
anyone = record { audience = none; issuer = none; subject = none; leeway = seconds (pos 0) }

signs : Signs env jws "HS256" (raw secret) input signature
unfolding get is_pem_format is_ssh_key Hmac.check_key_length
signs =
    hmac_algorithm-Signs env jws "HS256" sha256 secret input refl refl refl
      (omega arith, (omega arith, tt))

hmac_algorithm-Signs_example : Signs env jws "HS256" (raw secret) input signature
unfolding get is_pem_format is_ssh_key Hmac.check_key_length
hmac_algorithm-Signs_example =
    hmac_algorithm-Signs env jws "HS256" sha256 secret input refl refl refl
      (omega arith, (omega arith, tt))

header_parsed :
    env.json_loads (StrOrBytes.bytes (encode_utf8 header_text)) ≡ ok (dict (fields header_dict))
unfolding encode_utf8
header_parsed = refl

header_same : SameItems header_dict (token_header "HS256" none)
header_same = swap-SameItems "alg" "typ" (str "HS256") (str "JWT") [] refl

read_header : ReadAs env header_text header_dict (token_header "HS256" none)
read_header = record { parsed = header_parsed; same = header_same }

-- A payload that PyJWS.encode has signed, and its token.
sent :
    (token : String) × ((JwsEncode.encode env jws
        (encode_utf8 payload_text)
        (raw_key)
        (named "HS256")
        []
        none
        false
        true).0
      ≡ ok token)
    × ((JwsDecode.decode_complete env jws
          (StrOrBytes.str token)
          raw_key
          (some ("HS256" ∷ []))
          (some (signature_only true))
          none
          []).0
        ≡ ok (record {
          payload = encode_utf8 payload_text;
          header = header_dict;
          signature = signature;
        }))
sent =
    decode_complete-encode env jws "HS256" none (raw secret) none true (encode_utf8 payload_text)
      signature header_text header_dict ("HS256" ∷ []) (some (signature_only true)) signs refl
      read_header (encode_utf8-IsByte payload_text) refl refl

decode_complete-encode_example :
    (token : String) × ((JwsEncode.encode env jws
        (encode_utf8 payload_text)
        (raw_key)
        (named "HS256")
        []
        none
        false
        true).0
      ≡ ok token)
    × ((JwsDecode.decode_complete env jws
          (StrOrBytes.str token)
          raw_key
          (some ("HS256" ∷ []))
          none
          none
          []).0
        ≡ ok (record {
          payload = encode_utf8 payload_text;
          header = header_dict;
          signature = signature;
        }))
decode_complete-encode_example =
    decode_complete-encode env jws "HS256" none (raw secret) none true (encode_utf8 payload_text)
      signature header_text header_dict ("HS256" ∷ []) none signs refl read_header
      (encode_utf8-IsByte payload_text) refl refl

decode_complete-IsChecked_example :
    IsChecked env jws
      (StrOrBytes.str sent.0)
      raw_key
      (some ("HS256" ∷ []))
      none
      (record { payload = encode_utf8 payload_text; header = header_dict; signature = signature })
unfolding merge
decode_complete-IsChecked_example =
    decode_complete-IsChecked env jws (StrOrBytes.str sent.0) raw_key (some ("HS256" ∷ []))
      (some (signature_only true)) none [] refl sent.2

-- The header names "none", and an allowed list does too.
none_token_refused_example :
    (JwsDecode.decode_complete env jws
      (StrOrBytes.str "e30.e30.")
      (object no_key)
      (some ("none" ∷ []))
      none
      none
      []).0
    ≢ ok (record { payload = []; header = token_header "none" none; signature = [] })
unfolding merge get
none_token_refused_example =
    none_token_refused env jws (StrOrBytes.str "e30.e30.") no_key (some ("none" ∷ [])) none none []
      (record { payload = []; header = token_header "none" none; signature = [] }) refl refl refl

read_payload :
    env.json_loads (StrOrBytes.bytes (encode_utf8 payload_text))
    ≡ ok (dict (fields (items (field "sub" (str "a") end))))
unfolding encode_utf8
read_payload = refl

abbrev claims : Dict
claims = ("sub", str "a") ∷ []

accepted : validate_claims env claims (merge_options jwt.options none) anyone (pos 0) ≡ ok tt
unfolding validate_claims merge_options default_options validate_required_claims get validate_iss
    validate_aud validate_sub validate_jti truthy
accepted = refl

prepared : JwtEncode.prepare_payload_claims payload_value ≡ ok claims
unfolding JwtEncode.prepare_payload_claims get
prepared = refl

decode-encode_example :
    (token : String) × ((JwtEncode.encode env jwt payload_value raw_key
        (named "HS256")
        []
        none
        true).0
      ≡ ok token)
    × ((JwtDecode.decode env jwt
          (pos 0)
          (StrOrBytes.str token)
          raw_key
          (some ("HS256" ∷ []))
          none
          none
          none
          anyone
          []).0
        ≡ ok claims)
decode-encode_example =
    decode-encode env jwt (pos 0) payload_value claims (raw secret) "HS256" none none true
      payload_text header_text header_dict signature ("HS256" ∷ []) none anyone prepared refl
      read_payload refl read_header signs refl refl accepted

payload_decoded : JwtDecode.decode_payload env (encode_utf8 payload_text) ≡ ok claims
unfolding JwtDecode.decode_payload encode_utf8 catching
payload_decoded = refl

decoded :
    (JwtDecode.decode_complete env jwt
      (pos 0)
      (StrOrBytes.str sent.0)
      raw_key
      (some ("HS256" ∷ []))
      none
      none
      none
      anyone
      []).0
    ≡ ok (record { payload = claims; header = header_dict; signature = signature })
unfolding JwtDecode.decode_complete JwtDecode.warn_legacy_verify_mismatch warn_removed_kwargs
decoded = rw (sent.2, payload_decoded, accepted)

decode_complete-IsTrusted_example :
    IsTrusted env jwt
      (pos 0)
      (StrOrBytes.str sent.0)
      raw_key
      (some ("HS256" ∷ []))
      none
      none
      anyone
      (record { payload = claims; header = header_dict; signature = signature })
decode_complete-IsTrusted_example =
    decode_complete-IsTrusted env jwt (pos 0) (StrOrBytes.str sent.0) raw_key (some ("HS256" ∷ []))
      none none none anyone [] refl decoded
