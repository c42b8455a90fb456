-- ===== src/Tests/Enforcement.antt =====
-- A token that an object accepts which enforces key lengths.
use refactoring_pyjwt.Prelude.{String, true, false, none, some, [], ◌∷◌, Bytes, arith, ◌≡◌, refl}
use refactoring_pyjwt.Exceptions.{ok}
use refactoring_pyjwt.Values.{str, dict, fields, get}
use refactoring_pyjwt.Values.Dicts.{swap-SameItems}
use refactoring_pyjwt.Text.{encode_utf8}
use refactoring_pyjwt.Text.Octets.{encode_utf8-IsByte}
use refactoring_pyjwt.Utils.Base64.{StrOrBytes}
use refactoring_pyjwt.Utils.KeyFormats.{is_pem_format, is_ssh_key}
use refactoring_pyjwt.Algorithms.Keys.{sha256, raw}
use refactoring_pyjwt.Algorithms.Hmac
use refactoring_pyjwt.Algorithms.Registry.Families.{IsKeyFor}
use refactoring_pyjwt.Jws.State.{PyJws, merge}
use refactoring_pyjwt.Jws.Keys.{object}
use refactoring_pyjwt.Jws.Keys.Enforced.{IsLong}
use refactoring_pyjwt.Jws.Encode as JwsEncode
use refactoring_pyjwt.Jws.Encode.{named}
use refactoring_pyjwt.Jws.Decode as JwsDecode
use refactoring_pyjwt.Jws.Decode.{Decoded}
use refactoring_pyjwt.Jws.Decode.Verified.{IsChecked}
use refactoring_pyjwt.Jws.Decode.KeyChecked.{decode_complete-IsLong}
use refactoring_pyjwt.Jws.RoundTrip.{
  Signs, ReadAs, signing_input, token_header, decode_complete-encode,
}
use refactoring_pyjwt.Jws.RoundTrip.Hmac.{hmac_algorithm-Signs}
use refactoring_pyjwt.Tests.{env, jws, secret, header_text, header_dict, payload_text}

abbrev strict : PyJws
strict = record jws {
  options = record { verify_signature = true; enforce_minimum_key_length = true };
}

abbrev input : Bytes
input = signing_input header_text (encode_utf8 payload_text)

abbrev signature : Bytes
signature = env.hmac_digest sha256 secret input

strictly-Signs : Signs env strict "HS256" (raw secret) input signature
unfolding get is_pem_format is_ssh_key Hmac.check_key_length
strictly-Signs =
    hmac_algorithm-Signs env strict "HS256" sha256 secret input refl refl refl
      (omega arith, (omega arith, tt))

header_parsed :
    env.json_loads (StrOrBytes.bytes (encode_utf8 header_text)) ≡ ok (dict (fields header_dict))
unfolding encode_utf8
header_parsed = refl

header_read : ReadAs env header_text header_dict (token_header "HS256" none)
header_read = record {
  parsed = header_parsed;
  same = swap-SameItems "alg" "typ" (str "HS256") (str "JWT") [] refl;
}

strictly_sent :
    (token : String) × ((JwsEncode.encode env strict
        (encode_utf8 payload_text)
        (object (raw secret))
        (named "HS256")
        []
        none
        false
        true).0
      ≡ ok token)
    × ((JwsDecode.decode_complete env strict
          (StrOrBytes.str token)
          (object (raw secret))
          (some ("HS256" ∷ []))
          none
          none
          []).0
        ≡ ok (record {
          payload = encode_utf8 payload_text;
          header = header_dict;
          signature = signature;
        }))
strictly_sent =
    decode_complete-encode env strict "HS256" none (raw secret) none true (encode_utf8 payload_text)
      signature header_text header_dict ("HS256" ∷ []) none strictly-Signs refl header_read
      (encode_utf8-IsByte payload_text) refl refl

abbrev sent : Decoded
sent = record { payload = encode_utf8 payload_text; header = header_dict; signature = signature }

decode_complete-IsLong_example :
    (checked : IsChecked env strict
      (StrOrBytes.str strictly_sent.0)
      (object (raw secret))
      (some ("HS256" ∷ []))
      none
      sent)
    × IsKeyFor checked.verified.algorithm checked.verified.prepared
    × IsLong checked.verified.algorithm checked.verified.prepared
unfolding merge
decode_complete-IsLong_example =
    decode_complete-IsLong env strict (StrOrBytes.str strictly_sent.0) (object (raw secret))
      (some ("HS256" ∷ [])) none none [] sent refl refl strictly_sent.2
