-- ===== src/Jwt/RoundTrip.antt =====
-- PyJWT.encode, and PyJWT.decode of what it returns.
pub mod Unverified
pub mod Published
use refactoring_pyjwt.Prelude.{
  String, Bool, true, false, Option, none, some, List, [], Bytes, elem, str_eq, ◌≡◌,
}
use refactoring_pyjwt.Prelude.Int.{ℤ}
use refactoring_pyjwt.Exceptions.{ok, catching}
use refactoring_pyjwt.Exceptions.Warned.{warn_removed_kwargs}
use refactoring_pyjwt.Values.{Value, Dict, dict, fields, items-fields}
use refactoring_pyjwt.Text.{encode_utf8}
use refactoring_pyjwt.Text.Octets.{encode_utf8-IsByte}
use refactoring_pyjwt.Utils.Base64.{StrOrBytes}
use refactoring_pyjwt.Algorithms.Keys.{Env, KeyObject}
use refactoring_pyjwt.Jws.Keys.{object}
use refactoring_pyjwt.Jws.Encode.{Encoder, named, dumps_with}
use refactoring_pyjwt.Jws.RoundTrip.{
  Signs, ReadAs, signing_input, token_header, given_headers, decode_complete-encode,
}
use refactoring_pyjwt.Jwt.Options.{PyJwt, Options, requested, merge_options}
use refactoring_pyjwt.Jwt.Claims.{Expected, validate_claims}
use refactoring_pyjwt.Jwt.Encode.{prepare_payload_claims, encode_payload, encode}
use refactoring_pyjwt.Jwt.Decode.{
  signature_only, warn_legacy_verify_mismatch, decode_payload, decode_complete, decode,
}

-- The JSON text of a dict is read as it was written.
abbrev pub ReadsBack : Env → String → Dict → Type 0
ReadsBack env text d = env.json_loads (StrOrBytes.bytes (encode_utf8 text)) ≡ ok (dict (fields d))

decode_payload-ReadsBack :
    (env : Env) (text : String) (d : Dict)
    → ReadsBack env text d
    → decode_payload env (encode_utf8 text) ≡ ok d
unfolding decode_payload catching
decode_payload-ReadsBack env text d h = rw (h, items-fields d)

module _ (env : Env) (jwt : PyJwt) (now : ℤ) (payload : Value) (claims : Dict) (key : KeyObject)
    (name : String) (kid : Option String) (encoder : Option Encoder) (sort : Bool)
    (json header_json : String) (header : Dict) (signature : Bytes) (algorithms : List String)
    (options : Option Options) (expected : Expected) where
  -- What encode makes of a payload, with no headers of the caller's or a kid, and a key with which
  -- the named algorithm signs and verifies, is decoded to the prepared claims again, by every caller that
  -- allows the algorithm and whose conditions the claims meet, if the JSON text of the claims
  -- is read as it was written, and that of the header, with its keys sorted or not, as a dict with the
  -- same items, in any order.
  pub decode-encode :
      prepare_payload_claims payload ≡ ok claims
      → dumps_with env encoder false (dict (fields claims)) ≡ ok json
      → ReadsBack env json claims
      → dumps_with env encoder sort (dict (fields (token_header name kid))) ≡ ok header_json
      → ReadAs env header_json header (token_header name kid)
      → Signs env jwt.jws name key (signing_input header_json (encode_utf8 json)) signature
      → str_eq name "" ≡ false
      → elem name algorithms ≡ true
      → validate_claims env claims (merge_options jwt.options options) expected now ≡ ok tt
      → (token : String) × ((encode env jwt payload
            (object key)
            (named name)
            (given_headers kid)
            encoder
            sort).0
          ≡ ok token)
        × ((decode env jwt now
              (StrOrBytes.str token)
              (object key)
              (some algorithms)
              options
              none
              none
              expected
              []).0
            ≡ ok claims)
  unfolding encode encode_payload decode decode_complete warn_removed_kwargs
      warn_legacy_verify_mismatch
  decode-encode prepared dumped read header_dumped header_read signs nonempty allowed valid =
      let (token, encoded, decoded) =
        decode_complete-encode env jwt.jws name kid key encoder sort (encode_utf8 json) signature
          header_json header algorithms (some (signature_only (requested options))) signs
          header_dumped header_read (encode_utf8-IsByte json) nonempty allowed in
      (
        token,
        rw (prepared, dumped, encoded),
        rw (decoded, decode_payload-ReadsBack env json claims read, valid),
      )
