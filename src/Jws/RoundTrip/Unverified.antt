-- ===== src/Jws/RoundTrip/Unverified.antt =====
-- What PyJWS.encode returns, decoded without verification, with any key and any algorithms.
use refactoring_pyjwt.Prelude.{
  String, Bool, false, Option, none, some, List, [], All, IsByte, Bytes, ◌≡◌,
}
use refactoring_pyjwt.Exceptions.{ok}
use refactoring_pyjwt.Exceptions.Warned.{warn_removed_kwargs}
use refactoring_pyjwt.Values.{Dict, dict, fields}
use refactoring_pyjwt.Text.{encode_utf8}
use refactoring_pyjwt.Text.Octets.{encode_utf8-IsByte}
use refactoring_pyjwt.Utils.Base64.{StrOrBytes}
use refactoring_pyjwt.Algorithms.Keys.{Env, KeyObject}
use refactoring_pyjwt.Jws.State.{PyJws, merge}
use refactoring_pyjwt.Jws.Keys.{Key, object}
use refactoring_pyjwt.Jws.Encode.{Encoder, named, dumps_with, encode}
use refactoring_pyjwt.Jws.Token.Joined.{joined, joined_text, load-joined}
use refactoring_pyjwt.Jws.Decode.{decode_complete}
use refactoring_pyjwt.Jws.RoundTrip.{
  Signs, ReadAs, signing_input, given_headers, token_header, plain_valid, attached, encode-joined,
}

module _ (env : Env) (jws : PyJws) (name : String) (kid : Option String) (key : KeyObject)
    (encoder : Option Encoder) (sort : Bool) (payload signature : Bytes) (json : String)
    (header : Dict) (other : Key) (algorithms : Option (List String)) (enforce : Option Bool) where
  unverified-joined :
      (token : String)
      → All IsByte payload
      → All IsByte signature
      → encode_utf8 token ≡ joined (encode_utf8 json) payload signature
      → ReadAs env json header (token_header name kid)
      → (decode_complete env jws
          (StrOrBytes.str token)
          other
          algorithms
          (some (record { verify_signature = some false; enforce_minimum_key_length = enforce }))
          none
          []).0
        ≡ ok (record { payload = payload; header = header; signature = signature })
  unfolding decode_complete warn_removed_kwargs merge
  unverified-joined token p s spelled read = rw (
    load-joined env token (encode_utf8 json) payload signature header (encode_utf8-IsByte json) p s
        spelled read.parsed,
    plain_valid name kid header read.same,
    attached name kid header read.same,
  )

  -- The token is read without a key.
  pub unverified-encode :
      Signs env jws name key (signing_input json payload) signature
      → dumps_with env encoder sort (dict (fields (token_header name kid))) ≡ ok json
      → ReadAs env json header (token_header name kid)
      → All IsByte payload
      → (token : String) × ((encode env jws payload
            (object key)
            (named name)
            (given_headers kid)
            encoder
            false
            sort).0
          ≡ ok token)
        × ((decode_complete env jws
              (StrOrBytes.str token)
              other
              algorithms
              (some
                (record { verify_signature = some false; enforce_minimum_key_length = enforce }))
              none
              []).0
            ≡ ok (record { payload = payload; header = header; signature = signature }))
  unverified-encode s dumped read bytes =
      let (token, text, spelled) =
        joined_text (encode_utf8 json) payload signature (encode_utf8-IsByte json) bytes
          s.is_bytes in
      (
        token,
        encode-joined env jws name kid key encoder sort payload signature json token s dumped text,
        unverified-joined token bytes s.is_bytes spelled read,
      )
