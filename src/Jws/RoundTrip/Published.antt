-- ===== src/Jws/RoundTrip/Published.antt =====
-- What PyJWS.encode returns, decoded with a PyJWK and the algorithm that it is bound to.
use refactoring_pyjwt.Prelude.{
  String, Bool, true, false, Option, none, [], All, IsByte, Bytes, str_eq, ◌≡◌, inl, inr,
  Bool-cases,
}
use text.Mathlib.TextPositions.{eq_refl}
use refactoring_pyjwt.Exceptions.{ok}
use refactoring_pyjwt.Exceptions.Warned.{warn_removed_kwargs}
use refactoring_pyjwt.Values.{Dict, dict, fields, get, truthy}
use refactoring_pyjwt.Values.Dicts.{SameItems}
use refactoring_pyjwt.Text.{encode_utf8}
use refactoring_pyjwt.Text.Octets.{encode_utf8-IsByte}
use refactoring_pyjwt.Utils.Base64.{StrOrBytes}
use refactoring_pyjwt.Algorithms.Keys.{Env, KeyObject}
use refactoring_pyjwt.Algorithms.Registry
use refactoring_pyjwt.Jwk.{PyJwk}
use refactoring_pyjwt.Jws.State.{PyJws, GivenSigOptions, merge}
use refactoring_pyjwt.Jws.Keys.{object, jwk, prepare_signing_key}
use refactoring_pyjwt.Jws.Encode.{Encoder, named, dumps_with, encode}
use refactoring_pyjwt.Jws.Token.Joined.{joined, joined_text, load-joined}
use refactoring_pyjwt.Jws.Decode.{decode_complete, verify_signature, allowed_algorithms}
use refactoring_pyjwt.Jws.RoundTrip.{
  Signs, ReadAs, signing_input, given_headers, token_header, plain_valid, attached, encode-joined,
}

-- The key is bound to the algorithm of that name, and this accepts the signature.
pub record Accepts (env : Env) (jws : PyJws) (name : String) (k : PyJwk) (input signature : Bytes)
    : Type 0 where
  pub bound : k.algorithm_name ≡ name
  pub prepared : KeyObject
  pub usable : (prepare_signing_key env jws k.algorithm (jwk k)).0 ≡ ok prepared
  pub verifies : Registry.verify env k.algorithm input prepared signature ≡ ok true

module _ (env : Env) (jws : PyJws) (name : String) (kid : Option String) (key : KeyObject)
    (encoder : Option Encoder) (sort : Bool) (payload signature : Bytes) (json : String)
    (header : Dict) (k : PyJwk) (options : Option GivenSigOptions) where
  verify_signature-published :
      SameItems header (token_header name kid)
      → Accepts env jws name k (signing_input json payload) signature
      → str_eq name "" ≡ false
      → (verify_signature env jws (signing_input json payload) header signature (jwk k) none).0
        ≡ ok tt
  unfolding verify_signature get truthy allowed_algorithms
  verify_signature-published same a nonempty =
      rw (same "alg", nonempty, a.bound, eq_refl name, a.usable, a.verifies)

  published-joined :
      (token : String)
      → Accepts env jws name k (signing_input json payload) signature
      → str_eq name "" ≡ false
      → All IsByte payload
      → All IsByte signature
      → encode_utf8 token ≡ joined (encode_utf8 json) payload signature
      → ReadAs env json header (token_header name kid)
      → (decode_complete env jws (StrOrBytes.str token) (jwk k) none options none []).0
        ≡ ok (record { payload = payload; header = header; signature = signature })
  unfolding decode_complete warn_removed_kwargs
  published-joined token a nonempty p s spelled read =
      let on : Bool = (merge jws.options options).verify_signature in
      elim (Bool-cases on) [
        | inl checks ↦ rw (
          checks,
          load-joined env token (encode_utf8 json) payload signature header
              (encode_utf8-IsByte json) p s spelled read.parsed,
          plain_valid name kid header read.same,
          attached name kid header read.same,
          verify_signature-published read.same a nonempty,
        )
        | inr skips ↦ rw (
          skips,
          load-joined env token (encode_utf8 json) payload signature header
              (encode_utf8-IsByte json) p s spelled read.parsed,
          plain_valid name kid header read.same,
          attached name kid header read.same,
        )
      ]

  -- The token is read with the key.
  pub published-encode :
      Signs env jws name key (signing_input json payload) signature
      → Accepts env jws name k (signing_input json payload) signature
      → str_eq name "" ≡ false
      → dumps_with env encoder sort (dict (fields (token_header name kid))) ≡ ok json
      → ReadAs env json header (token_header name kid)
      → All IsByte payload
      → (token : String) × ((encode env jws payload
            (object key)
            (named name)
            (given_headers kid)
            encoder
            false
            sort).0
          ≡ ok token)
        × ((decode_complete env jws (StrOrBytes.str token) (jwk k) none options none []).0
            ≡ ok (record { payload = payload; header = header; signature = signature }))
  published-encode s a nonempty dumped read bytes =
      let (token, text, spelled) =
        joined_text (encode_utf8 json) payload signature (encode_utf8-IsByte json) bytes
          s.is_bytes in
      (
        token,
        encode-joined env jws name kid key encoder sort payload signature json token s dumped text,
        published-joined token a nonempty bytes s.is_bytes spelled read,
      )
