-- ===== src/Jws/RoundTrip.antt =====
-- PyJWS.encode, and PyJWS.decode_complete of what it returns.
pub mod Hmac
pub mod Unverified
pub mod Published
pub mod Detached
use refactoring_pyjwt.Prelude.{
  String, Bool, true, false, not, ◌||◌, ◌&&◌, Option, none, some, List, [], ◌∷◌, Bytes, All, IsByte,
  elem, str_eq, is_empty, ◌≡◌, refl, ap,
}
use refactoring_pyjwt.Exceptions.{ok, catching, decode_error, Result}
use refactoring_pyjwt.Exceptions.Warned.{warn_removed_kwargs-ok, warn_removed_kwargs}
use refactoring_pyjwt.Values.{Value, str, Dict, dict, fields, get, set, update, truthy, find}
use refactoring_pyjwt.Values.Dicts.{SameItems}
use refactoring_pyjwt.Text.{encode_utf8, decode_utf8, ◌dot◌}
use refactoring_pyjwt.Text.Octets.{encode_utf8-IsByte}
use refactoring_pyjwt.Utils.Base64
use refactoring_pyjwt.Utils.Base64.{StrOrBytes, base64url_encode}
use refactoring_pyjwt.Algorithms.Keys.{Env, Algorithm, KeyObject}
use refactoring_pyjwt.Algorithms.Registry
use refactoring_pyjwt.Jws.State.{PyJws, GivenSigOptions, get_algorithm_by_name, merge}
use refactoring_pyjwt.Jws.Headers.{validate_headers}
use refactoring_pyjwt.Jws.Keys.{Key, object, is_jwk, prepare_signing_key}
use refactoring_pyjwt.Jws.Encode.{
  Encoder, named, dumps_with, header_typ, resolve_algorithm, build_header, encode,
}
use refactoring_pyjwt.Jws.Token.{load, Loaded}
use refactoring_pyjwt.Jws.Token.Joined.{joined, joined_text, load-joined}
use refactoring_pyjwt.Jws.Decode.{
  Decoded, allowed_algorithms, verify_signature, decode_complete, none_given, verify_if,
  is_detached,
}

-- The headers that the caller gives: none, or a key identifier.
abbrev pub given_headers : (kid : Option String) → Dict
given_headers none = []
given_headers (some kid) = ("kid", str kid) ∷ []

-- The header of the token.
abbrev pub token_header : String → (kid : Option String) → Dict
token_header name kid = ("typ", str header_typ) ∷ ("alg", str name) ∷ given_headers kid

-- The JSON text of a header is read as the dict `header`, which has the items of the header `d`
-- that was written, in any order: json.dumps may have sorted them.
pub record ReadAs (env : Env) (json : String) (header d : Dict) : Type 0 where
  pub parsed : env.json_loads (StrOrBytes.bytes (encode_utf8 json)) ≡ ok (dict (fields header))
  pub same : SameItems header d

-- The algorithm of a name, its prepared key and what it signs the input with; and that it verifies
-- its own signatures, which are bytes.
pub record Signs (env : Env) (jws : PyJws) (name : String) (key : KeyObject)
    (input signature : Bytes) : Type 0 where
  pub algorithm : Algorithm
  pub by_name : get name jws.algorithms ≡ some algorithm
  pub prepared : KeyObject
  pub usable : (prepare_signing_key env jws algorithm (object key)).0 ≡ ok prepared
  pub signs : Registry.sign env algorithm input prepared ≡ ok signature
  pub verifies : Registry.verify env algorithm input prepared signature ≡ ok true
  pub is_bytes : All IsByte signature

plain_resolved :
    (name : String) (kid : Option String) (key : Key)
    → resolve_algorithm (named name) key (given_headers kid) false ≡ (str name, false)
unfolding resolve_algorithm truthy get
plain_resolved name none key = refl
plain_resolved name (some kid) key = refl

plain_built :
    (name : String) (kid : Option String)
    → build_header (str name) (given_headers kid) false ≡ ok (token_header name kid)
unfolding build_header update get truthy set validate_headers
plain_built name none = refl
plain_built name (some kid) = refl

by_name-ok :
    (jws : PyJws) (name : String) {a : Algorithm}
    → get name jws.algorithms ≡ some a
    → get_algorithm_by_name jws (str name) ≡ ok a
unfolding get_algorithm_by_name find
by_name-ok jws name h = rw h

abbrev pub signing_input : (json : String) (payload : Bytes) → Bytes
signing_input json payload = base64url_encode (encode_utf8 json) dot base64url_encode payload

module _ (env : Env) (jws : PyJws) (name : String) (kid : Option String) (key : KeyObject)
    (encoder : Option Encoder) (sort : Bool) (payload signature : Bytes) (json token : String) where
  encode-joined :
      Signs env jws name key (signing_input json payload) signature
      → dumps_with env encoder sort (dict (fields (token_header name kid))) ≡ ok json
      → decode_utf8 (joined (encode_utf8 json) payload signature) ≡ ok token
      → (encode env jws payload (object key) (named name) (given_headers kid) encoder false sort).0
        ≡ ok token
  unfolding encode
  encode-joined s dumped text = rw (
    plain_resolved name kid (object key),
    plain_built name kid,
    dumped,
    by_name-ok jws name s.by_name,
    s.usable,
    s.signs,
    text,
  )

  verify_signature-plain :
      (algorithms : List String) (header : Dict)
      → SameItems header (token_header name kid)
      → Signs env jws name key (signing_input json payload) signature
      → str_eq name "" ≡ false
      → elem name algorithms ≡ true
      → (verify_signature env jws
          (signing_input json payload)
          header
          signature
          (object key)
          (some algorithms)).0
        ≡ ok tt
  unfolding verify_signature get truthy allowed_algorithms catching
  verify_signature-plain algorithms header same s nonempty allowed =
      rw (same "alg", nonempty, allowed, by_name-ok jws name s.by_name, s.usable, s.verifies)

plain_valid :
    (name : String) (kid : Option String) (header : Dict)
    → SameItems header (token_header name kid)
    → validate_headers false header ≡ ok tt
unfolding validate_headers get
plain_valid name none header same = rw (same "kid", same "crit")
plain_valid name (some kid) header same = rw (same "kid", same "crit")

attached :
    (name : String) (kid : Option String) (header : Dict)
    → SameItems header (token_header name kid)
    → is_detached header ≡ false
unfolding get
attached name none header same = rw (same "b64")
attached name (some kid) header same = rw (same "b64")

verify_if-plain :
    (on : Bool) (env : Env) (jws : PyJws) (input : Bytes) (l : Loaded) (key : Key)
    (algorithms : Option (List String))
    → (verify_signature env jws input l.header l.signature key algorithms).0 ≡ ok tt
    → (verify_if on env jws input l key algorithms).0 ≡ ok tt
verify_if-plain true env jws input l key algorithms h = h
verify_if-plain false env jws input l key algorithms h = refl

some_given :
    (name : String) (algorithms : List String)
    → elem name algorithms ≡ true
    → is_empty algorithms ≡ false
some_given name [] h = cc
some_given name (a ∷ as') h = refl

no_refusal : (on b c : Bool) → b ≡ false → (on && b && c) ≡ false
no_refusal true b c h = rw h
no_refusal false b c h = refl

module _ (env : Env) (jws : PyJws) (name : String) (kid : Option String) (key : KeyObject)
    (encoder : Option Encoder) (sort : Bool) (payload signature : Bytes) (json : String)
    (header : Dict) (algorithms : List String) (options : Option GivenSigOptions) where
  decode-joined :
      (token : String)
      → Signs env jws name key (signing_input json payload) signature
      → encode_utf8 token ≡ joined (encode_utf8 json) payload signature
      → ReadAs env json header (token_header name kid)
      → All IsByte payload
      → str_eq name "" ≡ false
      → elem name algorithms ≡ true
      → (decode_complete env jws
          (StrOrBytes.str token)
          (object key)
          (some algorithms)
          options
          none
          []).0
        ≡ ok (record { payload = payload; header = header; signature = signature })
  unfolding decode_complete warn_removed_kwargs get
  decode-joined token s spelled read bytes nonempty allowed =
      let loaded =
        load-joined env token (encode_utf8 json) payload signature header (encode_utf8-IsByte json)
          bytes s.is_bytes spelled read.parsed in
      let verified =
        verify_signature-plain env jws name kid key encoder sort payload signature json token
          algorithms header read.same s nonempty allowed in
      let l : Loaded = record {
        payload = payload;
        signing_input = signing_input json payload;
        header = header;
        signature = signature;
      } in
      let on : Bool = (merge jws.options options).verify_signature in
      rw (
        no_refusal on (is_empty algorithms) true (some_given name algorithms allowed),
        loaded,
        plain_valid name kid header read.same,
        attached name kid header read.same,
        verify_if-plain on env jws (signing_input json payload) l (object key) (some algorithms)
            verified,
      )

  -- A token that encode makes of a byte string, with no headers of the caller's or a kid, and a key
  -- with which the named algorithm signs and verifies, is decoded to the same payload, header and signature by
  -- every caller that allows the algorithm, with verification on or off, if the JSON text of the
  -- header, with its keys sorted or not, is read as a dict with the same items, in any order.
  pub decode_complete-encode :
      Signs env jws name key (signing_input json payload) signature
      → dumps_with env encoder sort (dict (fields (token_header name kid))) ≡ ok json
      → ReadAs env json header (token_header name kid)
      → All IsByte payload
      → str_eq name "" ≡ false
      → elem name algorithms ≡ true
      → (token : String) × ((encode env jws payload
            (object key)
            (named name)
            (given_headers kid)
            encoder
            false
            sort).0
          ≡ ok token)
        × ((decode_complete env jws
              (StrOrBytes.str token)
              (object key)
              (some algorithms)
              options
              none
              []).0
            ≡ ok (record { payload = payload; header = header; signature = signature }))
  decode_complete-encode s dumped read bytes nonempty allowed =
      let (token, text, spelled) =
        joined_text (encode_utf8 json) payload signature (encode_utf8-IsByte json) bytes
          s.is_bytes in
      (
        token,
        encode-joined env jws name kid key encoder sort payload signature json token s dumped text,
        decode-joined token s spelled read bytes nonempty allowed,
      )
