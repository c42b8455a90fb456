-- ===== src/Jws/RoundTrip/Detached.antt =====
-- Tokens whose payload is not in them (RFC 7797).
use refactoring_pyjwt.Prelude.{
  String, Bool, true, false, Option, none, some, List, [], ◌∷◌, ◌++◌, Bytes, elem, str_eq, is_empty,
  ◌≡◌, refl,
}
use refactoring_pyjwt.Exceptions.{ok, catching}
use refactoring_pyjwt.Exceptions.Warned.{warn_removed_kwargs}
use refactoring_pyjwt.Values.{str, bool, Dict, dict, fields, get, set, update, truthy}
use refactoring_pyjwt.Values.Dicts.{SameItems}
use refactoring_pyjwt.Text.{encode_utf8, decode_utf8, ◌dot◌}
use refactoring_pyjwt.Text.Split.{rsplit_dot-dot}
use refactoring_pyjwt.Text.Octets.{encode_utf8-IsByte}
use refactoring_pyjwt.Utils.Base64.{StrOrBytes, base64url_encode}
use refactoring_pyjwt.Algorithms.Keys.{Env, KeyObject}
use refactoring_pyjwt.Jws.State.{PyJws, GivenSigOptions, merge}
use refactoring_pyjwt.Jws.Headers.{validate_headers}
use refactoring_pyjwt.Jws.Keys.{Key, object}
use refactoring_pyjwt.Jws.Encode.{
  Encoder, named, dumps_with, header_typ, resolve_algorithm, build_header, encode,
}
use refactoring_pyjwt.Jws.Token.{Loaded}
use refactoring_pyjwt.Jws.Token.Joined.{joined, joined_text, load-joined}
use refactoring_pyjwt.Jws.Decode.{
  allowed_algorithms, verify_signature, decode_complete, is_detached, before_last_dot,
}
use refactoring_pyjwt.Jws.RoundTrip.{
  Signs, ReadAs, given_headers, by_name-ok, some_given, no_refusal, verify_if-plain,
}

-- The header of the token.
abbrev pub detached_header : String → (kid : Option String) → Dict
detached_header name kid =
    ("typ", str header_typ) ∷ ("alg", str name) ∷ (given_headers kid ++ ("b64", bool false) ∷ [])

-- What is signed has the payload as it is.
abbrev pub detached_input : (json : String) (payload : Bytes) → Bytes
detached_input json payload = base64url_encode (encode_utf8 json) dot payload

detached_resolved :
    (name : String) (kid : Option String) (key : Key)
    → resolve_algorithm (named name) key (given_headers kid) true ≡ (str name, true)
unfolding resolve_algorithm truthy get
detached_resolved name none key = refl
detached_resolved name (some kid) key = refl

detached_built :
    (name : String) (kid : Option String)
    → build_header (str name) (given_headers kid) true ≡ ok (detached_header name kid)
unfolding build_header update get truthy set validate_headers
detached_built name none = refl
detached_built name (some kid) = refl

detached_valid :
    (name : String) (kid : Option String) (header : Dict)
    → SameItems header (detached_header name kid)
    → validate_headers false header ≡ ok tt
unfolding validate_headers get
detached_valid name none header same = rw (same "kid", same "crit")
detached_valid name (some kid) header same = rw (same "kid", same "crit")

marked :
    (name : String) (kid : Option String) (header : Dict)
    → SameItems header (detached_header name kid)
    → is_detached header ≡ true
unfolding get
marked name none header same = rw (same "b64")
marked name (some kid) header same = rw (same "b64")

empty_segment : base64url_encode [] ≡ []
unfolding base64url_encode
empty_segment = refl

front : (b : Bytes) → before_last_dot (b dot base64url_encode []) ≡ b
front b = rw (empty_segment, before_last_dot, rsplit_dot-dot b [] tt)

module _ (env : Env) (jws : PyJws) (name : String) (kid : Option String) (key : KeyObject)
    (encoder : Option Encoder) (sort : Bool) (payload signature : Bytes) (json : String)
    (header : Dict) (algorithms : List String) (options : Option GivenSigOptions) where
  detached-joined :
      (token : String)
      → Signs env jws name key (detached_input json payload) signature
      → dumps_with env encoder sort (dict (fields (detached_header name kid))) ≡ ok json
      → decode_utf8 (joined (encode_utf8 json) [] signature) ≡ ok token
      → (encode env jws payload (object key) (named name) (given_headers kid) encoder true sort).0
        ≡ ok token
  unfolding encode
  detached-joined token s dumped text =
      let spaced = rw empty_segment at text in
      rw (
        detached_resolved name kid (object key),
        detached_built name kid,
        dumped,
        by_name-ok jws name s.by_name,
        s.usable,
        s.signs,
        spaced,
      )

  verify_signature-detached :
      SameItems header (detached_header name kid)
      → Signs env jws name key (detached_input json payload) signature
      → str_eq name "" ≡ false
      → elem name algorithms ≡ true
      → (verify_signature env jws
          (detached_input json payload)
          header
          signature
          (object key)
          (some algorithms)).0
        ≡ ok tt
  unfolding verify_signature get truthy allowed_algorithms catching
  verify_signature-detached same s nonempty allowed =
      rw (same "alg", nonempty, allowed, by_name-ok jws name s.by_name, s.usable, s.verifies)

  detached-decoded :
      (token : String)
      → Signs env jws name key (detached_input json payload) signature
      → encode_utf8 token ≡ joined (encode_utf8 json) [] signature
      → ReadAs env json header (detached_header name kid)
      → str_eq name "" ≡ false
      → elem name algorithms ≡ true
      → (decode_complete env jws
          (StrOrBytes.str token)
          (object key)
          (some algorithms)
          options
          (some payload)
          []).0
        ≡ ok (record { payload = payload; header = header; signature = signature })
  unfolding decode_complete warn_removed_kwargs
  detached-decoded token s spelled read nonempty allowed =
      let on : Bool = (merge jws.options options).verify_signature in
      let l : Loaded = record {
        payload = [];
        signing_input = base64url_encode (encode_utf8 json) dot base64url_encode [];
        header = header;
        signature = signature;
      } in
      rw (
        no_refusal on (is_empty algorithms) true (some_given name algorithms allowed),
        load-joined env token (encode_utf8 json) [] signature header (encode_utf8-IsByte json) tt
            s.is_bytes spelled read.parsed,
        detached_valid name kid header read.same,
        marked name kid header read.same,
        front (base64url_encode (encode_utf8 json)),
        verify_if-plain on env jws (detached_input json payload) l (object key) (some algorithms)
            (verify_signature-detached read.same s nonempty allowed),
      )

  -- A token that encode makes with a detached payload, with no headers of the caller's or a kid, and
  -- with a key with which the named algorithm signs and verifies, has an empty segment in place of the
  -- payload, which may be any bytes. Given the same payload decode_complete returns it with the header and
  -- the signature, for every caller that allows the algorithm, with verification on or off, if the JSON
  -- text of the header, with its keys sorted or not, is read as a dict with the same items, in any order.
  pub decode_complete-encode_detached :
      Signs env jws name key (detached_input json payload) signature
      → dumps_with env encoder sort (dict (fields (detached_header name kid))) ≡ ok json
      → ReadAs env json header (detached_header name kid)
      → str_eq name "" ≡ false
      → elem name algorithms ≡ true
      → (token : String) × (encode_utf8 token ≡ joined (encode_utf8 json) [] signature)
        × ((encode env jws payload
              (object key)
              (named name)
              (given_headers kid)
              encoder
              true
              sort).0
            ≡ ok token)
        × ((decode_complete env jws
              (StrOrBytes.str token)
              (object key)
              (some algorithms)
              options
              (some payload)
              []).0
            ≡ ok (record { payload = payload; header = header; signature = signature }))
  decode_complete-encode_detached s dumped read nonempty allowed =
      let (token, text, spelled) =
        joined_text (encode_utf8 json) [] signature (encode_utf8-IsByte json) tt s.is_bytes in
      (
        token,
        spelled,
        detached-joined token s dumped text,
        detached-decoded token s spelled read nonempty allowed,
      )
