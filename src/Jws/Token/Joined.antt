-- ===== src/Jws/Token/Joined.antt =====
-- Three segments joined by dots, and `_load` of them.
use mathlib.Core.List.{append_assoc}
use refactoring_pyjwt.Prelude.{String, ◌∷◌, Bytes, All, All-append, IsByte, ◌≡◌, ◌<◌, arith, some}
use refactoring_pyjwt.Exceptions.{ok, catching}
use refactoring_pyjwt.Values.{Dict, dict, fields, items-fields}
use refactoring_pyjwt.Text.{encode_utf8, decode_utf8, ◌dot◌, rsplit_dot}
use refactoring_pyjwt.Text.Utf8.{decode_utf8_ascii}
use refactoring_pyjwt.Text.Split.{split_dot-dot, rsplit_dot-dot}
use refactoring_pyjwt.Utils.Base64.{StrOrBytes, base64url_encode}
use refactoring_pyjwt.Utils.Base64.RoundTrip.{
  base64url_encode-IsUrlChar, base64url_decode-base64url_encode,
}
use refactoring_pyjwt.Utils.Base64.Texts.{ascii, no_dot}
use refactoring_pyjwt.Algorithms.Keys.{Env}
use refactoring_pyjwt.Jws.Token.{split_token, decode_segment, load, parse_header, token_bytes}

-- header "." payload "." signature, each in base64url
abbrev pub joined : (header payload signature : Bytes) → Bytes
joined header payload signature =
    base64url_encode header dot (base64url_encode payload dot base64url_encode signature)

abbrev IsAscii : Bytes → Type 0
IsAscii = All (λ x. x < 128)

segment-IsAscii : (b : Bytes) → All IsByte b → IsAscii (base64url_encode b)
segment-IsAscii b h = ascii _ (base64url_encode-IsUrlChar b h)

module _ (header payload signature : Bytes) (h : All IsByte header) (p : All IsByte payload)
    (s : All IsByte signature) where
  -- The joined segments are a text.
  pub joined_text :
      (token : String) × (decode_utf8 (joined header payload signature) ≡ ok token)
      × (encode_utf8 token ≡ joined header payload signature)
  joined_text = decode_utf8_ascii (joined header payload signature) (
      All-append (λ x. x < 128) (base64url_encode header) _ (segment-IsAscii header h)
        (
          omega arith,
          All-append (λ x. x < 128) (base64url_encode payload) _ (segment-IsAscii payload p)
              (omega arith, segment-IsAscii signature s),
        ))

  split_token-joined :
      split_token (joined header payload signature)
      ≡ ok (record {
        signing_input = base64url_encode header dot base64url_encode payload;
        header_segment = base64url_encode header;
        payload_segment = base64url_encode payload;
        crypto_segment = base64url_encode signature;
      })
  unfolding split_token
  split_token-joined =
      let last_part = no_dot _ (base64url_encode-IsUrlChar signature s) in
      let first_part = no_dot _ (base64url_encode-IsUrlChar header h) in
      let apart : rsplit_dot (joined header payload signature)
          ≡ some
              (base64url_encode header dot base64url_encode payload, base64url_encode signature) =
        rw
          (← append_assoc (base64url_encode header) (b'.' ∷ base64url_encode payload)
            (b'.' ∷ base64url_encode signature))
          (rsplit_dot-dot (base64url_encode header dot base64url_encode payload)
            (base64url_encode signature) last_part) in
      rw (apart, split_dot-dot (base64url_encode header) (base64url_encode payload) first_part)

decode_segment-base64url_encode :
    (b : Bytes) → All IsByte b → decode_segment (base64url_encode b) ≡ ok b
unfolding decode_segment catching
decode_segment-base64url_encode b h = rw (base64url_decode-base64url_encode b h)

module _ (env : Env) (token : String) (header payload signature : Bytes) (d : Dict)
    (h : All IsByte header) (p : All IsByte payload) (s : All IsByte signature) where
  -- `_load` gets the parts out of a token again.
  pub load-joined :
      encode_utf8 token ≡ joined header payload signature
      → env.json_loads (StrOrBytes.bytes header) ≡ ok (dict (fields d))
      → load env (StrOrBytes.str token)
        ≡ ok (record {
          payload = payload;
          signing_input = base64url_encode header dot base64url_encode payload;
          header = d;
          signature = signature;
        })
  unfolding load token_bytes parse_header catching
  load-joined e parsed = rw (
    e,
    split_token-joined header payload signature h p s,
    decode_segment-base64url_encode header h,
    parsed,
    items-fields d,
    decode_segment-base64url_encode payload p,
    decode_segment-base64url_encode signature s,
  )
