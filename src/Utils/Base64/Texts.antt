-- ===== src/Utils/Base64/Texts.antt =====
-- base64url as a text, the form it has in JWKs and tokens.
use refactoring_pyjwt.Prelude.{String, [], ◌∷◌, Bytes, All, IsByte, ◌≡◌, ◌<◌}
use refactoring_pyjwt.Exceptions.{ok}
use refactoring_pyjwt.Text.{encode_utf8, decode_utf8}
use refactoring_pyjwt.Text.Utf8.{decode_utf8_ascii}
use refactoring_pyjwt.Text.Split.{HasNoDot}
use refactoring_pyjwt.Utils.Base64.{str, base64url_encode, base64url_decode, force_bytes}
use refactoring_pyjwt.Utils.Base64.RoundTrip.{
  IsUrlChar, base64url_encode-IsUrlChar, base64url_decode-base64url_encode,
}

pub ascii : (b : Bytes) → All IsUrlChar b → All (λ x. x < 128) b
ascii [] h = tt
ascii (x ∷ b) ((p, q, r), h) = (p, ascii b h)

pub no_dot : (b : Bytes) → All IsUrlChar b → HasNoDot b
no_dot [] h = tt
no_dot (x ∷ b) ((p, q, r), h) = (q, no_dot b h)

-- The encoding is a text, from which base64url_decode gets the bytes too.
pub base64url_text :
    (b : Bytes)
    → All IsByte b
    → (s : String) × (decode_utf8 (base64url_encode b) ≡ ok s)
      × (encode_utf8 s ≡ base64url_encode b)
      × (base64url_decode (str s) ≡ ok b)
unfolding base64url_decode force_bytes
base64url_text b h =
    let (s, e, f) =
      decode_utf8_ascii (base64url_encode b) (ascii _ (base64url_encode-IsUrlChar b h)) in
    (s, e, f, rw f (base64url_decode-base64url_encode b h))
