-- ===== src/Algorithms/Okp/RoundTrip.antt =====
-- OKP keys in JSON form.
use refactoring_pyjwt.Prelude.{true, [], ◌∷◌, Bytes, All, IsByte, ◌≡◌}
use refactoring_pyjwt.Exceptions.{ok, catching}
use refactoring_pyjwt.Values.{Value, str, dict, fields, get}
use refactoring_pyjwt.Algorithms.Keys.{
  Env, EdwardsCurve, ed25519, ed448, okp_public, okp_private, crypto,
}
use refactoring_pyjwt.Algorithms.Jwk.{parse_jwk_json, serialize_jwk}
use refactoring_pyjwt.Algorithms.Jwk.Texts.{bytes_text_lem}
use refactoring_pyjwt.Algorithms.Okp.{to_jwk, from_jwk, public_from, private_from}

pub from_jwk-to_jwk_public :
    (env : Env) (c : EdwardsCurve) (x : Bytes)
    → All IsByte x
    → env.cryptography.from_public_bytes c x ≡ ok (okp_public c x)
    → (jwk : Value) × (to_jwk env (crypto (okp_public c x)) true ≡ ok jwk)
      × (from_jwk env jwk ≡ ok (crypto (okp_public c x)))
unfolding to_jwk from_jwk public_from private_from serialize_jwk parse_jwk_json catching get
from_jwk-to_jwk_public env ed25519 x all_bytes accepted =
    let (s, made, read) = bytes_text_lem x all_bytes in
    (
      dict (fields (("x", str s) ∷ ("kty", str "OKP") ∷ ("crv", str "Ed25519") ∷ [])),
      rw made,
      rw (read, accepted),
    )
from_jwk-to_jwk_public env ed448 x all_bytes accepted =
    let (s, made, read) = bytes_text_lem x all_bytes in
    (
      dict (fields (("x", str s) ∷ ("kty", str "OKP") ∷ ("crv", str "Ed448") ∷ [])),
      rw made,
      rw (read, accepted),
    )

pub from_jwk-to_jwk_private :
    (env : Env) (c : EdwardsCurve) (d x : Bytes)
    → All IsByte d
    → All IsByte x
    → env.cryptography.public_key (okp_private c d) ≡ okp_public c x
    → env.cryptography.from_private_bytes c d ≡ ok (okp_private c d)
    → (jwk : Value) × (to_jwk env (crypto (okp_private c d)) true ≡ ok jwk)
      × (from_jwk env jwk ≡ ok (crypto (okp_private c d)))
unfolding to_jwk from_jwk public_from private_from serialize_jwk parse_jwk_json catching get
from_jwk-to_jwk_private env ed25519 d x d_bytes x_bytes derived accepted =
    let (s, x_made, x_read) = bytes_text_lem x x_bytes in
    let (t, d_made, d_read) = bytes_text_lem d d_bytes in
    (
      dict
          (fields (("x", str s) ∷ ("d", str t) ∷ ("kty", str "OKP") ∷ ("crv", str "Ed25519") ∷ [])),
      rw (derived, x_made, d_made),
      rw (x_read, d_read, accepted),
    )
from_jwk-to_jwk_private env ed448 d x d_bytes x_bytes derived accepted =
    let (s, x_made, x_read) = bytes_text_lem x x_bytes in
    let (t, d_made, d_read) = bytes_text_lem d d_bytes in
    (
      dict (fields (("x", str s) ∷ ("d", str t) ∷ ("kty", str "OKP") ∷ ("crv", str "Ed448") ∷ [])),
      rw (derived, x_made, d_made),
      rw (x_read, d_read, accepted),
    )
