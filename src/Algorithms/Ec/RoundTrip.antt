-- ===== src/Algorithms/Ec/RoundTrip.antt =====
-- EC keys in JSON form.
use refactoring_pyjwt.Prelude.{ℕ, ==_refl, ◌+◌, ◌/◌, ◌^◌, ◌<◌, String, true, [], ◌∷◌, ◌≡◌, arith}
use refactoring_pyjwt.Exceptions.{ok, catching}
use refactoring_pyjwt.Values.{Value, str, dict, fields, get, find}
use refactoring_pyjwt.Utils.Integers.RoundTrip.{from_bytes-be_bytes, length-be_bytes}
use refactoring_pyjwt.Algorithms.Keys.{
  Env, Curve, secp256r1, secp384r1, secp521r1, secp256k1, other_curve, key_size, EcPublicNumbers,
  ec_public, ec_private, crypto,
}
use refactoring_pyjwt.Algorithms.Jwk.Texts.{uint_text_lem}
use refactoring_pyjwt.Algorithms.Jwk.{
  parse_jwk_json, serialize_jwk, resolve_ec_curve_from_jwk, jwk_curve_name,
}
use refactoring_pyjwt.Algorithms.Ec.{to_jwk, from_jwk, point_dict, private_from, public_from}

-- The curves that have a name in JWKs, and the bytes of a coordinate.
abbrev pub IsNamed : Curve → Type 0
IsNamed (other_curve n) = ⊥
IsNamed _ = Unit

abbrev pub coordinate_bytes : Curve → ℕ
coordinate_bytes curve = (key_size curve + 7) / 8

named_back :
    (env : Env) (curve : Curve)
    → env.has_crypto ≡ true
    → IsNamed curve
    → (crv : String) × (jwk_curve_name env curve ≡ ok crv)
      × (resolve_ec_curve_from_jwk env (str crv) (coordinate_bytes curve) (coordinate_bytes curve)
          ≡ ok curve)
unfolding jwk_curve_name resolve_ec_curve_from_jwk find get
named_back env secp256r1 h n = ("P-256", rw h, rw h)
named_back env secp384r1 h n = ("P-384", rw h, rw h)
named_back env secp521r1 h n = ("P-521", rw h, rw h)
named_back env secp256k1 h n = ("secp256k1", rw h, rw h)
named_back env (other_curve m) h n = elim n [ ]

long_enough : (curve : Curve) → IsNamed curve → 0 < coordinate_bytes curve
long_enough secp256r1 n = omega arith
long_enough secp384r1 n = omega arith
long_enough secp521r1 n = omega arith
long_enough secp256k1 n = omega arith
long_enough (other_curve m) n = elim n [ ]

-- A point of a named curve whose coordinates fit the curve's size.
abbrev pub IsPoint : EcPublicNumbers → Type 0
IsPoint k =
    IsNamed k.curve
    × (k.x < 256 ^ coordinate_bytes k.curve)
    × (k.y < 256 ^ coordinate_bytes k.curve)

module _ (env : Env) (k : EcPublicNumbers) (there : env.has_crypto ≡ true) (point : IsPoint k) where
  pub from_jwk-to_jwk_public :
      env.cryptography.ec_public_key k ≡ ok (ec_public k)
      → (jwk : Value) × (to_jwk env (crypto (ec_public k)) true ≡ ok jwk)
        × (from_jwk env jwk ≡ ok (crypto (ec_public k)))
  unfolding to_jwk from_jwk point_dict private_from public_from serialize_jwk parse_jwk_json
      catching get
  from_jwk-to_jwk_public accepted =
      let (named, x_fits, y_fits) = point in
      let size = coordinate_bytes k.curve in
      let (crv, crv_made, crv_read) = named_back env k.curve there named in
      let (x, x_made, x_read) =
        uint_text_lem k.x (key_size k.curve) (long_enough k.curve named) x_fits in
      let (y, y_made, y_read) =
        uint_text_lem k.y (key_size k.curve) (long_enough k.curve named) y_fits in
      (
        dict (fields (("kty", str "EC") ∷ ("crv", str crv) ∷ ("x", str x) ∷ ("y", str y) ∷ [])),
        rw (crv_made, x_made, y_made),
        rw (
          x_read,
          y_read,
          length-be_bytes size k.x,
          length-be_bytes size k.y,
          crv_read,
          from_bytes-be_bytes size k.x x_fits,
          from_bytes-be_bytes size k.y y_fits,
          accepted,
        ),
      )

  pub from_jwk-to_jwk_private :
      (d : ℕ)
      → d < 256 ^ coordinate_bytes k.curve
      → env.cryptography.ec_private_key d k ≡ ok (ec_private d k)
      → (jwk : Value) × (to_jwk env (crypto (ec_private d k)) true ≡ ok jwk)
        × (from_jwk env jwk ≡ ok (crypto (ec_private d k)))
  unfolding to_jwk from_jwk point_dict private_from public_from serialize_jwk parse_jwk_json
      catching get
  from_jwk-to_jwk_private d d_fits accepted =
      let (named, x_fits, y_fits) = point in
      let size = coordinate_bytes k.curve in
      let (crv, crv_made, crv_read) = named_back env k.curve there named in
      let (x, x_made, x_read) =
        uint_text_lem k.x (key_size k.curve) (long_enough k.curve named) x_fits in
      let (y, y_made, y_read) =
        uint_text_lem k.y (key_size k.curve) (long_enough k.curve named) y_fits in
      let (e, d_made, d_read) =
        uint_text_lem d (key_size k.curve) (long_enough k.curve named) d_fits in
      (
        dict (
            fields (
              ("kty", str "EC")
              ∷ ("crv", str crv)
              ∷ ("x", str x)
              ∷ ("y", str y)
              ∷ ("d", str e)
              ∷ [])),
        rw (crv_made, x_made, y_made, d_made),
        rw (
          x_read,
          y_read,
          length-be_bytes size k.x,
          length-be_bytes size k.y,
          crv_read,
          from_bytes-be_bytes size k.x x_fits,
          from_bytes-be_bytes size k.y y_fits,
          d_read,
          length-be_bytes size d,
          ==_refl size,
          from_bytes-be_bytes size d d_fits,
          accepted,
        ),
      )
