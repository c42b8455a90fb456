-- ===== src/Algorithms/Registry/JwkForms.antt =====
-- The keys of the asymmetric algorithms in JSON form.
use refactoring_pyjwt.Prelude.{◌^◌, ◌<◌, true, Bytes, All, IsByte, ◌≡◌}
use refactoring_pyjwt.Exceptions.{ok}
use refactoring_pyjwt.Values.{Value}
use refactoring_pyjwt.Algorithms.Keys.{
  Env, Algorithm, rsa_algorithm, rsa_pss_algorithm, ec_algorithm, okp_algorithm, CryptoKey,
  rsa_public, rsa_private, ec_public, ec_private, okp_public, okp_private, crypto,
}
use refactoring_pyjwt.Algorithms.Rsa.RoundTrip as Rsa
use refactoring_pyjwt.Algorithms.Ec.RoundTrip as Ec
use refactoring_pyjwt.Algorithms.Ec.RoundTrip.{IsPoint, coordinate_bytes}
use refactoring_pyjwt.Algorithms.Okp.RoundTrip as Okp
use refactoring_pyjwt.Algorithms.Registry.{to_jwk, from_jwk}

-- The package makes the key from its own numbers or bytes, and these are in range.
abbrev pub IsSelfMade : Env → CryptoKey → Type 0
IsSelfMade env (rsa_public k) = env.cryptography.rsa_public_key k ≡ ok (rsa_public k)
IsSelfMade env (rsa_private k) = env.cryptography.rsa_private_key k ≡ ok (rsa_private k)
IsSelfMade env (ec_public k) = IsPoint k × (env.cryptography.ec_public_key k ≡ ok (ec_public k))
IsSelfMade env (ec_private d k) =
    IsPoint k
    × (d < 256 ^ coordinate_bytes k.curve)
    × (env.cryptography.ec_private_key d k ≡ ok (ec_private d k))
IsSelfMade env (okp_public c x) =
    All IsByte x × (env.cryptography.from_public_bytes c x ≡ ok (okp_public c x))
IsSelfMade env (okp_private c d) =
    (x : Bytes) × All IsByte d
    × All IsByte x
    × (env.cryptography.public_key (okp_private c d) ≡ okp_public c x)
    × (env.cryptography.from_private_bytes c d ≡ ok (okp_private c d))
IsSelfMade env _ = ⊥

-- The algorithm is one for keys of that family.
abbrev pub IsFamily : Algorithm → CryptoKey → Type 0
IsFamily (rsa_algorithm h) (rsa_public k) = Unit
IsFamily (rsa_algorithm h) (rsa_private k) = Unit
IsFamily (rsa_pss_algorithm h) (rsa_public k) = Unit
IsFamily (rsa_pss_algorithm h) (rsa_private k) = Unit
IsFamily (ec_algorithm h c) (ec_public k) = Unit
IsFamily (ec_algorithm h c) (ec_private d k) = Unit
IsFamily okp_algorithm (okp_public c x) = Unit
IsFamily okp_algorithm (okp_private c d) = Unit
IsFamily _ _ = ⊥

-- A public or private RSA, EC or OKP key goes through its JWK, as a dict, unchanged, with the
-- algorithms of its family, if the cryptography package is there and makes the key from its own numbers
-- or bytes, its bytes are bytes, and an EC key is on a curve with a name, with coordinates and secret
-- that fit the curve's size.
pub from_jwk-to_jwk_crypto :
    (env : Env) (alg : Algorithm) (key : CryptoKey)
    → env.has_crypto ≡ true
    → IsFamily alg key
    → IsSelfMade env key
    → (jwk : Value) × (to_jwk env alg (crypto key) true ≡ ok jwk)
      × (from_jwk env alg jwk ≡ ok (crypto key))
unfolding to_jwk from_jwk
from_jwk-to_jwk_crypto env (rsa_algorithm h) (rsa_public k) there f a =
    Rsa.from_jwk-to_jwk_public env k a
from_jwk-to_jwk_crypto env (rsa_algorithm h) (rsa_private k) there f a =
    Rsa.from_jwk-to_jwk_private env k there a
from_jwk-to_jwk_crypto env (rsa_pss_algorithm h) (rsa_public k) there f a =
    Rsa.from_jwk-to_jwk_public env k a
from_jwk-to_jwk_crypto env (rsa_pss_algorithm h) (rsa_private k) there f a =
    Rsa.from_jwk-to_jwk_private env k there a
from_jwk-to_jwk_crypto env (ec_algorithm h c) (ec_public k) there f (point, a) =
    Ec.from_jwk-to_jwk_public env k there point a
from_jwk-to_jwk_crypto env (ec_algorithm h c) (ec_private d k) there f (point, fits, a) =
    Ec.from_jwk-to_jwk_private env k there point d fits a
from_jwk-to_jwk_crypto env okp_algorithm (okp_public c x) there f (all_bytes, a) =
    Okp.from_jwk-to_jwk_public env c x all_bytes a
from_jwk-to_jwk_crypto env okp_algorithm (okp_private c d) there f
      (x, d_bytes, x_bytes, derived, a) =
    Okp.from_jwk-to_jwk_private env c d x d_bytes x_bytes derived a
from_jwk-to_jwk_crypto env _ _ there f a = elim f [ ]
