-- ===== src/Tests/KeyObjects.antt =====
-- Keys of the cryptography package, with one that makes a key of any numbers.
use refactoring_pyjwt.Prelude.{true, some, ◌≡◌, refl, arith}
use refactoring_pyjwt.Exceptions.{ok}
use refactoring_pyjwt.Values.{Value}
use refactoring_pyjwt.Algorithms.Keys.{
  Env, Algorithm, ec_algorithm, sha256, secp256r1, EcPublicNumbers, ec_public, ec_private, crypto,
}
use refactoring_pyjwt.Algorithms.Ec
use refactoring_pyjwt.Algorithms.Ec.Family.{IsEcKey}
use refactoring_pyjwt.Algorithms.Registry.{prepare_key, to_jwk, from_jwk}
use refactoring_pyjwt.Algorithms.Registry.Families.{prepare_key-IsKeyFor}
use refactoring_pyjwt.Algorithms.Registry.JwkForms.{from_jwk-to_jwk_crypto}
use refactoring_pyjwt.Tests as Tests

abbrev crypto_env : Env
crypto_env = record Tests.env {
  has_crypto = true;
  cryptography = record Tests.cryptography { ec_private_key = λ d k. ok (ec_private d k) };
}

abbrev es256 : Algorithm
es256 = ec_algorithm sha256 (some secp256r1)

abbrev point : EcPublicNumbers
point = record { x = 300; y = 5; curve = secp256r1 }

from_jwk-to_jwk_crypto_example :
    (jwk : Value) × (to_jwk crypto_env es256 (crypto (ec_private 7 point)) true ≡ ok jwk)
    × (from_jwk crypto_env es256 jwk ≡ ok (crypto (ec_private 7 point)))
from_jwk-to_jwk_crypto_example =
    from_jwk-to_jwk_crypto crypto_env es256 (ec_private 7 point) refl tt
      ((tt, omega arith, omega arith), omega arith, refl)

prepare_key-IsKeyFor_example : IsEcKey (some secp256r1) (crypto (ec_public point))
unfolding prepare_key Ec.prepare_key Ec.validate_curve
prepare_key-IsKeyFor_example =
    prepare_key-IsKeyFor crypto_env es256 (crypto (ec_public point)) (crypto (ec_public point)) refl
