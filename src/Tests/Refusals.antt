-- ===== src/Tests/Refusals.antt =====
-- Tokens and keys that are refused, and a secret in JSON form.
use refactoring_pyjwt.Prelude.{true, [], ◌∷◌, ◌≡◌, arith}
use refactoring_pyjwt.Exceptions.{ok}
use refactoring_pyjwt.Values.{Value}
use refactoring_pyjwt.Algorithms.Keys.{raw}
use refactoring_pyjwt.Algorithms.Hmac
use refactoring_pyjwt.Algorithms.Hmac.Laws.{from_jwk-to_jwk}
use refactoring_pyjwt.Tests.{env}

from_jwk-to_jwk_example :
    (jwk : Value) × (Hmac.to_jwk env (raw (1 ∷ 2 ∷ [])) true ≡ ok jwk)
    × (Hmac.from_jwk env jwk ≡ ok (raw (1 ∷ 2 ∷ [])))
from_jwk-to_jwk_example = from_jwk-to_jwk env (1 ∷ 2 ∷ []) (omega arith, (omega arith, tt))
