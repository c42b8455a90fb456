-- ===== src/Jws/Keys.antt =====
-- jwt/api_jws.py: `_prepare_signing_key`, and the keys that the methods take.
pub mod Enforced
use refactoring_pyjwt.Prelude.{Bool, true, false, Option, none, some}
use refactoring_pyjwt.Exceptions.{ok, raise, invalid_key_error}
use refactoring_pyjwt.Exceptions.Warned.{
  Warned, lift, warn, insecure_key_length_warning, ◌>>=◌, ◌>>◌,
}
use refactoring_pyjwt.Algorithms.Keys.{Env, Algorithm, KeyObject, ShortKey}
use refactoring_pyjwt.Algorithms.Registry
use refactoring_pyjwt.Jwk.{PyJwk}
use refactoring_pyjwt.Jws.State.{PyJws}

pub data Key : Type 0 where
  object : KeyObject → Key
  jwk : PyJwk → Key

-- `if isinstance(key, PyJWK): key = key.key`
abbrev pub key_object : Key → KeyObject
key_object (object k) = k
key_object (jwk k) = k.key

abbrev pub is_jwk : Key → Bool
is_jwk (object k) = false
is_jwk (jwk k) = true

check_length : (enforce : Bool) → KeyObject → Option ShortKey → Warned KeyObject
check_length enforce prepared none = lift (ok prepared)
check_length true prepared (some short) = lift (raise invalid_key_error)
check_length false prepared (some short) = do warn insecure_key_length_warning; lift (ok prepared)

unfoldable pub prepare_signing_key : Env → PyJws → Algorithm → Key → Warned KeyObject
unfolding check_length
prepare_signing_key env jws alg_obj key = do
  prepared_key ← lift (Registry.prepare_key env alg_obj (key_object key))
  check_length jws.options.enforce_minimum_key_length prepared_key
      (Registry.check_key_length alg_obj prepared_key)
