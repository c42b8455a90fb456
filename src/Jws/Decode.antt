-- ===== src/Jws/Decode.antt =====
-- jwt/api_jws.py: `decode_complete`, `decode` and `_verify_signature`.
pub mod Verified
pub mod NoneRefused
pub mod KeyChecked
pub mod KeyBound
use refactoring_pyjwt.Prelude.{
  String, Bool, true, false, not, ◌&&◌, ◌||◌, Option, none, some, List, [], ◌∷◌, Bytes, is_empty,
  elem, if◌then◌else◌,
}
use refactoring_pyjwt.Exceptions.{
  Result, ok, err, raise, raise_if, catching, not_implemented_error, decode_error,
  invalid_algorithm_error, invalid_signature_error,
}
use refactoring_pyjwt.Exceptions as Exceptions
use refactoring_pyjwt.Exceptions.Warned.{Warned, lift, warn_removed_kwargs, ◌>>=◌, ◌>>◌}
use refactoring_pyjwt.Values.{Value, str, bool, Dict, get, is_str, truthy, is_false, or_null}
use refactoring_pyjwt.Text.{◌dot◌, rsplit_dot}
use refactoring_pyjwt.Utils.Base64.{StrOrBytes}
use refactoring_pyjwt.Algorithms.Keys.{Env, Algorithm}
use refactoring_pyjwt.Algorithms.Registry
use refactoring_pyjwt.Jws.State.{PyJws, GivenSigOptions, SigOptions, merge, get_algorithm_by_name}
use refactoring_pyjwt.Jws.Headers.{validate_headers}
use refactoring_pyjwt.Jws.Keys.{Key, object, jwk, is_jwk, prepare_signing_key}
use refactoring_pyjwt.Jws.Token.{Loaded, load}

-- The result dict of decode_complete.
pub record Decoded : Type 0 where
  pub payload : Bytes
  pub header : Dict
  pub signature : Bytes

-- `if algorithms is None and isinstance(key, PyJWK): algorithms = [key.algorithm_name]`
unfoldable pub allowed_algorithms : Key → Option (List String) → Option (List String)
allowed_algorithms (jwk k) none = some (k.algorithm_name ∷ [])
allowed_algorithms key algorithms = algorithms

-- `alg in algorithms`, for a list of texts
abbrev pub value_in : Value → List String → Bool
value_in (str s) names = elem s names
value_in _ names = false

abbrev pub is_allowed : Value → Option (List String) → Bool
is_allowed alg none = true
is_allowed alg (some names) = value_in alg names

abbrev pub header_alg : Option Value → Result Value
header_alg none = raise invalid_algorithm_error
header_alg (some alg) = ok alg

abbrev pub algorithm_for : PyJws → Key → Value → Result Algorithm
algorithm_for jws (jwk k) alg = ok k.algorithm
algorithm_for jws (object k) alg =
    catching not_implemented_error invalid_algorithm_error (get_algorithm_by_name jws alg)

unfoldable pub verify_signature :
    Env
    → PyJws
    → (signing_input : Bytes) → (header : Dict) → (signature : Bytes) → Key
    → (algorithms : Option (List String)) → Warned (Unit {0})
unfolding prepare_signing_key
verify_signature env jws signing_input header signature key algorithms = do
  alg ← lift (header_alg (get "alg" header))
  lift (
      raise_if (not (truthy alg) || not (is_allowed alg (allowed_algorithms key algorithms)))
        invalid_algorithm_error)
  alg_obj ← lift (algorithm_for jws key alg)
  prepared_key ← prepare_signing_key env jws alg_obj key
  verified ← lift (Registry.verify env alg_obj signing_input prepared_key signature)
  lift (raise_if (not verified) invalid_signature_error)

-- `not algorithms`
abbrev pub none_given : Option (List String) → Bool
none_given none = true
none_given (some names) = is_empty names

-- `header.get("b64", True) is False`
abbrev pub is_detached : Dict → Bool
is_detached header = is_false (or_null (get "b64" header))

-- `signing_input.rsplit(b".", 1)[0]`: all of it, where there is no dot.
abbrev pub before_last_dot : Bytes → Bytes
before_last_dot b = elim (rsplit_dot b) [ none ↦ b | some (front, back) ↦ front ]

-- The payload and the signing input that count.
abbrev pub detach : (detached : Bool) → Loaded → Option Bytes → Result (Bytes × Bytes)
detach false l detached_payload = ok (l.payload, l.signing_input)
detach true l none = raise decode_error
detach true l (some payload) = ok (payload, before_last_dot l.signing_input dot payload)

abbrev pub verify_if :
    Bool → Env → PyJws → Bytes → Loaded → Key → Option (List String) → Warned (Unit {0})
verify_if false env jws signing_input l key algorithms = lift (ok tt)
verify_if true env jws signing_input l key algorithms =
    verify_signature env jws signing_input l.header l.signature key algorithms

unfoldable pub decode_complete :
    Env
    → PyJws
    → (jwt : StrOrBytes) → Key
    → (algorithms : Option (List String)) → (options : Option GivenSigOptions)
    → (detached_payload : Option Bytes) → (kwargs : List String) → Warned Decoded
decode_complete env jws jwt key algorithms options detached_payload kwargs = do
  warn_removed_kwargs kwargs
  let merged = merge jws.options options
  let verifies = merged.verify_signature
  lift (raise_if (verifies && none_given algorithms && not (is_jwk key)) decode_error)
  l ← lift (load env jwt)
  lift (validate_headers false l.header)
  (payload, signing_input) ← lift (detach (is_detached l.header) l detached_payload)
  verify_if verifies env jws signing_input l key algorithms
  lift (ok (record { payload = payload; header = l.header; signature = l.signature }))

unfoldable pub decode :
    Env
    → PyJws
    → (jwt : StrOrBytes) → Key
    → (algorithms : Option (List String)) → (options : Option GivenSigOptions)
    → (detached_payload : Option Bytes) → (kwargs : List String) → Warned Bytes
decode env jws jwt key algorithms options detached_payload kwargs = do
  warn_removed_kwargs kwargs
  decoded ← decode_complete env jws jwt key algorithms options detached_payload []
  lift (ok decoded.payload)
