-- ===== src/Jwt/Decode.antt =====
-- jwt/api_jwt.py: `decode_complete`, `decode` and `_decode_payload`.
pub mod Verified
use refactoring_pyjwt.Prelude.{
  String, Bool, true, false, not, Option, none, some, List, [], Bytes, if◌then◌else◌,
}
use refactoring_pyjwt.Prelude.Int.{ℤ}
use refactoring_pyjwt.Exceptions.{Result, ok, catching, value_error, decode_error}
use refactoring_pyjwt.Exceptions as Exceptions
use refactoring_pyjwt.Exceptions.Warned.{
  Warned, lift, warn, deprecation_warning, warn_removed_kwargs, ◌>>=◌, ◌>>◌,
}
use refactoring_pyjwt.Values.{Dict}
use refactoring_pyjwt.Utils.Base64.{StrOrBytes}
use refactoring_pyjwt.Algorithms.Keys.{Env}
use refactoring_pyjwt.Jws.State.{GivenSigOptions}
use refactoring_pyjwt.Jws.Keys.{Key}
use refactoring_pyjwt.Jws.Token.{need_object}
use refactoring_pyjwt.Jws.Decode as JwsDecode
use refactoring_pyjwt.Jwt.Options.{PyJwt, Options, requested, merge_options}
use refactoring_pyjwt.Jwt.Claims.{Expected, validate_claims}

-- The result dict of decode_complete.
pub record DecodedToken : Type 0 where
  pub payload : Dict
  pub header : Dict
  pub signature : Bytes

abbrev same_bool : Bool → Bool → Bool
same_bool true b = b
same_bool false b = not b

unfoldable pub warn_legacy_verify_mismatch :
    (verify : Option Bool) → (verify_signature : Bool) → Warned (Unit {0})
warn_legacy_verify_mismatch none verify_signature = lift (ok tt)
warn_legacy_verify_mismatch (some verify) verify_signature =
    if same_bool verify verify_signature then lift (ok tt) else warn deprecation_warning

unfoldable pub decode_payload : Env → Bytes → Result Dict
decode_payload env payload =
    Exceptions.◌>>=◌ (catching value_error decode_error (env.json_loads (StrOrBytes.bytes payload)))
      need_object

-- The call's own options for the signature hold one key.
abbrev pub signature_only : Bool → GivenSigOptions
signature_only verify = record { verify_signature = some verify; enforce_minimum_key_length = none }

unfoldable pub decode_complete :
    Env
    → PyJwt
    → (now : ℤ) → (token : StrOrBytes) → Key
    → (algorithms : Option (List String)) → (options : Option Options) → (verify : Option Bool)
    → (detached_payload : Option Bytes) → Expected
    → (kwargs : List String) → Warned DecodedToken
decode_complete env jwt now token key algorithms options verify detached_payload expected kwargs =
    do
      warn_removed_kwargs kwargs
      warn_legacy_verify_mismatch verify (requested options)
      decoded ←
          JwsDecode.decode_complete env jwt.jws token key algorithms
            (some (signature_only (requested options))) detached_payload []
      payload ← lift (decode_payload env decoded.payload)
      lift (validate_claims env payload (merge_options jwt.options options) expected now)
      lift (
          ok (record { payload = payload; header = decoded.header; signature = decoded.signature }))

unfoldable pub decode :
    Env
    → PyJwt
    → (now : ℤ) → (token : StrOrBytes) → Key
    → (algorithms : Option (List String)) → (options : Option Options) → (verify : Option Bool)
    → (detached_payload : Option Bytes) → Expected
    → (kwargs : List String) → Warned Dict
decode env jwt now token key algorithms options verify detached_payload expected kwargs = do
  warn_removed_kwargs kwargs
  decoded ←
      decode_complete env jwt now token key algorithms options verify detached_payload expected []
  lift (ok decoded.payload)
