-- ===== src/Jws/Decode/KeyChecked.antt =====
-- The key with which a token has been accepted.
use refactoring_pyjwt.Prelude.{true, Option, List, String, Bytes, ◌≡◌}
use refactoring_pyjwt.Exceptions.{ok}
use refactoring_pyjwt.Utils.Base64.{StrOrBytes}
use refactoring_pyjwt.Algorithms.Keys.{Env}
use refactoring_pyjwt.Algorithms.Registry.Families.{IsKeyFor}
use refactoring_pyjwt.Jws.State.{PyJws, GivenSigOptions, merge}
use refactoring_pyjwt.Jws.Keys.{Key}
use refactoring_pyjwt.Jws.Keys.Enforced.{IsLong, prepare_signing_key-IsLong}
use refactoring_pyjwt.Jws.Decode.{Decoded, decode_complete}
use refactoring_pyjwt.Jws.Decode.Verified.{IsChecked, decode_complete-IsChecked}

-- An object whose options enforce key lengths accepts no token with a weak key or with one of another
-- family. Where decode_complete returns with verification on, every check of it has passed, and the key
-- that verified the signature, which is the given key as the selected algorithm prepared it, is of the
-- algorithm's own family where that is a default algorithm, and long: an HMAC secret has at least the
-- digest's size, an RSA key at least 2048 bits, and a custom algorithm's own check_key_length finds it
-- long enough.
pub decode_complete-IsLong :
    (env : Env) (jws : PyJws) (token : StrOrBytes) (key : Key) (algorithms : Option (List String))
    (options : Option GivenSigOptions) (detached_payload : Option Bytes) (kwargs : List String)
    (d : Decoded)
    → jws.options.enforce_minimum_key_length ≡ true
    → (merge jws.options options).verify_signature ≡ true
    → (decode_complete env jws token key algorithms options detached_payload kwargs).0 ≡ ok d
    → (checked : IsChecked env jws token key algorithms detached_payload d) × IsKeyFor
        checked.verified.algorithm checked.verified.prepared
      × IsLong checked.verified.algorithm checked.verified.prepared
decode_complete-IsLong env jws token key algorithms options detached_payload kwargs d enforced on
      h =
    let checked =
      decode_complete-IsChecked env jws token key algorithms options detached_payload kwargs on h in
    let v = checked.verified in
    let (family, long) =
      prepare_signing_key-IsLong env jws v.algorithm key v.prepared v.by_algorithm in
    (checked, family, long enforced)
