-- ===== src/Jwt/Encode.antt =====
-- jwt/api_jwt.py: `encode`, `_prepare_payload_claims` and `_encode_payload`.
use refactoring_pyjwt.Prelude.{
  ◌/◌, String, Bool, false, not, Option, none, some, List, [], ◌∷◌, Bytes,
}
use refactoring_pyjwt.Prelude.Int.{ℤ, pos, negsuc}
use refactoring_pyjwt.Exceptions.{Result, ok, raise, raise_if, type_error, ◌>>=◌, ◌>>◌}
use refactoring_pyjwt.Exceptions.Warned
use refactoring_pyjwt.Exceptions.Warned.{Warned, lift}
use refactoring_pyjwt.Values.{Value, int, datetime, dict, Dict, as_dict, fields, get, set, is_str}
use refactoring_pyjwt.Text.{encode_utf8}
use refactoring_pyjwt.Algorithms.Keys.{Env}
use refactoring_pyjwt.Jws.Keys.{Key}
use refactoring_pyjwt.Jws.Encode as JwsEncode
use refactoring_pyjwt.Jws.Encode.{AlgorithmArgument, Encoder, dumps_with}
use refactoring_pyjwt.Jwt.Options.{PyJwt}

-- `timegm(d.utctimetuple())`: the microseconds are cut off, towards the past.
unfoldable pub timegm : ℤ → ℤ
timegm (pos n) = pos (n / 1000000)
timegm (negsuc n) = negsuc (n / 1000000)

set_time : String → Dict → Option Value → Dict
unfolding timegm
set_time claim payload (some (datetime t)) = set claim (int (timegm t)) payload
set_time claim payload _ = payload

convert_times : List String → Dict → Dict
unfolding set_time
convert_times [] payload = payload
convert_times (claim ∷ claims) payload =
    convert_times claims (set_time claim payload (get claim payload))

abbrev check_iss : Option Value → Result (Unit {0})
check_iss none = ok tt
check_iss (some iss) = raise_if (not (is_str iss)) type_error

abbrev time_claims : List String
time_claims = "exp" ∷ "iat" ∷ "nbf" ∷ []

abbrev prepare_dict : Option Dict → Result Dict
prepare_dict none = raise type_error
prepare_dict (some payload) =
    check_iss (get "iss" (convert_times time_claims payload))
    >> ok (convert_times time_claims payload)

-- The argument may be any value.
unfoldable pub prepare_payload_claims : (payload : Value) → Result Dict
unfolding convert_times
prepare_payload_claims payload = prepare_dict (as_dict payload)

unfoldable pub encode_payload : Env → Dict → Option Encoder → Result Bytes
encode_payload env payload json_encoder = do
  text ← dumps_with env json_encoder false (dict (fields payload))
  ok (encode_utf8 text)

unfoldable pub encode :
    Env
    → PyJwt
    → (payload : Value) → Key
    → AlgorithmArgument
    → (headers : Dict) → (json_encoder : Option Encoder) → (sort_headers : Bool) → Warned String
encode env jwt payload key algorithm headers json_encoder sort_headers =
    Warned.◌>>=◌
      (lift (do claims ← prepare_payload_claims payload; encode_payload env claims json_encoder))
      (λ json_payload.
        JwsEncode.encode env jwt.jws json_payload key algorithm headers json_encoder false
          sort_headers)
