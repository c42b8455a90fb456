-- ===== src/Jws/Encode.antt =====
-- jwt/api_jws.py: `encode`, with `_resolve_algorithm` and `_build_header`.
use refactoring_pyjwt.Prelude.{
  String, Bool, true, false, ◌||◌, Option, none, some, [], ◌∷◌, Bytes, is_empty, if◌then◌else◌,
}
use refactoring_pyjwt.Exceptions.{Result, ok, err}
use refactoring_pyjwt.Exceptions as Exceptions
use refactoring_pyjwt.Exceptions.Warned.{Warned, lift, ◌>>=◌}
use refactoring_pyjwt.Values.{
  Value, str, bool, dict, Dict, fields, get, has, set, remove, update, or_null, truthy, is_false,
}
use refactoring_pyjwt.Text.{◌dot◌, encode_utf8, decode_utf8}
use refactoring_pyjwt.Utils.Base64.{base64url_encode}
use refactoring_pyjwt.Algorithms.Keys.{Env}
use refactoring_pyjwt.Algorithms.Registry
use refactoring_pyjwt.Jws.State.{PyJws, get_algorithm_by_name}
use refactoring_pyjwt.Jws.Headers.{validate_headers}
use refactoring_pyjwt.Jws.Keys.{Key, object, jwk, prepare_signing_key}

-- The argument `algorithm`: left out, None, or a name.
pub data AlgorithmArgument : Type 0 where
  unset : AlgorithmArgument
  no_algorithm : AlgorithmArgument
  named : String → AlgorithmArgument

-- `json_encoder`: json.dumps with a class of the caller's, by `sort_keys`.
abbrev pub Encoder : Type 0
Encoder = (sort_keys : Bool) → Value → Result String

abbrev pub dumps_with : Env → Option Encoder → Encoder
dumps_with env none = env.json_dumps
dumps_with env (some encoder) = encoder

abbrev default_name : Key → String → String
default_name (object k) name = name
default_name (jwk k) name = k.algorithm_name

abbrev argument_name : AlgorithmArgument → Key → String
argument_name unset key = default_name key "HS256"
argument_name no_algorithm key = default_name key "none"
argument_name (named name) key = name

-- None is the empty dict here: the code tests `if headers`.
unfoldable pub resolve_algorithm :
    AlgorithmArgument → Key → (headers : Dict) → (is_payload_detached : Bool) → Value × Bool
resolve_algorithm algorithm key headers is_payload_detached =
    let given = or_null (get "alg" headers) in
    (
      if truthy given then given else str (argument_name algorithm key),
      is_false (or_null (get "b64" headers)) || is_payload_detached,
    )

abbrev pub header_typ : String
header_typ = "JWT"

abbrev without_empty_typ : Dict → Dict
without_empty_typ header =
    if truthy (or_null (get "typ" header)) then header else remove "typ" header

abbrev with_b64 : Bool → Dict → Dict
with_b64 true header = set "b64" (bool false) header
with_b64 false header = if has "b64" header then remove "b64" header else header

abbrev check_given : Dict → Result (Unit {0})
check_given headers = if is_empty headers then ok tt else validate_headers true headers

unfoldable pub build_header :
    (algorithm : Value) → (headers : Dict) → (is_payload_detached : Bool) → Result Dict
build_header algorithm headers is_payload_detached = Exceptions.◌>>◌ (check_given headers) (
    ok (
      with_b64 is_payload_detached
        (without_empty_typ (update (("typ", str header_typ) ∷ ("alg", algorithm) ∷ []) headers))))

unfoldable pub encode :
    Env
    → PyJws
    → (payload : Bytes) → Key
    → AlgorithmArgument
    → (headers : Dict) → (json_encoder : Option Encoder) → (is_payload_detached sort_headers : Bool)
    → Warned String
unfolding prepare_signing_key
encode env jws payload key algorithm headers json_encoder is_payload_detached sort_headers = do
  let resolved = resolve_algorithm algorithm key headers is_payload_detached
  let detached = resolved.1
  header ← lift (build_header resolved.0 headers detached)
  json_header ← lift (dumps_with env json_encoder sort_headers (dict (fields header)))
  let header_segment = base64url_encode (encode_utf8 json_header)
  let payload_segment = if detached then payload else base64url_encode payload
  let signing_input = header_segment dot payload_segment
  alg_obj ← lift (get_algorithm_by_name jws resolved.0)
  prepared_key ← prepare_signing_key env jws alg_obj key
  signature ← lift (Registry.sign env alg_obj signing_input prepared_key)
  let sent_payload = if detached then [] else payload_segment
  lift (decode_utf8 (header_segment dot (sent_payload dot base64url_encode signature)))
