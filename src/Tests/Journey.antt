-- ===== src/Tests/Journey.antt =====
-- A token with a kid, and an endpoint that has its key.
use refactoring_pyjwt.Prelude.{
  String, Bool, true, none, some, [], ◌∷◌, Bytes, bytes_eq, bytes_eq_refl, ◌∙◌, ◌≡◌, arith, refl,
  if◌then◌else◌,
}
use refactoring_pyjwt.Prelude.Int.{pos}
use refactoring_pyjwt.Exceptions.{Result, ok, raise, type_error, value_error, is_subclass, catching}
use refactoring_pyjwt.Values.{
  Value, str, list, cons, nil, dict, field, fields, end, get, truthy, find, Dict,
}
use refactoring_pyjwt.Values.Dicts.{SameItems, swap-SameItems, cons-SameItems}
use refactoring_pyjwt.Text.{encode_utf8}
use refactoring_pyjwt.Utils.Base64.{StrOrBytes, base64url_decode, force_bytes}
use refactoring_pyjwt.Utils.KeyFormats.{is_pem_format, is_ssh_key}
use refactoring_pyjwt.Algorithms.Keys.{Env, sha256, hmac_algorithm, raw}
use refactoring_pyjwt.Algorithms.Jwk.{parse_jwk_json}
use refactoring_pyjwt.Algorithms.Registry
use refactoring_pyjwt.Algorithms.Hmac
use refactoring_pyjwt.Jwk.{PyJwk}
use refactoring_pyjwt.Jwk
use refactoring_pyjwt.Jwk.KeySet
use refactoring_pyjwt.Jws.Keys.{object, jwk, prepare_signing_key}
use refactoring_pyjwt.Jws.Encode.{named}
use refactoring_pyjwt.Jws.RoundTrip.{Signs, ReadAs, signing_input, token_header}
use refactoring_pyjwt.Jws.RoundTrip.Hmac.{hmac_algorithm-Signs}
use refactoring_pyjwt.Jws.RoundTrip.Published.{Accepts}
use refactoring_pyjwt.Jwt.Options.{default_options, merge_options}
use refactoring_pyjwt.Jwt.Claims.{
  validate_claims, validate_required_claims, validate_iss, validate_aud, validate_sub, validate_jti,
}
use refactoring_pyjwt.Jwt.Encode as JwtEncode
use refactoring_pyjwt.Jwt.Decode as JwtDecode
use refactoring_pyjwt.Jwt.Globals.{no_expectation}
use refactoring_pyjwt.Jwks.Calls.{Web, World}
use refactoring_pyjwt.Jwks.Client.{PyJwkClient}
use refactoring_pyjwt.Jwks.Client.Fetch.{fetch_data, get_jwk_set}
use refactoring_pyjwt.Jwks.Client.Lookup.{
  get_signing_keys, find_signing_key, get_signing_key, get_signing_key_from_jwt,
}
use refactoring_pyjwt.Jwks.Client.Reach.{fresh}
use refactoring_pyjwt.Jwks.Client.Tokens.{decode-get_signing_key_from_jwt}
use refactoring_pyjwt.Tests as Tests
use refactoring_pyjwt.Tests.{jwt, secret, payload_text, payload_value}

abbrev header_text : String
header_text = "{\"alg\":\"HS256\",\"kid\":\"a\",\"typ\":\"JWT\"}"

abbrev header_dict : Dict
header_dict = ("alg", str "HS256") ∷ ("kid", str "a") ∷ ("typ", str "JWT") ∷ []

abbrev jwk_value : Dict
jwk_value =
    ("kty", str "oct")
    ∷ ("kid", str "a")
    ∷ ("alg", str "HS256")
    ∷ ("k", str "c3Nzc3Nzc3Nzc3Nzc3Nzc3Nzc3Nzc3Nzc3Nzc3Nzc3M")
    ∷ []

abbrev set_text : Bytes
set_text = encode_utf8 "{\"keys\":[…]}"

abbrev loads : StrOrBytes → Result Value
loads (StrOrBytes.bytes b) =
    if bytes_eq b (encode_utf8 header_text)
    then ok (dict (fields header_dict))
    else if bytes_eq b (encode_utf8 payload_text)
    then ok payload_value
    else if bytes_eq b set_text
    then ok (dict (field "keys" (list (cons (dict (fields jwk_value)) nil)) end))
    else raise value_error
loads (StrOrBytes.str s) = raise value_error
loads StrOrBytes.other = raise type_error

abbrev dumps : Bool → Value → Result String
dumps sort_keys (dict (field k v (field l w fs))) = ok header_text
dumps sort_keys _ = ok payload_text

abbrev env : Env
env = record Tests.env { json_loads = loads; json_dumps = dumps }

abbrev web : Web
web = record { respond = λ asked number. ok set_text; monotonic = λ n. pos n }

abbrev client : PyJwkClient
client = record {
  uri = "https://a/jwks";
  headers = [];
  timeout = pos 30000000;
  ssl_context = none;
  jwk_set_cache = none;
  signing_key_cache = none;
}

abbrev published : PyJwk
published = record {
  jwk_data = jwk_value;
  algorithm_name = "HS256";
  algorithm = hmac_algorithm sha256;
  key = raw secret;
}

abbrev after : World PyJwkClient
after = record { object = client; requests = 1; readings = 0 }

abbrev claims : Dict
claims = ("sub", str "a") ∷ []

abbrev input : Bytes
input = signing_input header_text (encode_utf8 payload_text)

abbrev signature : Bytes
signature = env.hmac_digest sha256 secret input

signs : Signs env jwt.jws "HS256" (raw secret) input signature
unfolding get is_pem_format is_ssh_key Hmac.check_key_length
signs =
    hmac_algorithm-Signs env jwt.jws "HS256" sha256 secret input refl refl refl
      (omega arith, (omega arith, tt))

accepts : Accepts env jwt.jws "HS256" published input signature
unfolding prepare_signing_key Registry.prepare_key Registry.verify Registry.check_key_length
    Hmac.prepare_key Hmac.verify Hmac.sign Hmac.check_key_length force_bytes is_pem_format
    is_ssh_key
accepts = record {
  bound = refl;
  prepared = raw secret;
  usable = refl;
  verifies = rw (bytes_eq_refl signature);
}

found : get_signing_key env web (some "a") (fresh client) ≡ (ok published, after)
unfolding get_signing_key find_signing_key get_signing_keys get_jwk_set fetch_data KeySet.from_dict
    KeySet.make KeySet.collect KeySet.attempt is_subclass catching get truthy find Jwk.init
    Jwk.choose_algorithm Registry.from_jwk Registry.get_default_algorithms Hmac.from_jwk
    KeySet.find_by_kid parse_jwk_json base64url_decode encode_utf8
found = refl

accepted :
    validate_claims env claims (merge_options jwt.options none) no_expectation (pos 5) ≡ ok tt
unfolding validate_claims merge_options default_options validate_required_claims get validate_iss
    validate_aud validate_sub validate_jti truthy
accepted = refl

prepared : JwtEncode.prepare_payload_claims payload_value ≡ ok claims
unfolding JwtEncode.prepare_payload_claims get
prepared = refl

no_requirement : jwt.options.require ≡ []
unfolding default_options
no_requirement = refl

read_payload :
    env.json_loads (StrOrBytes.bytes (encode_utf8 payload_text)) ≡ ok (dict (fields claims))
unfolding encode_utf8
read_payload = refl

header_parsed :
    env.json_loads (StrOrBytes.bytes (encode_utf8 header_text)) ≡ ok (dict (fields header_dict))
unfolding encode_utf8
header_parsed = refl

header_same : SameItems header_dict (token_header "HS256" (some "a"))
header_same k =
    cons-SameItems "alg" (str "HS256") _ _
      (swap-SameItems "kid" "typ" (str "a") (str "JWT") [] refl) k
    ∙ swap-SameItems "alg" "typ" (str "HS256") (str "JWT") (("kid", str "a") ∷ []) refl k

read_header : ReadAs env header_text header_dict (token_header "HS256" (some "a"))
read_header = record { parsed = header_parsed; same = header_same }

decode-get_signing_key_from_jwt_example :
    (token : String) × ((JwtEncode.encode env jwt payload_value
        (object (raw secret))
        (named "HS256")
        (("kid", str "a") ∷ [])
        none
        true).0
      ≡ ok token)
    × (get_signing_key_from_jwt env web jwt (pos 0) (StrOrBytes.str token) (fresh client)
        ≡ (ok published, after))
    × ((JwtDecode.decode env jwt
          (pos 5)
          (StrOrBytes.str token)
          (jwk published)
          none
          none
          none
          none
          no_expectation
          []).0
        ≡ ok claims)
decode-get_signing_key_from_jwt_example =
    decode-get_signing_key_from_jwt env web jwt (pos 0) payload_value claims (raw secret) "HS256"
      (some "a") none true payload_text header_text header_dict signature (fresh client) (pos 5)
      none no_expectation published after no_requirement prepared refl read_payload refl read_header
      signs accepts refl accepted found
