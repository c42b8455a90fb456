-- ===== src/Jwk.antt =====
-- jwt/api_jwk.py: the classes PyJWK and PyJWKSet.
pub mod KeySet
use refactoring_pyjwt.Prelude.{
  String, Bool, true, false, not, ◌&&◌, ◌||◌, Option, none, some, List, [], ◌∷◌, ◌++◌, str_eq, elem,
  if◌then◌else◌,
}
use refactoring_pyjwt.Exceptions.{
  Result, ok, err, raise, raise_if, is_instance, is_subclass, attribute_error, key_error,
  invalid_key_error, missing_cryptography_error, py_jwk_error, py_jwk_set_error, py_jwt_error,
  type_error, ◌>>=◌, ◌>>◌,
}
use refactoring_pyjwt.Values.{
  Value, str, null, list, dict, elems, Dict, get, find, or_null, truthy, equals_str, fields,
}
use refactoring_pyjwt.Utils.Base64
use refactoring_pyjwt.Utils.Base64.{StrOrBytes}
use refactoring_pyjwt.Algorithms.Keys.{Env, Algorithm, KeyObject}
use refactoring_pyjwt.Algorithms.Jwk.{need_dict}
use refactoring_pyjwt.Algorithms.Registry
use refactoring_pyjwt.Algorithms.Registry.{requires_cryptography, get_default_algorithms}

pub record PyJwk : Type 0 where
  pub jwk_data : Dict
  pub algorithm_name : String
  pub algorithm : Algorithm
  pub key : KeyObject

-- `_KTY_DEFAULT_ALGORITHM`
abbrev pub kty_default_algorithm : List (String × String)
kty_default_algorithm = ("RSA", "RS256") ∷ ("oct", "HS256") ∷ []

-- `_EC_CRV_TO_ALGORITHM`
abbrev pub ec_crv_to_algorithm : List (String × String)
ec_crv_to_algorithm =
    ("P-256", "ES256") ∷ ("P-384", "ES384") ∷ ("P-521", "ES512") ∷ ("secp256k1", "ES256K") ∷ []

abbrev or_invalid_key : Option String → Result Value
or_invalid_key none = raise invalid_key_error
or_invalid_key (some name) = ok (str name)

infer_ec : (crv : Value) → Result Value
infer_ec crv =
    if not (truthy crv)
    then ok (str "ES256")
    else do found ← find crv ec_crv_to_algorithm; or_invalid_key found

infer_okp : (crv : Value) → Result Value
infer_okp crv =
    if truthy crv && equals_str crv "Ed25519" then ok (str "EdDSA") else raise invalid_key_error

infer_other : (kty : Value) → Result Value
infer_other kty = do found ← find kty kty_default_algorithm; or_invalid_key found

unfoldable pub infer_algorithm_from_kty : Dict → (kty : Value) → Result Value
unfolding infer_ec infer_okp infer_other
infer_algorithm_from_kty jwk_data kty =
    let crv = or_null (get "crv" jwk_data) in
    if equals_str kty "EC"
    then infer_ec crv
    else if equals_str kty "OKP"
    then infer_okp crv
    else infer_other kty

-- The argument `algorithm`, and else the key's own "alg".
abbrev pub given_algorithm : Dict → Option String → Value
given_algorithm jwk_data none = or_null (get "alg" jwk_data)
given_algorithm jwk_data (some name) =
    if str_eq name "" then or_null (get "alg" jwk_data) else str name

unfoldable pub choose_algorithm : Dict → (kty : Value) → Option String → Result Value
unfolding infer_algorithm_from_kty
choose_algorithm jwk_data kty algorithm =
    let given = given_algorithm jwk_data algorithm in
    if truthy given then ok given else infer_algorithm_from_kty jwk_data kty

-- `algorithm in requires_cryptography`
abbrev needs_crypto : Value → Result Bool
needs_crypto (str name) = ok (elem name requires_cryptography)
needs_crypto (list vs) = raise type_error
needs_crypto (dict fs) = raise type_error
needs_crypto _ = ok false

abbrev refuse_without_crypto : Bool → Value → Result (Unit {0})
refuse_without_crypto true name = ok tt
refuse_without_crypto false name = do
  needed ← needs_crypto name
  raise_if needed missing_cryptography_error

-- Only a text is a key of the table of algorithms.
abbrev pub name_of : Value → String
name_of (str s) = s
name_of _ = ""

build : Env → Dict → Value → Option Algorithm → Result PyJwk
build env jwk_data name none = raise py_jwk_error
build env jwk_data name (some alg) = do
  key ← Registry.from_jwk env alg (dict (fields jwk_data))
  ok (record { jwk_data = jwk_data; algorithm_name = name_of name; algorithm = alg; key = key })

-- `PyJWK(jwk_data, algorithm)`
unfoldable pub init : Env → (jwk_data : Value) → (algorithm : Option String) → Result PyJwk
unfolding choose_algorithm build
init env data' algorithm = do
  jwk_data ← need_dict data'
  let kty = or_null (get "kty" jwk_data)
  raise_if (not (truthy kty)) invalid_key_error
  name ← choose_algorithm jwk_data kty algorithm
  refuse_without_crypto env.has_crypto name
  found ← find name (get_default_algorithms env.has_crypto)
  build env jwk_data name found

unfoldable pub from_dict : Env → (obj : Value) → (algorithm : Option String) → Result PyJwk
from_dict = init

unfoldable pub from_json : Env → (text : StrOrBytes) → (algorithm : Option String) → Result PyJwk
unfolding from_dict
from_json env text algorithm = do obj ← env.json_loads text; from_dict env obj algorithm

-- The properties of the class.
abbrev pub key_type : PyJwk → Value
key_type key = or_null (get "kty" key.jwk_data)

abbrev pub key_id : PyJwk → Value
key_id key = or_null (get "kid" key.jwk_data)

abbrev pub public_key_use : PyJwk → Value
public_key_use key = or_null (get "use" key.jwk_data)
