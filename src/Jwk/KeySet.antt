-- ===== src/Jwk/KeySet.antt =====
-- jwt/api_jwk.py: the class PyJWKSet.
pub mod Laws
pub mod MissingKey
use refactoring_pyjwt.Prelude.{
  String, Bool, true, false, not, Option, none, some, List, [], ◌∷◌, str_eq, is_empty,
  if◌then◌else◌,
}
use refactoring_pyjwt.Exceptions.{
  Exception, Result, ok, err, raise, raise_if, is_instance, is_subclass, missing_cryptography_error,
  py_jwk_set_error, py_jwt_error, key_error, ◌>>=◌, ◌>>◌,
}
use refactoring_pyjwt.Values.{Value, null, str, list, nil, elems, Dict, get, truthy, equals_str}
use refactoring_pyjwt.Utils.Base64.{StrOrBytes}
use refactoring_pyjwt.Algorithms.Keys.{Env}
use refactoring_pyjwt.Algorithms.Jwk.{need_dict}
use refactoring_pyjwt.Jwk.{PyJwk, init, key_id}

-- What the loop does with one key.
pub data Attempt : Type 0 where
  usable : PyJwk → Attempt
  skipped : Attempt
  failed : Exception → Attempt

unfoldable pub attempt : Result PyJwk → Attempt
unfolding is_subclass
attempt (ok key) = usable key
attempt (err e) =
    if is_instance e py_jwt_error
    then (if is_instance e missing_cryptography_error then failed e else skipped)
    else failed e

abbrev push : PyJwk → Result (List PyJwk) → Result (List PyJwk)
push key (ok keys) = ok (key ∷ keys)
push key (err e) = err e

unfoldable pub collect : Env → List Value → Result (List PyJwk)
collect env [] = ok []
collect env (k ∷ keys) = elim (attempt (init env k none)) [
  | usable key ↦ push key (collect env keys)
  | skipped ↦ collect env keys
  | failed e ↦ err e
]

need_list : Value → Result (List Value)
need_list (list vs) = ok (elems vs)
need_list _ = raise py_jwk_set_error

-- `PyJWKSet(keys)`: the set is the list of its usable keys.
unfoldable pub make : Env → (keys : Value) → Result (List PyJwk)
unfolding need_list
make env keys = do
  raise_if (not (truthy keys)) py_jwk_set_error
  given ← need_list keys
  usable_keys ← collect env given
  raise_if (is_empty usable_keys) py_jwk_set_error
  ok usable_keys

-- `obj.get("keys", [])`
abbrev keys_of : Option Value → Value
keys_of none = list nil
keys_of (some v) = v

unfoldable pub from_dict : Env → Dict → Result (List PyJwk)
from_dict env obj = make env (keys_of (get "keys" obj))

unfoldable pub from_json : Env → StrOrBytes → Result (List PyJwk)
from_json env text = do parsed ← env.json_loads text; obj ← need_dict parsed; from_dict env obj

-- `key.key_id == kid`, for a text or None
abbrev pub same_kid : Value → Option String → Bool
same_kid v (some kid) = equals_str v kid
same_kid null none = true
same_kid _ none = false

unfoldable pub find_by_kid : List PyJwk → (kid : Option String) → Option PyJwk
find_by_kid [] kid = none
find_by_kid (key ∷ keys) kid = if same_kid (key_id key) kid then some key else find_by_kid keys kid

unfoldable pub get_item : List PyJwk → (kid : Option String) → Result PyJwk
unfolding find_by_kid
get_item keys kid = elim (find_by_kid keys kid) [ none ↦ raise key_error | some key ↦ ok key ]
