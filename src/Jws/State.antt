-- ===== src/Jws/State.antt =====
-- jwt/api_jws.py: the state of a PyJWS, `__init__`, and the registry of algorithms.
pub mod Invariant
pub mod Laws
use refactoring_pyjwt.Prelude.{
  String, Bool, true, false, not, ◌&&◌, Option, none, some, List, [], ◌∷◌, map, str_eq, elem,
  if◌then◌else◌,
}
use refactoring_pyjwt.Exceptions.{
  Result, ok, err, raise, raise_if, value_error, type_error, key_error, not_implemented_error,
  ◌>>=◌, ◌>>◌,
}
use refactoring_pyjwt.Values.{Value, has, get, set, remove, find}
use refactoring_pyjwt.Algorithms.Keys.{Env, Algorithm}
use refactoring_pyjwt.Algorithms.Registry.{get_default_algorithms}

-- `SigOptions`, with every key present.
pub record SigOptions : Type 0 where
  pub verify_signature : Bool
  pub enforce_minimum_key_length : Bool

-- A caller's SigOptions: `none` is a key that is not there.
pub record GivenSigOptions : Type 0 where
  pub verify_signature : Option Bool
  pub enforce_minimum_key_length : Option Bool

pub record PyJws : Type 0 where
  pub algorithms : List (String × Algorithm)
  -- the set `_valid_algs`, in some order
  pub valid_algs : List String
  pub options : SigOptions

abbrev pub default_options : SigOptions
default_options = record { verify_signature = true; enforce_minimum_key_length = false }

abbrev pub or_default : Bool → Option Bool → Bool
or_default b none = b
or_default b (some c) = c

-- `{**options, **given}`
unfoldable pub merge : SigOptions → Option GivenSigOptions → SigOptions
merge options none = options
merge options (some given) = record {
  verify_signature = or_default options.verify_signature given.verify_signature;
  enforce_minimum_key_length =
      or_default options.enforce_minimum_key_length given.enforce_minimum_key_length;
}

-- `set.add` and `set.remove`
unfoldable pub add : String → List String → List String
add x xs = if elem x xs then xs else x ∷ xs

unfoldable pub discard : String → List String → List String
discard x [] = []
discard x (y ∷ ys) = let rest = discard x ys in if str_eq x y then rest else y ∷ rest

to_set : List String → List String
to_set [] = []
to_set (x ∷ xs) = add x (to_set xs)

-- The names that are both default and valid.
unfoldable pub restrict : List String → List (String × Algorithm) → List (String × Algorithm)
restrict valid [] = []
restrict valid ((name, alg) ∷ rest) =
    let kept = restrict valid rest in if elem name valid then (name, alg) ∷ kept else kept

abbrev keys_of : List (String × Algorithm) → List String
keys_of = map (λ e. e.0)

abbrev valid_of : List (String × Algorithm) → Option (List String) → List String
valid_of defaults none = to_set (keys_of defaults)
valid_of defaults (some names) = to_set names

-- `PyJWS(algorithms, options)`
unfoldable pub init : Env → Option (List String) → Option GivenSigOptions → PyJws
unfolding restrict to_set add merge
init env names given =
    let defaults = get_default_algorithms env.has_crypto in
    let valid = valid_of defaults names in
    record {
      algorithms = restrict valid defaults;
      valid_algs = valid;
      options = merge default_options given;
    }

-- An object that is, or is not, an instance of Algorithm.
pub data AlgorithmObject : Type 0 where
  instance_of_algorithm : Algorithm → AlgorithmObject
  not_an_algorithm : AlgorithmObject

add_algorithm : PyJws → String → AlgorithmObject → Result PyJws
add_algorithm jws alg_id not_an_algorithm = raise type_error
add_algorithm jws alg_id (instance_of_algorithm alg) = ok (record jws {
  algorithms = set alg_id alg jws.algorithms;
  valid_algs = add alg_id jws.valid_algs;
})

-- The methods return the new state; where they raise, the state is the old one.
unfoldable pub register_algorithm : PyJws → (alg_id : String) → AlgorithmObject → Result PyJws
unfolding add_algorithm
register_algorithm jws alg_id alg_obj =
    if has alg_id jws.algorithms then raise value_error else add_algorithm jws alg_id alg_obj

-- `set.remove` raises a KeyError for a name that is not there; the entry is
-- deleted before, where the model keeps the old state.
unfoldable pub unregister_algorithm : PyJws → (alg_id : String) → Result PyJws
unregister_algorithm jws alg_id =
    if not (has alg_id jws.algorithms)
    then raise key_error
    else if elem alg_id jws.valid_algs
    then ok (record jws {
      algorithms = remove alg_id jws.algorithms;
      valid_algs = discard alg_id jws.valid_algs;
    })
    else raise key_error

unfoldable pub get_algorithms : PyJws → List String
get_algorithms jws = jws.valid_algs

abbrev or_not_implemented : Option Algorithm → Result Algorithm
or_not_implemented none = raise not_implemented_error
or_not_implemented (some alg) = ok alg

-- Both messages for a name that is not there are NotImplementedErrors.
unfoldable pub get_algorithm_by_name : PyJws → (alg_name : Value) → Result Algorithm
get_algorithm_by_name jws alg_name = do
  found ← find alg_name jws.algorithms
  or_not_implemented found
