-- ===== src/Jwk/KeySet/MissingKey.antt =====
-- JWKs of the type "oct" without their "k", in key sets.
use refactoring_pyjwt.Prelude.{
  String, Bool, true, false, none, some, List, [], ◌∷◌, ◌++◌, ◌≡◌, refl, ◌⊎◌, inl, inr, is_empty,
}
use refactoring_pyjwt.Exceptions.{ok, raise, is_subclass, catching, key_error}
use refactoring_pyjwt.Values.{
  Value, str, list, dict, fields, items-fields, Dict, Items, elems, get, find, truthy, or_null,
}
use refactoring_pyjwt.Algorithms.Keys.{Env, Hash, sha256, sha384, sha512, hmac_algorithm}
use refactoring_pyjwt.Algorithms.Jwk.{item, parse_jwk_json}
use refactoring_pyjwt.Algorithms.Hmac
use refactoring_pyjwt.Algorithms.Registry
use refactoring_pyjwt.Algorithms.Registry.{get_default_algorithms}
use refactoring_pyjwt.Jwk.{
  PyJwk, init, build, choose_algorithm, infer_algorithm_from_kty, infer_other,
  refuse_without_crypto,
}
use refactoring_pyjwt.Jwk.KeySet.Laws.{Collected, none_left, taken, left_out}
use refactoring_pyjwt.Jwk.KeySet.{make, collect, attempt, need_list}

abbrev pub hmac_name : Hash → String
hmac_name sha256 = "HS256"
hmac_name sha384 = "HS384"
hmac_name sha512 = "HS512"

-- The JWK names no algorithm, or one of HMAC.
abbrev pub IsForHmac : Dict → Type 0
IsForHmac d =
    (truthy (or_null (get "alg" d)) ≡ false)
    ⊎ ((hash : Hash) × (get "alg" d ≡ some (str (hmac_name hash))))

named_truthy : (hash : Hash) → truthy (str (hmac_name hash)) ≡ true
unfolding truthy
named_truthy sha256 = refl
named_truthy sha384 = refl
named_truthy sha512 = refl

chosen :
    (d : Dict)
    → IsForHmac d
    → (hash : Hash) × (choose_algorithm d (str "oct") none ≡ ok (str (hmac_name hash)))
unfolding choose_algorithm infer_algorithm_from_kty infer_other find get
chosen d h = elim h [
  | inl unnamed ↦ (sha256, rw unnamed)
  | inr (hash, e) ↦ (hash, rw (e, named_truthy hash))
]

found_by_name :
    (b : Bool) (hash : Hash)
    → get (hmac_name hash) (get_default_algorithms b) ≡ some (hmac_algorithm hash)
unfolding get get_default_algorithms
found_by_name true sha256 = refl
found_by_name true sha384 = refl
found_by_name true sha512 = refl
found_by_name false sha256 = refl
found_by_name false sha384 = refl
found_by_name false sha512 = refl

without_crypto : (b : Bool) (hash : Hash) → refuse_without_crypto b (str (hmac_name hash)) ≡ ok tt
without_crypto true hash = refl
without_crypto false sha256 = refl
without_crypto false sha384 = refl
without_crypto false sha512 = refl

from_jwk-missing_k :
    (env : Env) (d : Dict)
    → get "kty" d ≡ some (str "oct")
    → get "k" d ≡ none
    → Hmac.from_jwk env (dict (fields d)) ≡ raise key_error
unfolding Hmac.from_jwk parse_jwk_json catching
from_jwk-missing_k env d kty missing = rw (items-fields d, kty, item, missing)

init-missing_k :
    (env : Env) (d : Dict)
    → get "kty" d ≡ some (str "oct")
    → get "k" d ≡ none
    → IsForHmac d
    → init env (dict (fields d)) none ≡ raise key_error
unfolding init truthy Registry.from_jwk find build
init-missing_k env d kty missing for_hmac =
    let (hash, name) = chosen d for_hmac in
    rw (
      items-fields d,
      kty,
      name,
      without_crypto env.has_crypto hash,
      found_by_name env.has_crypto hash,
      from_jwk-missing_k env d kty missing,
    )

-- Keys that are used or skipped do not keep a later one from failing.
collect-missing_k :
    (env : Env) (v : Value) {before : List Value} (after : List Value) {keys : List PyJwk}
    → Collected env before keys
    → init env v none ≡ raise key_error
    → collect env (before ++ (v ∷ after)) ≡ raise key_error
unfolding collect attempt is_subclass
collect-missing_k env v after none_left bad = rw (bad, collect)
collect-missing_k env v after (taken made rest) bad =
    rw (made, collect, collect-missing_k env v after rest bad)
collect-missing_k env v after (left_out e ours n rest) bad =
    rw (e, collect, ours, n, collect-missing_k env v after rest bad)

some_given :
    (before : List Value) (v : Value) (after : List Value)
    → is_empty (before ++ (v ∷ after)) ≡ false
some_given [] v after = refl
some_given (b ∷ before) v after = refl

-- A JWK of the type "oct" without a "k", which names no algorithm or one of HMAC, makes the whole set
-- fail with a KeyError, wherever it stands in the list, if each of the keys before it is usable or
-- skipped, and whatever keys follow it.
pub make-missing_k :
    (env : Env) (given : Items) (before after : List Value) (keys : List PyJwk) (d : Dict)
    → elems given ≡ before ++ (dict (fields d) ∷ after)
    → Collected env before keys
    → get "kty" d ≡ some (str "oct")
    → get "k" d ≡ none
    → IsForHmac d
    → make env (list given) ≡ raise key_error
unfolding make need_list truthy
make-missing_k env given before after keys d order collected kty missing for_hmac = rw (
  order,
  some_given before (dict (fields d)) after,
  collect-missing_k env (dict (fields d)) after collected
      (init-missing_k env d kty missing for_hmac),
)
