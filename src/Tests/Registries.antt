-- ===== src/Tests/Registries.antt =====
-- Registries of algorithms and key sets.
use refactoring_pyjwt.Prelude.{
  String, true, false, none, some, List, [], ◌∷◌, ◌++◌, All, is_empty, elem, ◌≡◌, ◌↔◌, refl, inr,
}
use refactoring_pyjwt.Exceptions.{ok, raise, raised, key_error, invalid_key_error, is_subclass}
use refactoring_pyjwt.Values.{str, list, cons, nil, get, dict, fields, Dict, Items, truthy}
use refactoring_pyjwt.Algorithms.Keys.{sha256, sha384, sha512, hmac_algorithm, raw}
use refactoring_pyjwt.Algorithms.Registry.{get_default_algorithms}
use refactoring_pyjwt.Jws.State.{
  PyJws, init, instance_of_algorithm, register_algorithm, unregister_algorithm,
  get_algorithm_by_name, get_algorithms,
}
use refactoring_pyjwt.Jws.State.Invariant.{made, without_algorithm}
use refactoring_pyjwt.Jws.State.Laws.{unregister_algorithm-Reachable, register_algorithm-round_trip}
use refactoring_pyjwt.Jwk as Jwk
use refactoring_pyjwt.Jwk.{PyJwk, key_id}
use refactoring_pyjwt.Jwk.KeySet.{make, get_item, same_kid}
use refactoring_pyjwt.Jwk.KeySet.Laws.{Collected, none_left, left_out, make_lem, get_item_lem}
use refactoring_pyjwt.Jwk.KeySet.MissingKey.{make-missing_k}
use refactoring_pyjwt.Tests.{env, jws}

unregister_algorithm-Reachable_example :
    (unregister_algorithm (init env none none) "HS256"
      ≡ ok (without_algorithm (init env none none) "HS256"))
    × (get "HS256" (without_algorithm (init env none none) "HS256").algorithms ≡ none)
    × (elem "HS256" (get_algorithms (without_algorithm (init env none none) "HS256")) ≡ false)
unfolding init get get_default_algorithms
unregister_algorithm-Reachable_example =
    unregister_algorithm-Reachable {env = env} (init env none none) "HS256" (made none none) refl

register_algorithm-round_trip_example :
    (jws' : PyJws) × (register_algorithm jws "HS512" (instance_of_algorithm (hmac_algorithm sha512))
      ≡ ok jws')
    × (get_algorithm_by_name jws' (str "HS512") ≡ ok (hmac_algorithm sha512))
    × (get_algorithm_by_name jws' (str "HS256") ≡ get_algorithm_by_name jws (str "HS256"))
    × (unregister_algorithm jws' "HS512" ≡ ok jws)
unfolding get
register_algorithm-round_trip_example =
    register_algorithm-round_trip jws "HS512" (hmac_algorithm sha512) refl refl "HS256" refl

abbrev no_keys : List PyJwk
no_keys = []

make_lem_example :
    (make env (list nil) ≡ ok no_keys) ↔ (Collected env [] no_keys × (is_empty no_keys ≡ false))
make_lem_example = make_lem env nil no_keys

abbrev key_of : String → PyJwk
key_of kid = record {
  jwk_data = ("kid", str kid) ∷ [];
  algorithm_name = "HS256";
  algorithm = hmac_algorithm sha256;
  key = raw [];
}

get_item_lem_example :
    (before after : List PyJwk) × ((key_of "a" ∷ key_of "b" ∷ []) ≡ before ++ (key_of "b" ∷ after))
    × (same_kid (key_id (key_of "b")) (some "b") ≡ true)
    × All (λ k. same_kid (key_id k) (some "b") ≡ false) before
unfolding get_item get
get_item_lem_example = get_item_lem (key_of "a" ∷ key_of "b" ∷ []) (some "b") refl

-- A key without a type is skipped, and the next one is of the type "oct" without its "k".
abbrev without_kty : Dict
without_kty = ("kid", str "a") ∷ []

abbrev without_k : Dict
without_k = ("kty", str "oct") ∷ ("kid", str "b") ∷ ("alg", str "HS384") ∷ []

without_kty-Collected : Collected env (dict (fields without_kty) ∷ []) no_keys
unfolding Jwk.init get truthy is_subclass
without_kty-Collected = left_out {e = raised invalid_key_error} refl refl refl none_left

abbrev given : Items
given = cons (dict (fields without_kty)) (cons (dict (fields without_k)) nil)

make-missing_k_example : make env (list given) ≡ raise key_error
unfolding get
make-missing_k_example =
    make-missing_k env given (dict (fields without_kty) ∷ []) [] no_keys without_k refl
      without_kty-Collected refl refl (inr (sha384, refl))
