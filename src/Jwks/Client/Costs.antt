-- ===== src/Jwks/Client/Costs.antt =====
-- How many requests the methods of a client make.
use refactoring_pyjwt.Prelude.{Bool, true, false, String, Option, none, some, arith}
use refactoring_pyjwt.Exceptions.{ok}
use refactoring_pyjwt.Values.{Value, as_dict}
use refactoring_pyjwt.Algorithms.Keys.{Env}
use refactoring_pyjwt.Jwk.{PyJwk}
use refactoring_pyjwt.Jwks.Cache as Cache
use refactoring_pyjwt.Jwks.Cache.{JwkSetCache}
use refactoring_pyjwt.Jwks.Calls.{Web, lift, modify, ◌>>=◌}
use refactoring_pyjwt.Jwks.Calls.Rules.{Costs, Costs->>=}
use refactoring_pyjwt.Jwks.Client.Fetch.{now_if, cached_value, key_set, fetch_if, get_jwk_set}
use refactoring_pyjwt.Jwks.Client.Lookup.{
  kept, need_some, get_signing_keys, match_kid, or_unknown, try_again, find_signing_key, store_key,
  cached_key, through_cache, get_signing_key,
}
use refactoring_pyjwt.Jwks.Client.Requests.{fetch_data-Costs}

module _ (env : Env) (web : Web) where
  now_if-Costs : (b : Bool) → Costs 0 (now_if env web b)
  now_if-Costs true w = omega arith
  now_if-Costs false w = omega arith

  cached_value-Costs :
      (cache : Option JwkSetCache) (refresh : Bool) → Costs 0 (cached_value env web cache refresh)
  cached_value-Costs none refresh w = omega arith
  cached_value-Costs (some cache) true w = omega arith
  cached_value-Costs (some cache) false w =
      Costs->>= 0 0 (now_if env web (Cache.get_reads cache))
        (λ time. lift (ok (Cache.get time cache))) (now_if-Costs (Cache.get_reads cache))
        (λ time w. omega arith) w

  fetch_if-Costs : (b : Bool) (v : Value) → Costs 1 (fetch_if env web b v)
  fetch_if-Costs true v w = fetch_data-Costs env web w
  fetch_if-Costs false v w = omega arith

  get_jwk_set-Costs : (refresh : Bool) → Costs 1 (get_jwk_set env web refresh)
  unfolding get_jwk_set
  get_jwk_set-Costs refresh w =
      Costs->>= 0 1 (cached_value env web w.object.jwk_set_cache refresh)
        (λ found. fetch_if env web (Cache.is_none found) found >>= λ jwk_set.
          lift (key_set env web (as_dict jwk_set)))
        (cached_value-Costs w.object.jwk_set_cache refresh)
        (λ found.
          Costs->>= 1 0 (fetch_if env web (Cache.is_none found) found)
            (λ jwk_set. lift (key_set env web (as_dict jwk_set)))
            (fetch_if-Costs (Cache.is_none found) found) (λ jwk_set v. omega arith))
        w

  get_signing_keys-Costs : (refresh : Bool) → Costs 1 (get_signing_keys env web refresh)
  unfolding get_signing_keys
  get_signing_keys-Costs refresh =
      Costs->>= 1 0 (get_jwk_set env web refresh)
        (λ jwk_set. lift (need_some env web (kept env web jwk_set))) (get_jwk_set-Costs refresh)
        (λ jwk_set w. omega arith)

  try_again-Costs : (kid : Option String) (k : Option PyJwk) → Costs 1 (try_again env web kid k)
  try_again-Costs kid (some key) w = omega arith
  try_again-Costs kid none w =
      Costs->>= 1 0 (get_signing_keys env web true)
        (λ signing_keys. lift (or_unknown env web (match_kid env web signing_keys kid)))
        (get_signing_keys-Costs true) (λ signing_keys w. omega arith) w

  find_signing_key-Costs : (kid : Option String) → Costs 2 (find_signing_key env web kid)
  unfolding find_signing_key
  find_signing_key-Costs kid =
      Costs->>= 1 1 (get_signing_keys env web false)
        (λ signing_keys. try_again env web kid (match_kid env web signing_keys kid))
        (get_signing_keys-Costs false)
        (λ signing_keys. try_again-Costs kid (match_kid env web signing_keys kid))

  through_cache-Costs :
      (kid : Option String) (k : Option PyJwk) → Costs 2 (through_cache env web kid k)
  through_cache-Costs kid (some key) w = omega arith
  through_cache-Costs kid none w =
      Costs->>= 2 0 (find_signing_key env web kid)
        (λ key. modify (store_key env web kid key) >>= (λ done. lift (ok key)))
        (find_signing_key-Costs kid) (λ key w. omega arith) w

  -- A lookup of a key makes two requests at most, whatever the endpoint answers and whatever the
  -- caches hold.
  pub get_signing_key-Costs : (kid : Option String) → Costs 2 (get_signing_key env web kid)
  unfolding get_signing_key
  get_signing_key-Costs kid w =
      through_cache-Costs kid (cached_key env web w.object.signing_key_cache kid) w
