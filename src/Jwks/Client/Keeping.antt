-- ===== src/Jwks/Client/Keeping.antt =====
-- What the requests and the readings of the clock keep, the methods of the class keep.
use refactoring_pyjwt.Exceptions.{ok}
use refactoring_pyjwt.Prelude.{Bool, true, false, String, Option, none, some}
use refactoring_pyjwt.Values.{Value, as_dict}
use refactoring_pyjwt.Algorithms.Keys.{Env}
use refactoring_pyjwt.Jwk.{PyJwk}
use refactoring_pyjwt.Jwks.Cache as Cache
use refactoring_pyjwt.Jwks.Cache.{JwkSetCache}
use refactoring_pyjwt.Jwks.Calls.{Web, World, lift, now, ◌>>=◌}
use refactoring_pyjwt.Jwks.Calls.Rules.{Keeps, Keeps->>=}
use refactoring_pyjwt.Jwks.Client.{PyJwkClient}
use refactoring_pyjwt.Jwks.Client.Fetch.{
  now_if, fetch_data, cached_value, key_set, fetch_if, get_jwk_set,
}
use refactoring_pyjwt.Jwks.Client.Lookup.{
  kept, need_some, get_signing_keys, match_kid, or_unknown, try_again, find_signing_key,
}

module _ {κ} (env : Env) (web : Web) (P : World PyJwkClient → Type κ)
    (fetch_data_keeps : Keeps P (fetch_data env web)) (now_keeps : Keeps P (now web)) where
  now_if-Keeps : (b : Bool) → Keeps P (now_if env web b)
  now_if-Keeps true w h = now_keeps w h
  now_if-Keeps false w h = h

  cached_value-Keeps :
      (cache : Option JwkSetCache) (refresh : Bool) → Keeps P (cached_value env web cache refresh)
  cached_value-Keeps none refresh w h = h
  cached_value-Keeps (some cache) true w h = h
  cached_value-Keeps (some cache) false w h =
      Keeps->>= P (now_if env web (Cache.get_reads cache))
        (λ time. lift (ok (Cache.get time cache))) (now_if-Keeps (Cache.get_reads cache))
        (λ time w h. h) w h

  fetch_if-Keeps : (b : Bool) (v : Value) → Keeps P (fetch_if env web b v)
  fetch_if-Keeps true v w h = fetch_data_keeps w h
  fetch_if-Keeps false v w h = h

  pub get_jwk_set-Keeps : (refresh : Bool) → Keeps P (get_jwk_set env web refresh)
  unfolding get_jwk_set
  get_jwk_set-Keeps refresh w =
      Keeps->>= P (cached_value env web w.object.jwk_set_cache refresh)
        (λ found. fetch_if env web (Cache.is_none found) found >>= λ jwk_set.
          lift (key_set env web (as_dict jwk_set)))
        (cached_value-Keeps w.object.jwk_set_cache refresh)
        (λ found.
          Keeps->>= P (fetch_if env web (Cache.is_none found) found)
            (λ jwk_set. lift (key_set env web (as_dict jwk_set)))
            (fetch_if-Keeps (Cache.is_none found) found) (λ jwk_set v h. h))
        w

  pub get_signing_keys-Keeps : (refresh : Bool) → Keeps P (get_signing_keys env web refresh)
  unfolding get_signing_keys
  get_signing_keys-Keeps refresh =
      Keeps->>= P (get_jwk_set env web refresh)
        (λ jwk_set. lift (need_some env web (kept env web jwk_set))) (get_jwk_set-Keeps refresh)
        (λ jwk_set w h. h)

  try_again-Keeps : (kid : Option String) (k : Option PyJwk) → Keeps P (try_again env web kid k)
  try_again-Keeps kid (some key) w h = h
  try_again-Keeps kid none w h =
      Keeps->>= P (get_signing_keys env web true)
        (λ signing_keys. lift (or_unknown env web (match_kid env web signing_keys kid)))
        (get_signing_keys-Keeps true) (λ signing_keys w h. h) w h

  pub find_signing_key-Keeps : (kid : Option String) → Keeps P (find_signing_key env web kid)
  unfolding find_signing_key
  find_signing_key-Keeps kid =
      Keeps->>= P (get_signing_keys env web false)
        (λ signing_keys. try_again env web kid (match_kid env web signing_keys kid))
        (get_signing_keys-Keeps false)
        (λ signing_keys. try_again-Keeps kid (match_kid env web signing_keys kid))
