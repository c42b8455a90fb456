-- ===== src/Jwks/Client/Rotation.antt =====
-- Lookups while the endpoint changes its keys, and while it answers with something else.
use refactoring_pyjwt.Prelude.{◌+◌, false, String, Option, none, some, List, ◌≡◌, refl, ◌∙◌, arith}
use refactoring_pyjwt.Exceptions.{Exception, Result, ok, err, raise, raised, py_jwk_client_error}
use refactoring_pyjwt.Values.{Value, as_dict}
use refactoring_pyjwt.Algorithms.Keys.{Env}
use refactoring_pyjwt.Jwk.{PyJwk}
use refactoring_pyjwt.Jwks.Cache as Cache
use refactoring_pyjwt.Jwks.Calls.{Web, World, continue, modify, lift, ◌>>=◌}
use refactoring_pyjwt.Jwks.Client.{PyJwkClient}
use refactoring_pyjwt.Jwks.Client.Lookup.{
  get_signing_keys, match_kid, try_again, find_signing_key, store_key, cached_key, through_cache,
  get_signing_key,
}
use refactoring_pyjwt.Jwks.Client.Sets.{
  held, document, downloads, signing_keys_in, get_signing_keys_lem,
}
use refactoring_pyjwt.Jwks.Client.Agreement.{answer, found_or_next, find_signing_key_lem}

module _ (env : Env) (web : Web) where
  stored_result :
      (kid : Option String) (r : Result PyJwk × World PyJwkClient)
      → ((continue r (λ key. modify (store_key env web kid key) >>= (λ done. lift (ok key)))).0
          ≡ r.0)
        × ((continue r
              (λ key. modify (store_key env web kid key) >>= (λ done. lift (ok key)))).1.requests
            ≡ r.1.requests)
  stored_result kid (ok key, w) = (refl, refl)
  stored_result kid (err e, w) = (refl, refl)

  -- Without the key in the signing key cache, a lookup is the search in the sets.
  get_signing_key-missed :
      (w : World PyJwkClient) (kid : Option String)
      → cached_key env web w.object.signing_key_cache kid ≡ none
      → ((get_signing_key env web kid w).0 ≡ (find_signing_key env web kid w).0)
        × ((get_signing_key env web kid w).1.requests ≡ (find_signing_key env web kid w).1.requests)
  unfolding get_signing_key
  get_signing_key-missed w kid missing =
      rw (missing, through_cache) (stored_result kid (find_signing_key env web kid w))

  -- A lookup finds a key that the endpoint has only now published: where the signing key cache has
  -- no entry for the kid and the first set has signing keys but none of that kid, and the endpoint's
  -- next answer has one among its signing keys, the lookup returns it.
  pub get_signing_key_rotated :
      (w : World PyJwkClient) (kid : Option String) (old new : Value)
      (old_keys new_keys : List PyJwk) (key : PyJwk)
      → cached_key env web w.object.signing_key_cache kid ≡ none
      → document env web false w ≡ ok old
      → signing_keys_in env web old ≡ ok old_keys
      → match_kid env web old_keys kid ≡ none
      → answer env web w (w.requests + downloads env web false w) ≡ ok new
      → signing_keys_in env web new ≡ ok new_keys
      → match_kid env web new_keys kid ≡ some key
      → (get_signing_key env web kid w).0 ≡ ok key
  get_signing_key_rotated w kid old new old_keys new_keys key missing first old_set unknown next
        new_set found =
      (get_signing_key-missed w kid missing).0
      ∙ find_signing_key_lem env web w kid
      ∙ rw (first, old_set, unknown, found_or_next, next, new_set, found)

  ended_early :
      (kid : Option String) (r : Result (List PyJwk) × World PyJwkClient) (e : Exception)
      → r.0 ≡ err e
      → ((continue r (λ keys. try_again env web kid (match_kid env web keys kid))).0 ≡ err e)
        × ((continue r (λ keys. try_again env web kid (match_kid env web keys kid))).1.requests
            ≡ r.1.requests)
  ended_early kid (ok keys, w) e h = cc
  ended_early kid (err x, w) e h = let same : x ≡ e = cc in (rw same, refl)

  -- While the JWK set cache gives a document that is no JSON object, a lookup of a key that the signing
  -- key cache does not have raises PyJWKClientError without a request, whatever the endpoint would
  -- answer by then.
  pub get_signing_key_stuck :
      (w : World PyJwkClient) (kid : Option String) (doc : Value)
      → cached_key env web w.object.signing_key_cache kid ≡ none
      → held env web w.object.jwk_set_cache false w ≡ doc
      → Cache.is_none doc ≡ false
      → as_dict doc ≡ none
      → ((get_signing_key env web kid w).0 ≡ raise py_jwk_client_error)
        × ((get_signing_key env web kid w).1.requests ≡ w.requests)
  unfolding find_signing_key
  get_signing_key_stuck w kid doc missing h full other =
      let (result, requests) = get_signing_keys_lem env web false w in
      let failed : (get_signing_keys env web false w).0 ≡ raise py_jwk_client_error =
        result ∙ rw (h, full, other) in
      let none_made : (get_signing_keys env web false w).1.requests ≡ w.requests =
        requests ∙ rw (h, full) (omega arith) in
      let (same_result, same_requests) = get_signing_key-missed w kid missing in
      let (ended, unasked) =
        ended_early kid (get_signing_keys env web false w) (raised py_jwk_client_error) failed in
      (same_result ∙ ended, same_requests ∙ unasked ∙ none_made)
