-- ===== src/Jwks/Client/Methods.antt =====
-- What the requests, the clock and the signing key cache keep, every method keeps.
use refactoring_pyjwt.Prelude.{String, Option, none, some, [], ◌≡◌, refl}
use refactoring_pyjwt.Prelude.Int.{ℤ}
use refactoring_pyjwt.Exceptions.{Result, ok, err}
use refactoring_pyjwt.Utils.Base64.{StrOrBytes}
use refactoring_pyjwt.Algorithms.Keys.{Env}
use refactoring_pyjwt.Values.{get}
use refactoring_pyjwt.Jwk.{PyJwk}
use refactoring_pyjwt.Jwt.Options.{PyJwt}
use refactoring_pyjwt.Jwt.Globals.{no_key_given, no_expectation}
use refactoring_pyjwt.Jwt.Decode
use refactoring_pyjwt.Jwks.Calls.{Web, World, continue, lift, modify, now, ◌>>=◌}
use refactoring_pyjwt.Jwks.Calls.Rules.{Keeps, Keeps->>=}
use refactoring_pyjwt.Jwks.Client.{PyJwkClient, Arguments, init}
use refactoring_pyjwt.Jwks.Client.Fetch.{fetch_data}
use refactoring_pyjwt.Jwks.Client.Lookup.{
  find_signing_key, cached_key, use_cached, store_key, through_cache, get_signing_key, kid_of,
  unverified, get_signing_key_from_jwt,
}
use refactoring_pyjwt.Jwks.Client.Keeping.{
  get_jwk_set-Keeps, get_signing_keys-Keeps, find_signing_key-Keeps,
}
use refactoring_pyjwt.Jwks.Client.Reach.{
  Operation, call_fetch_data, call_get_jwk_set, call_get_signing_keys, call_get_signing_key,
  call_get_signing_key_from_jwt, run, fresh, Reached, invariant,
}

module _ {κ} (env : Env) (web : Web) (P : World PyJwkClient → Type κ)
    (fetch_data_keeps : Keeps P (fetch_data env web)) (now_keeps : Keeps P (now web))
    (hit_keeps : (kid : Option String) (key : PyJwk) (w : World PyJwkClient)
      → cached_key env web w.object.signing_key_cache kid ≡ some key
      → P w
      → P (modify (use_cached env web kid key) w).1)
    (store_keeps : (kid : Option String) (key : PyJwk) (w v : World PyJwkClient)
      → find_signing_key env web kid w ≡ (ok key, v)
      → P w
      → P v
      → P (modify (store_key env web kid key) v).1) where
  stored-Keeps :
      (kid : Option String) (w : World PyJwkClient) (r : Result PyJwk × World PyJwkClient)
      → find_signing_key env web kid w ≡ r
      → P w
      → P r.1
      → P (continue r (λ key. modify (store_key env web kid key) >>= (λ done. lift (ok key)))).1
  stored-Keeps kid w (ok key, v) e g h = store_keeps kid key w v e g h
  stored-Keeps kid w (err x, v) e g h = h

  through_cache-Keeps :
      (kid : Option String) (k : Option PyJwk) (w : World PyJwkClient)
      → cached_key env web w.object.signing_key_cache kid ≡ k
      → P w
      → P (through_cache env web kid k w).1
  through_cache-Keeps kid (some key) w e h = hit_keeps kid key w e h
  through_cache-Keeps kid none w e h =
      stored-Keeps kid w (find_signing_key env web kid w) refl h
        (find_signing_key-Keeps env web P fetch_data_keeps now_keeps kid w h)

  pub get_signing_key-Keeps : (kid : Option String) → Keeps P (get_signing_key env web kid)
  unfolding get_signing_key
  get_signing_key-Keeps kid w h =
      through_cache-Keeps kid (cached_key env web w.object.signing_key_cache kid) w refl h

  get_signing_key_from_jwt-Keeps :
      (jwt : PyJwt) (time : ℤ) (token : StrOrBytes)
      → Keeps P (get_signing_key_from_jwt env web jwt time token)
  unfolding get_signing_key_from_jwt
  get_signing_key_from_jwt-Keeps jwt time token =
      Keeps->>= P
        (lift
          (Decode.decode_complete env jwt time token no_key_given none (some (unverified env web))
            none none no_expectation []).0)
        (λ decoded. get_signing_key env web (kid_of env web (get "kid" decoded.header))) (λ w h. h)
        (λ decoded. get_signing_key-Keeps (kid_of env web (get "kid" decoded.header)))

  pub run-Keeps : (op : Operation) (w : World PyJwkClient) → P w → P (run env web op w)
  run-Keeps call_fetch_data w h = fetch_data_keeps w h
  run-Keeps (call_get_jwk_set refresh) w h =
      get_jwk_set-Keeps env web P fetch_data_keeps now_keeps refresh w h
  run-Keeps (call_get_signing_keys refresh) w h =
      get_signing_keys-Keeps env web P fetch_data_keeps now_keeps refresh w h
  run-Keeps (call_get_signing_key kid) w h = get_signing_key-Keeps kid w h
  run-Keeps (call_get_signing_key_from_jwt jwt time token) w h =
      get_signing_key_from_jwt-Keeps jwt time token w h

  -- So an invariant of a client needs these alone.
  pub client_invariant :
      ((a : Arguments) (client : PyJwkClient) → init a ≡ ok client → P (fresh client))
      → (w : World PyJwkClient) → Reached env web w
      → P w
  client_invariant new = invariant env web P new run-Keeps
