-- ===== src/Jwks/Client/Steady.antt =====
-- What the fetching of a key set leaves as it is.
use mathlib.Core.Path.{subst⁻¹}
use refactoring_pyjwt.Prelude.{◌+◌, Bool, true, false, String, Option, none, some, ◌≡◌}
use refactoring_pyjwt.Values.{Value}
use refactoring_pyjwt.Algorithms.Keys.{Env}
use refactoring_pyjwt.Jwk.{PyJwk}
use refactoring_pyjwt.Jwks.Cache as Cache
use refactoring_pyjwt.Jwks.Cache.{JwkSetCache}
use refactoring_pyjwt.Jwks.Lru.{Lru}
use refactoring_pyjwt.Jwks.Calls.{Web, Request, World, modify, ◌>>=◌}
use refactoring_pyjwt.Jwks.Calls.Rules.{Keeps, after-lift}
use refactoring_pyjwt.Jwks.Client.{PyJwkClient, request_of}
use refactoring_pyjwt.Jwks.Client.Fetch.{
  now_if, put_in, read_response, fetched, failure, fetch_data, get_jwk_set,
}
use refactoring_pyjwt.Jwks.Client.Lookup.{get_signing_keys, find_signing_key}
use refactoring_pyjwt.Jwks.Client.Keeping.{
  get_jwk_set-Keeps, get_signing_keys-Keeps, find_signing_key-Keeps,
}

-- Whom the client asks, and its signing keys.
abbrev pub fixed : World PyJwkClient → Request × Option (Lru (Option String) PyJwk)
fixed w = (request_of w.object, w.object.signing_key_cache)

module _ (env : Env) (web : Web) (f : Request × Option (Lru (Option String) PyJwk)) where
  abbrev pub IsSteady : World PyJwkClient → Type 0
  IsSteady w = fixed w ≡ f

  put_in-IsSteady :
      (cache : Option JwkSetCache) (v : Value) → Keeps IsSteady (put_in env web cache v)
  put_in-IsSteady none v w h = h
  put_in-IsSteady (some cache) v w h = timed (Cache.put_reads v) w h
    where
      timed :
          (b : Bool)
          → Keeps IsSteady (
              now_if env web b >>= (λ time.
                modify (λ client. record client { jwk_set_cache = some (Cache.put v time cache) })))
      timed true w h = h
      timed false w h = h

  pub fetch_data-IsSteady : Keeps IsSteady (fetch_data env web)
  unfolding fetch_data
  fetch_data-IsSteady w h =
      let r = read_response env web (web.respond (request_of w.object) w.requests) in
      let w' : World PyJwkClient = record w { requests = w.requests + 1 } in
      subst⁻¹ IsSteady
        (after-lift (put_in env web w.object.jwk_set_cache (fetched env web r) w')
          (λ done. failure env web r))
        (put_in-IsSteady w.object.jwk_set_cache (fetched env web r) w' h)

  pub get_jwk_set-IsSteady : (refresh : Bool) → Keeps IsSteady (get_jwk_set env web refresh)
  get_jwk_set-IsSteady = get_jwk_set-Keeps env web IsSteady fetch_data-IsSteady (λ w h. h)

  pub get_signing_keys-IsSteady :
      (refresh : Bool) → Keeps IsSteady (get_signing_keys env web refresh)
  get_signing_keys-IsSteady = get_signing_keys-Keeps env web IsSteady fetch_data-IsSteady (λ w h. h)

  pub find_signing_key-IsSteady :
      (kid : Option String) → Keeps IsSteady (find_signing_key env web kid)
  find_signing_key-IsSteady = find_signing_key-Keeps env web IsSteady fetch_data-IsSteady (λ w h. h)
