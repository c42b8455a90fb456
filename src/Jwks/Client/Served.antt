-- ===== src/Jwks/Client/Served.antt =====
-- jwt/jwks_client.py: where the document in the JWK set cache comes from.
use mathlib.Core.Path.{subst⁻¹}
use refactoring_pyjwt.Prelude.{
  ℕ, ◌+◌, ◌<◌, Bool, true, false, Option, none, some, ◌≡◌, ◌⊎◌, inl, inr, refl, arith, Bool-cases,
  if◌then◌else◌,
}
use refactoring_pyjwt.Prelude.Int.{ℤ}
use refactoring_pyjwt.Jwks.Client.Init.{client_of, init-eq-ok}
use refactoring_pyjwt.Exceptions.{Result, ok, err}
use refactoring_pyjwt.Values.{Value, null}
use refactoring_pyjwt.Algorithms.Keys.{Env}
use refactoring_pyjwt.Jwks.Cache as Cache
use refactoring_pyjwt.Jwks.Cache.{JwkSetCache}
use refactoring_pyjwt.Jwks.Calls.{Web, Request, World, now}
use refactoring_pyjwt.Jwks.Calls.Rules.{Keeps, after-lift}
use refactoring_pyjwt.Jwks.Client.{PyJwkClient, Arguments, init, request_of}
use refactoring_pyjwt.Jwks.Client.Fetch.{put_in, read_response, fetched, failure, fetch_data}
use refactoring_pyjwt.Jwks.Client.Reach.{fresh, Reached}
use refactoring_pyjwt.Jwks.Client.Methods.{client_invariant}

module _ (env : Env) (web : Web) where
  -- The document is the JSON of a response to one of the first `requests` requests, and the time
  -- stamp one of the first `readings` readings of the clock.
  pub record IsServed (asked : Request) (requests readings : ℕ) (cache : JwkSetCache) : Type 0 where
    pub number : ℕ
    pub earlier : number < requests
    pub response : read_response env web (web.respond asked number) ≡ ok cache.jwk_set
    pub reading : ℕ
    pub read_earlier : reading < readings
    pub stamped : cache.timestamp ≡ web.monotonic reading

  abbrev pub IsHonestCache : Request → (requests readings : ℕ) → Option JwkSetCache → Type 0
  IsHonestCache asked requests readings none = Unit
  IsHonestCache asked requests readings (some cache) =
      (cache.jwk_set ≡ null) ⊎ IsServed asked requests readings cache

  -- The cache is empty or holds what the endpoint has served.
  abbrev pub IsHonest : World PyJwkClient → Type 0
  IsHonest w = IsHonestCache (request_of w.object) w.requests w.readings w.object.jwk_set_cache

  put_in-IsHonest :
      (cache : Option JwkSetCache) (r : Result Value) (w : World PyJwkClient) (number : ℕ)
      → w.object.jwk_set_cache ≡ cache
      → number < w.requests
      → read_response env web (web.respond (request_of w.object) number) ≡ r
      → IsHonest (put_in env web cache (fetched env web r) w).1
  unfolding Cache.put
  put_in-IsHonest none r w number e lt h = rw e tt
  put_in-IsHonest (some cache) (err x) w number e lt h = inl refl
  put_in-IsHonest (some cache) (ok v) w number e lt h = elim (Bool-cases (Cache.is_none v)) [
    | inl empty ↦ rw (empty, put_in) (inl refl)
    | inr full ↦
        rw (full, put_in)
          (inr (record {
            number = number;
            earlier = lt;
            response = h;
            reading = w.readings;
            read_earlier = omega arith;
            stamped = refl;
          }))
  ]

  pub fetch_data-IsHonest : Keeps IsHonest (fetch_data env web)
  unfolding fetch_data
  fetch_data-IsHonest w h =
      let r = read_response env web (web.respond (request_of w.object) w.requests) in
      let w' : World PyJwkClient = record w { requests = w.requests + 1 } in
      subst⁻¹ IsHonest
        (after-lift (put_in env web w.object.jwk_set_cache (fetched env web r) w')
          (λ done. failure env web r))
        (put_in-IsHonest w.object.jwk_set_cache r w' w.requests refl (omega arith) refl)

  IsHonest_later :
      (cache : Option JwkSetCache) (asked : Request) (requests readings : ℕ)
      → IsHonestCache asked requests readings cache
      → IsHonestCache asked requests (readings + 1) cache
  IsHonest_later none asked requests readings h = tt
  IsHonest_later (some cache) asked requests readings (inl empty) = inl empty
  IsHonest_later (some cache) asked requests readings (inr s) = inr (record {
    number = s.number;
    earlier = s.earlier;
    response = s.response;
    reading = s.reading;
    read_earlier = omega (arith, s.read_earlier);
    stamped = s.stamped;
  })

  pub now-IsHonest : Keeps IsHonest (now web)
  now-IsHonest w h =
      IsHonest_later w.object.jwk_set_cache (request_of w.object) w.requests w.readings h

  empty-IsHonest :
      (b : Bool) (lifespan : ℤ) (asked : Request)
      → IsHonestCache asked 0 0 (if b then some (Cache.init lifespan) else none)
  empty-IsHonest true lifespan asked = inl refl
  empty-IsHonest false lifespan asked = tt

  pub init-IsHonest :
      (a : Arguments) (client : PyJwkClient) → init a ≡ ok client → IsHonest (fresh client)
  init-IsHonest a client h =
      subst⁻¹ (λ c. IsHonest (fresh c)) (init-eq-ok a client h)
        (empty-IsHonest a.cache_jwk_set a.lifespan (request_of (client_of a none)))

  -- However a client has been used, with requests that failed, answers that were no key set and
  -- refreshes for unknown keys: its JWK set cache is missing, empty, or holds exactly the JSON
  -- document that the endpoint gave to one of the requests that the client has made, with the time of
  -- a reading of the clock that the client has taken.
  pub jwk_set_cache-IsHonest : (w : World PyJwkClient) → Reached env web w → IsHonest w
  jwk_set_cache-IsHonest =
      client_invariant env web IsHonest fetch_data-IsHonest now-IsHonest (λ kid key w e h. h)
        (λ kid key w v e g h. h) init-IsHonest
