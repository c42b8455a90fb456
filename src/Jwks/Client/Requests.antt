-- ===== src/Jwks/Client/Requests.antt =====
-- What a request gives the client, and how many requests its methods make.
use mathlib.Core.Option
use refactoring_pyjwt.Prelude.{
  ◌+◌, Bool, ◌||◌, Option, none, some, ◌≡◌, refl, inl, inr, arith, Bool-cases, if◌then◌else◌,
}
use refactoring_pyjwt.Prelude.Int.{pos}
use refactoring_pyjwt.Exceptions.{
  Exception, Result, ok, err, raised, is_instance, is_subclass, catching, url_error, timeout_error,
  py_jwk_client_connection_error,
}
use refactoring_pyjwt.Values.{Value, null}
use refactoring_pyjwt.Algorithms.Keys.{Env}
use refactoring_pyjwt.Jwks.Cache as Cache
use refactoring_pyjwt.Jwks.Cache.{JwkSetCache}
use refactoring_pyjwt.Jwks.Calls.{Web, World, continue, lift}
use refactoring_pyjwt.Jwks.Calls.Rules.{Costs, after-lift}
use refactoring_pyjwt.Jwks.Client.{PyJwkClient, request_of}
use refactoring_pyjwt.Jwks.Client.Fetch.{put_in, read_response, fetched, failure, fetch_data}

module _ (env : Env) (web : Web) where
  -- What the endpoint answers next.
  abbrev pub next_response : World PyJwkClient → Result Value
  next_response w = read_response env web (web.respond (request_of w.object) w.requests)

  abbrev pub connection_failed : Exception → Bool
  connection_failed e = is_instance e url_error || is_instance e timeout_error

  abbrev pub failed_as : Exception → Exception
  failed_as e = if connection_failed e then raised py_jwk_client_connection_error else e

  failure_err : (e : Exception) → failure env web (err e) ≡ err (failed_as e)
  unfolding catching is_subclass
  failure_err e = elim (Bool-cases (is_instance e url_error)) [
    | inl u ↦ rw (u, catching)
    | inr n ↦ elim (Bool-cases (is_instance e timeout_error)) [
      | inl t ↦ rw (n, t, catching)
      | inr m ↦ rw (n, m, catching)
    ]
  ]

  abbrev pub emptied : JwkSetCache → JwkSetCache
  emptied cache = record cache { jwk_set = null; timestamp = pos 0 }

  -- The client after a request that fails.
  abbrev pub after_failure : World PyJwkClient → World PyJwkClient
  after_failure w = record w {
    object = record w.object { jwk_set_cache = Option.map emptied w.object.jwk_set_cache };
    requests = w.requests + 1;
  }

  put_null :
      (cache : Option JwkSetCache) (w : World PyJwkClient)
      → w.object.jwk_set_cache ≡ cache
      → put_in env web cache null w ≡ (
        ok tt,
        record w { object = record w.object { jwk_set_cache = Option.map emptied cache } },
      )
  unfolding Cache.put
  put_null none w h = rw h
  put_null (some cache) w h = refl

  -- A request that fails, or whose answer is no JSON, ends in an exception and leaves an empty cache:
  -- PyJWKClientConnectionError stands for a URLError and a TimeoutError, and every other exception
  -- goes through as it is.
  pub fetch_data_raises :
      (w : World PyJwkClient) (e : Exception)
      → next_response w ≡ err e
      → fetch_data env web w ≡ (err (failed_as e), after_failure w)
  unfolding fetch_data
  fetch_data_raises w e h = rw (
    h,
    put_null w.object.jwk_set_cache (record w { requests = w.requests + 1 }) refl,
    failure_err e,
  )

  pub put_in_lem :
      (cache : Option JwkSetCache) (doc : Value) (w : World PyJwkClient)
      → w.object.jwk_set_cache ≡ cache
      → ((put_in env web cache doc w).0 ≡ ok tt)
        × ((put_in env web cache doc w).1.object ≡ record w.object {
          jwk_set_cache = Option.map (Cache.put doc (web.monotonic w.readings)) cache;
        })
        × ((put_in env web cache doc w).1.requests ≡ w.requests)
  unfolding Cache.put
  put_in_lem none doc w h = (refl, rw h, refl)
  put_in_lem (some cache) doc w h = elim (Bool-cases (Cache.put_reads doc)) [
    | inl full ↦ (rw full, rw full, rw full)
    | inr empty ↦ (rw empty, rw empty, rw empty)
  ]

  after_put :
      (doc : Value) (r : Result (Unit {0}) × World PyJwkClient)
      → r.0 ≡ ok tt
      → continue r (λ done. lift (failure env web (ok doc))) ≡ (ok doc, r.1)
  unfolding catching
  after_put doc (ok u, w) h = refl
  after_put doc (err e, w) h = cc

  -- An answer that is JSON is returned, and is put into the cache, if there is one, with the time of
  -- the next reading of the clock.
  pub fetch_data_returns :
      (w : World PyJwkClient) (doc : Value)
      → next_response w ≡ ok doc
      → ((fetch_data env web w).0 ≡ ok doc)
        × ((fetch_data env web w).1.object ≡ record w.object {
          jwk_set_cache =
              Option.map (Cache.put doc (web.monotonic w.readings)) w.object.jwk_set_cache;
        })
        × ((fetch_data env web w).1.requests ≡ w.requests + 1)
  unfolding fetch_data
  fetch_data_returns w doc h =
      let w' : World PyJwkClient = record w { requests = w.requests + 1 } in
      let (done, object, requests) = put_in_lem w.object.jwk_set_cache doc w' refl in
      let end = after_put doc (put_in env web w.object.jwk_set_cache doc w') done in
      rw (h, end, object, requests) (refl, refl, refl)

  put_in_requests :
      (cache : Option JwkSetCache) (v : Value) (w : World PyJwkClient)
      → (put_in env web cache v w).1.requests ≡ w.requests
  put_in_requests none v w = refl
  put_in_requests (some cache) v w = elim (Bool-cases (Cache.put_reads v)) [
    | inl full ↦ rw full
    | inr empty ↦ rw empty
  ]

  pub fetch_data-Costs : Costs 1 (fetch_data env web)
  unfolding fetch_data
  fetch_data-Costs w =
      let r = next_response w in
      let w' : World PyJwkClient = record w { requests = w.requests + 1 } in
      rw
        (
          after-lift (put_in env web w.object.jwk_set_cache (fetched env web r) w')
              (λ done. failure env web r),
          put_in_requests w.object.jwk_set_cache (fetched env web r) w',
        )
        (omega arith)
