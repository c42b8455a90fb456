-- ===== src/Jwks/Client/Sets.antt =====
-- What `get_jwk_set` returns, without the steps that it takes.
use refactoring_pyjwt.Prelude.{
  ℕ, ◌+◌, Bool, true, false, Option, none, some, List, ◌≡◌, refl, ap, ◌∙◌, inl, inr, arith,
  Bool-cases, if◌then◌else◌,
}
use refactoring_pyjwt.Prelude.Int.{pos}
use refactoring_pyjwt.Exceptions.{Exception, Result, ok, err, raise, py_jwk_client_error}
use refactoring_pyjwt.Exceptions.Inversion.{>>=_assoc}
use refactoring_pyjwt.Exceptions as Exceptions
use refactoring_pyjwt.Values.{Value, null, as_dict}
use refactoring_pyjwt.Algorithms.Keys.{Env}
use refactoring_pyjwt.Jwk.{PyJwk}
use refactoring_pyjwt.Jwks.Cache as Cache
use refactoring_pyjwt.Jwks.Cache.{JwkSetCache}
use refactoring_pyjwt.Jwks.Cache.Expiry.{get_unread}
use refactoring_pyjwt.Jwks.Calls.{Web, World, continue, lift}
use refactoring_pyjwt.Jwks.Calls.Rules.{after-lift, lift_result}
use refactoring_pyjwt.Jwks.Client.{PyJwkClient}
use refactoring_pyjwt.Jwks.Client.Fetch.{
  put_in, fetched, failure, fetch_data, cached_value, key_set, fetch_if, get_jwk_set,
}
use refactoring_pyjwt.Jwks.Client.Lookup.{kept, need_some, get_signing_keys}
use refactoring_pyjwt.Jwks.Client.Requests.{next_response, put_in_lem}

module _ (env : Env) (web : Web) where
  -- The document that the cache gives at the next reading of the clock.
  abbrev pub held : Option JwkSetCache → (refresh : Bool) → World PyJwkClient → Value
  held (some cache) false w = Cache.get (web.monotonic w.readings) cache
  held _ refresh w = null

  -- What a request would give.
  abbrev pub download : World PyJwkClient → Result Value
  download w = failure env web (next_response env web w)

  -- The keys of a document.
  abbrev pub keys_in : Value → Result (List PyJwk)
  keys_in doc = key_set env web (as_dict doc)

  fetch_data_result :
      (w : World PyJwkClient)
      → ((fetch_data env web w).0 ≡ download w)
        × ((fetch_data env web w).1.requests ≡ w.requests + 1)
  unfolding fetch_data
  fetch_data_result w =
      let w' : World PyJwkClient = record w { requests = w.requests + 1 } in
      let v = fetched env web (next_response env web w) in
      let r = put_in env web w.object.jwk_set_cache v w' in
      let (done, object, requests) = put_in_lem env web w.object.jwk_set_cache v w' refl in
      (finish r done, ap (λ u. u.requests) (after-lift r (λ done. download w)) ∙ requests)
    where
      finish :
          (r : Result (Unit {0}) × World PyJwkClient)
          → r.0 ≡ ok tt
          → (continue r (λ done. lift (download w))).0 ≡ download w
      finish (ok u, v) h = refl
      finish (err e, v) h = cc

  -- The cache's answer, the client as it was, and a later reading of the clock at most.
  cached_value_lem :
      (cache : Option JwkSetCache) (refresh : Bool) (w : World PyJwkClient)
      → (n : ℕ) × (cached_value env web cache refresh w
          ≡ (ok (held cache refresh w), record w { readings = n }))
  cached_value_lem none refresh w = (w.readings, refl)
  cached_value_lem (some cache) true w = (w.readings, refl)
  cached_value_lem (some cache) false w = elim (Bool-cases (Cache.get_reads cache)) [
    | inl reads ↦ (w.readings + 1, rw reads)
    | inr blind ↦
        (w.readings, rw (blind, get_unread cache (pos 0) (web.monotonic w.readings) blind))
  ]

  -- The document that `get_jwk_set` takes: the cached one where the cache gives one and no refresh is
  -- asked for, and else the endpoint's next answer.
  abbrev pub document : (refresh : Bool) → World PyJwkClient → Result Value
  document refresh w =
      let doc = held w.object.jwk_set_cache refresh w in
      if Cache.is_none doc then download w else ok doc

  abbrev pub downloads : (refresh : Bool) → World PyJwkClient → ℕ
  downloads refresh w = if Cache.is_none (held w.object.jwk_set_cache refresh w) then 1 else 0

  fetched_or_held :
      (doc : Value) (w : World PyJwkClient)
      → ((fetch_if env web (Cache.is_none doc) doc w).0
          ≡ (if Cache.is_none doc then download w else ok doc))
        × ((fetch_if env web (Cache.is_none doc) doc w).1.requests
            ≡ w.requests + (if Cache.is_none doc then 1 else 0))
  fetched_or_held doc w = elim (Bool-cases (Cache.is_none doc)) [
    | inl empty ↦ rw empty (fetch_data_result w)
    | inr full ↦ rw full (refl, omega arith)
  ]

  pub get_jwk_set_lem :
      (refresh : Bool) (w : World PyJwkClient)
      → ((get_jwk_set env web refresh w).0 ≡ Exceptions.◌>>=◌ (document refresh w) keys_in)
        × ((get_jwk_set env web refresh w).1.requests ≡ w.requests + downloads refresh w)
  unfolding get_jwk_set
  get_jwk_set_lem refresh w =
      let doc = held w.object.jwk_set_cache refresh w in
      let (n, found) = cached_value_lem w.object.jwk_set_cache refresh w in
      let w' : World PyJwkClient = record w { readings = n } in
      let r = fetch_if env web (Cache.is_none doc) doc w' in
      let (result, requests) = fetched_or_held doc w' in
      rw found (
        lift_result r keys_in ∙ ap (λ m. Exceptions.◌>>=◌ m keys_in) result,
        ap (λ u. u.requests) (after-lift r keys_in) ∙ requests,
      )

  abbrev signing_among : List PyJwk → Result (List PyJwk)
  signing_among keys = need_some env web (kept env web keys)

  -- The signing keys of a document, of which there must be one.
  abbrev pub signing_keys_in : Value → Result (List PyJwk)
  signing_keys_in doc = Exceptions.◌>>=◌ (keys_in doc) signing_among

  pub get_signing_keys_lem :
      (refresh : Bool) (w : World PyJwkClient)
      → ((get_signing_keys env web refresh w).0
          ≡ Exceptions.◌>>=◌ (document refresh w) signing_keys_in)
        × ((get_signing_keys env web refresh w).1.requests ≡ w.requests + downloads refresh w)
  unfolding get_signing_keys
  get_signing_keys_lem refresh w =
      let r = get_jwk_set env web refresh w in
      let (result, requests) = get_jwk_set_lem refresh w in
      (
        lift_result r signing_among
            ∙ ap (λ m. Exceptions.◌>>=◌ m signing_among) result
            ∙ >>=_assoc (document refresh w) keys_in signing_among,
        ap (λ u. u.requests) (after-lift r signing_among) ∙ requests,
      )
