-- ===== src/Jwks/Client/Fetch.antt =====
-- jwt/jwks_client.py: `fetch_data` and `get_jwk_set`.
use refactoring_pyjwt.Prelude.{ℕ, ◌+◌, Bool, true, false, Option, none, some, List}
use refactoring_pyjwt.Prelude.Int.{ℤ, pos}
use refactoring_pyjwt.Exceptions.{
  Result, ok, err, raise, raise_if, catching, url_error, timeout_error, py_jwk_client_error,
  py_jwk_client_connection_error,
}
use refactoring_pyjwt.Exceptions as Exceptions
use refactoring_pyjwt.Values.{Value, null, Dict, as_dict}
use refactoring_pyjwt.Utils.Base64.{StrOrBytes}
use refactoring_pyjwt.Algorithms.Keys.{Env}
use refactoring_pyjwt.Jwk.{PyJwk}
use refactoring_pyjwt.Jwk.KeySet
use refactoring_pyjwt.Jwk.KeySet.{same_kid}
use refactoring_pyjwt.Jwks.Cache as Cache
use refactoring_pyjwt.Jwks.Cache.{JwkSetCache}
use refactoring_pyjwt.Jwks.Calls.{Web, Call, lift, gets, modify, now, ◌>>=◌}
use refactoring_pyjwt.Jwks.Client.{PyJwkClient, request_of}

module _ (env : Env) (web : Web) where
  abbrev pub now_if : Bool → Call PyJwkClient ℤ
  now_if true = now web
  now_if false = lift (ok (pos 0))

  -- `if self.jwk_set_cache is not None: self.jwk_set_cache.put(jwk_set)`
  abbrev pub put_in : Option JwkSetCache → Value → Call PyJwkClient (Unit {0})
  put_in none jwk_set = lift (ok tt)
  put_in (some cache) jwk_set = do
    time ← now_if (Cache.put_reads jwk_set)
    modify (λ client. record client { jwk_set_cache = some (Cache.put jwk_set time cache) })

  -- `urlopen` and `json.load`
  abbrev pub read_response : Result (List ℕ) → Result Value
  read_response response = Exceptions.◌>>=◌ response (λ b. env.json_loads (StrOrBytes.bytes b))

  abbrev pub fetched : Result Value → Value
  fetched (ok jwk_set) = jwk_set
  fetched (err e) = null

  -- The request and the read, as a result that does not end the call.
  abbrev pub attempt : Call PyJwkClient (Result Value)
  attempt w = (
    ok (read_response (web.respond (request_of w.object) w.requests)),
    record w { requests = w.requests + 1 },
  )

  -- The `except` clause.
  abbrev pub failure : Result Value → Result Value
  failure response =
      catching timeout_error py_jwk_client_connection_error
        (catching url_error py_jwk_client_connection_error response)

  unfoldable pub fetch_data : Call PyJwkClient Value
  fetch_data = do
    response ← attempt
    cache ← gets (λ client. client.jwk_set_cache)
    done ← put_in cache (fetched response)
    lift (failure response)

  abbrev pub cached_value : Option JwkSetCache → (refresh : Bool) → Call PyJwkClient Value
  cached_value (some cache) false = do
    time ← now_if (Cache.get_reads cache)
    lift (ok (Cache.get time cache))
  cached_value _ refresh = lift (ok null)

  abbrev pub key_set : Option Dict → Result (List PyJwk)
  key_set none = raise py_jwk_client_error
  key_set (some obj) = KeySet.from_dict env obj

  abbrev pub fetch_if : Bool → Value → Call PyJwkClient Value
  fetch_if true data' = fetch_data
  fetch_if false data' = lift (ok data')

  unfoldable pub get_jwk_set : (refresh : Bool) → Call PyJwkClient (List PyJwk)
  get_jwk_set refresh = do
    cache ← gets (λ client. client.jwk_set_cache)
    found ← cached_value cache refresh
    jwk_set ← fetch_if (Cache.is_none found) found
    lift (key_set (as_dict jwk_set))
