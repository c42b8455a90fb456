-- ===== src/Jwks/Client/Agreement.antt =====
-- What `get_signing_key` of the class returns, as a function of the cached document and of the
-- endpoint's answers.
use refactoring_pyjwt.Prelude.{
  ℕ, ◌+◌, true, false, String, Option, none, some, List, ◌≡◌, refl, ap, ◌∙◌,
}
use refactoring_pyjwt.Exceptions.{Exception, Result, ok, err, raise, py_jwk_client_error}
use refactoring_pyjwt.Exceptions as Exceptions
use refactoring_pyjwt.Values.{Value, null}
use refactoring_pyjwt.Jwks.Cache.{JwkSetCache}
use refactoring_pyjwt.Algorithms.Keys.{Env}
use refactoring_pyjwt.Jwk.{PyJwk}
use refactoring_pyjwt.Jwks.Calls.{Web, World, continue}
use refactoring_pyjwt.Jwks.Calls.Rules.{lift_result}
use refactoring_pyjwt.Jwks.Client.{PyJwkClient, request_of}
use refactoring_pyjwt.Jwks.Client.Fetch.{read_response, failure}
use refactoring_pyjwt.Jwks.Client.Lookup.{
  get_signing_keys, match_kid, or_unknown, try_again, find_signing_key,
}
use refactoring_pyjwt.Jwks.Client.Steady.{fixed, get_signing_keys-IsSteady}
use refactoring_pyjwt.Jwks.Client.Sets.{
  held, document, downloads, signing_keys_in, get_signing_keys_lem,
}

module _ (env : Env) (web : Web) where
  -- The answer to the request of that number.
  abbrev pub answer : World PyJwkClient → (number : ℕ) → Result Value
  answer w number =
      failure env web (read_response env web (web.respond (request_of w.object) number))

  -- The key in the keys of the next answer, unless it has been found already.
  abbrev pub found_or_next :
      World PyJwkClient → (kid : Option String) → (number : ℕ) → Option PyJwk → Result PyJwk
  found_or_next w kid number (some key) = ok key
  found_or_next w kid number none =
      Exceptions.◌>>=◌ (Exceptions.◌>>=◌ (answer w number) (signing_keys_in env web))
        (λ keys. or_unknown env web (match_kid env web keys kid))

  -- A client without steps: the key in the first keys, or in the next ones.
  abbrev pub key_for : World PyJwkClient → (kid : Option String) → Result PyJwk
  key_for w kid =
      Exceptions.◌>>=◌ (Exceptions.◌>>=◌ (document env web false w) (signing_keys_in env web))
        (λ keys.
          found_or_next w kid (w.requests + downloads env web false w) (match_kid env web keys kid))

  held_refresh :
      (cache : Option JwkSetCache) (w : World PyJwkClient) → held env web cache true w ≡ null
  held_refresh none w = refl
  held_refresh (some cache) w = refl

  try_again_lem :
      (w v : World PyJwkClient) (kid : Option String) (o : Option PyJwk)
      → fixed v ≡ fixed w
      → (try_again env web kid o v).0 ≡ found_or_next w kid v.requests o
  try_again_lem w v kid (some key) s = refl
  try_again_lem w v kid none s =
      let r = get_signing_keys env web true v in
      let asked : request_of v.object ≡ request_of w.object = ap (λ p. p.0) s in
      lift_result r (λ keys. or_unknown env web (match_kid env web keys kid))
      ∙ rw ((get_signing_keys_lem env web true v).0, held_refresh v.object.jwk_set_cache v, asked)
          refl

  then_again :
      (w : World PyJwkClient) (kid : Option String) (number : ℕ)
      (r : Result (List PyJwk) × World PyJwkClient)
      → fixed r.1 ≡ fixed w
      → r.1.requests ≡ number
      → (continue r (λ keys. try_again env web kid (match_kid env web keys kid))).0
        ≡ Exceptions.◌>>=◌ r.0 (λ keys. found_or_next w kid number (match_kid env web keys kid))
  then_again w kid number (ok keys, v) s n =
      try_again_lem w v kid (match_kid env web keys kid) s
      ∙ ap (λ i. found_or_next w kid i (match_kid env web keys kid)) n
  then_again w kid number (err e, v) s n = refl

  -- The method `get_signing_key` of the class returns what a client without steps would: the key of
  -- that kid among the signing keys of the cached document, if the cache gives one, and else of the
  -- endpoint's next answer; where there is no such key, the one among the signing keys of the answer
  -- after that. It raises what one of the two raises, and PyJWKClientError where the key is in neither.
  pub find_signing_key_lem :
      (w : World PyJwkClient) (kid : Option String)
      → (find_signing_key env web kid w).0 ≡ key_for w kid
  unfolding find_signing_key
  find_signing_key_lem w kid =
      let (result, requests) = get_signing_keys_lem env web false w in
      then_again w kid (w.requests + downloads env web false w) (get_signing_keys env web false w)
        (get_signing_keys-IsSteady env web (fixed w) false w refl) requests
      ∙ ap
          (λ m. Exceptions.◌>>=◌ m (λ keys.
            found_or_next w kid (w.requests + downloads env web false w)
              (match_kid env web keys kid)))
          result
