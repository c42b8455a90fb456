-- ===== src/Jwks/Client/Inversion.antt =====
-- How a lookup through the signing key cache comes to its result.
use refactoring_pyjwt.Prelude.{String, Option, none, some, ◌≡◌, ◌⊎◌, inl, inr, refl, sym, ap, ◌∙◌}
use refactoring_pyjwt.Exceptions.{Exception, ok, err, ok-injective}
use refactoring_pyjwt.Algorithms.Keys.{Env}
use refactoring_pyjwt.Jwk.{PyJwk}
use refactoring_pyjwt.Jwks.Calls.{Web, World, lift, modify, ◌>>=◌}
use refactoring_pyjwt.Jwks.Calls.Rules.{call-eq-ok, call-eq-err}
use refactoring_pyjwt.Jwks.Client.{PyJwkClient}
use refactoring_pyjwt.Jwks.Client.Lookup.{
  find_signing_key, cached_key, use_cached, store_key, through_cache, get_signing_key,
}

module _ (env : Env) (web : Web) (kid : Option String) (w : World PyJwkClient) where
  through_cache-eq-ok :
      (k : Option PyJwk) {key : PyJwk} {v : World PyJwkClient}
      → cached_key env web w.object.signing_key_cache kid ≡ k
      → through_cache env web kid k w ≡ (ok key, v)
      → ((cached_key env web w.object.signing_key_cache kid ≡ some key)
          × ((modify (use_cached env web kid key) w).1 ≡ v))
        ⊎ ((cached_key env web w.object.signing_key_cache kid ≡ none)
            × (u : World PyJwkClient) × (find_signing_key env web kid w ≡ (ok key, u))
            × ((modify (store_key env web kid key) u).1 ≡ v))
  through_cache-eq-ok (some k) {key} {v} e h =
      let same : k ≡ key = ok-injective (ap (λ p. p.0) h) in
      inl (e ∙ ap some same, rw (sym same) (ap (λ p. p.1) h))
  through_cache-eq-ok none {key} {v} e h =
      let (k, u, found, h') = call-eq-ok (find_signing_key env web kid) _ w h in
      let same : k ≡ key = ok-injective (ap (λ p. p.0) h') in
      inr (e, u, rw (sym same) found, rw (sym same) (ap (λ p. p.1) h'))

  -- A lookup that succeeds has hit, or has found the key in the sets and stored it.
  pub get_signing_key-eq-ok :
      {key : PyJwk} {v : World PyJwkClient}
      → get_signing_key env web kid w ≡ (ok key, v)
      → ((cached_key env web w.object.signing_key_cache kid ≡ some key)
          × ((modify (use_cached env web kid key) w).1 ≡ v))
        ⊎ ((cached_key env web w.object.signing_key_cache kid ≡ none)
            × (u : World PyJwkClient) × (find_signing_key env web kid w ≡ (ok key, u))
            × ((modify (store_key env web kid key) u).1 ≡ v))
  unfolding get_signing_key
  get_signing_key-eq-ok h =
      through_cache-eq-ok (cached_key env web w.object.signing_key_cache kid) refl h

  through_cache-eq-err :
      (k : Option PyJwk) {e : Exception} {v : World PyJwkClient}
      → through_cache env web kid k w ≡ (err e, v)
      → (find_signing_key env web kid w).1 ≡ v
  through_cache-eq-err (some k) h = cc
  through_cache-eq-err none h =
      call-eq-err (find_signing_key env web kid)
        (λ key. modify (store_key env web kid key) >>= (λ done. lift (ok key))) w
        (λ key u e v. λ h. cc) h

  -- One that fails stores nothing.
  pub get_signing_key-eq-err :
      {e : Exception} {v : World PyJwkClient}
      → get_signing_key env web kid w ≡ (err e, v)
      → (find_signing_key env web kid w).1 ≡ v
  unfolding get_signing_key
  get_signing_key-eq-err h =
      through_cache-eq-err (cached_key env web w.object.signing_key_cache kid) h
