-- ===== src/Jwks/Client/Recent.antt =====
-- The signing key cache, by the lookups of the client.
use mathlib.Core.Option
use mathlib.Core.Path.{subst}
use refactoring_pyjwt.Prelude.{
  ℕ, zero, suc, Bool, true, String, Option, none, some, List, [], ◌∷◌, take, ◌≡◌, refl, sym, ap,
  ◌∙◌, inl, inr,
}
use refactoring_pyjwt.Exceptions.{Exception, ok, err}
use refactoring_pyjwt.Algorithms.Keys.{Env}
use refactoring_pyjwt.Jwk.{PyJwk}
use refactoring_pyjwt.Jwks.Lru as Lru
use refactoring_pyjwt.Jwks.Lru.{Lru}
use refactoring_pyjwt.Jwks.Lru.History.{recent, touch-take, push-take}
use refactoring_pyjwt.Jwks.Calls.{Web, World}
use refactoring_pyjwt.Jwks.Client.{PyJwkClient, Arguments, init, same_name}
use refactoring_pyjwt.Jwks.Client.Init.{init-eq-ok}
use refactoring_pyjwt.Jwks.Client.Fetch.{fetch_data, get_jwk_set}
use refactoring_pyjwt.Jwks.Client.Lookup.{
  get_signing_keys, find_signing_key, cached_key, get_signing_key,
}
use refactoring_pyjwt.Jwks.Client.Reach.{fresh}
use refactoring_pyjwt.Jwks.Client.Inversion.{get_signing_key-eq-ok, get_signing_key-eq-err}
use refactoring_pyjwt.Jwks.Client.Steady.{
  fixed, fetch_data-IsSteady, get_jwk_set-IsSteady, get_signing_keys-IsSteady,
  find_signing_key-IsSteady,
}

abbrev pub Names : Type 0
Names = List (Option String × PyJwk)

module _ (env : Env) (web : Web) where
  -- The states of a client, with the lookups that have succeeded, the latest first. A lookup for a
  -- token is one for the kid of its header, or fails before it begins.
  pub data Traced (a : Arguments) : World PyJwkClient → Names → Type 0 where
    made : (client : PyJwkClient) → init a ≡ ok client → Traced a (fresh client) []
    fetched :
        (w : World PyJwkClient) (uses : Names)
        → Traced a w uses
        → Traced a (fetch_data env web w).1 uses
    listed :
        (refresh : Bool) (w : World PyJwkClient) (uses : Names)
        → Traced a w uses
        → Traced a (get_jwk_set env web refresh w).1 uses
    filtered :
        (refresh : Bool) (w : World PyJwkClient) (uses : Names)
        → Traced a w uses
        → Traced a (get_signing_keys env web refresh w).1 uses
    looked_up :
        (kid : Option String) (key : PyJwk) (w v : World PyJwkClient) (uses : Names)
        → Traced a w uses
        → get_signing_key env web kid w ≡ (ok key, v)
        → Traced a v ((kid, key) ∷ uses)
    not_found :
        (kid : Option String) (e : Exception) (w v : World PyJwkClient) (uses : Names)
        → Traced a w uses
        → get_signing_key env web kid w ≡ (err e, v)
        → Traced a v uses

  abbrev pub latest : ℕ → Names → Option (Lru (Option String) PyJwk)
  latest n uses = some (record { maxsize = n; entries = take n (recent same_name uses) })

  -- The cache is the `n` latest uses.
  abbrev pub IsRecent : ℕ → Names → World PyJwkClient → Type 0
  IsRecent n uses w = w.object.signing_key_cache ≡ latest n uses

  take-[] : (n : ℕ) → take {A = Option String × PyJwk} n [] ≡ []
  take-[] zero = refl
  take-[] (suc n) = refl

  hit-latest :
      (n : ℕ) (uses : Names) (kid : Option String) (key : PyJwk)
      → cached_key env web (latest n uses) kid ≡ some key
      → Option.map (Lru.hit same_name kid key) (latest n uses) ≡ latest n ((kid, key) ∷ uses)
  unfolding Lru.hit
  hit-latest n uses kid key h = rw (touch-take same_name kid key n (recent same_name uses) h)

  store-latest :
      (n : ℕ) (uses : Names) (kid : Option String) (key : PyJwk)
      → cached_key env web (latest n uses) kid ≡ none
      → Option.map (Lru.store same_name kid key) (latest n uses) ≡ latest n ((kid, key) ∷ uses)
  unfolding Lru.store
  store-latest n uses kid key h = rw (push-take same_name kid key n (recent same_name uses) h)

  looked_up-IsRecent :
      (n : ℕ) (uses : Names) (kid : Option String) (key : PyJwk) (w v : World PyJwkClient)
      → IsRecent n uses w
      → get_signing_key env web kid w ≡ (ok key, v)
      → IsRecent n ((kid, key) ∷ uses) v
  looked_up-IsRecent n uses kid key w v r h = elim (get_signing_key-eq-ok env web kid w h) [
    | inl (found, same) ↦
        subst (IsRecent n ((kid, key) ∷ uses)) same (
          ap (Option.map (Lru.hit same_name kid key)) r ∙ hit-latest n uses kid key (rw r at found))
    | inr (missing, u, found, same) ↦ subst (IsRecent n ((kid, key) ∷ uses)) same (
        ap (Option.map (Lru.store same_name kid key))
          (kept u (find_signing_key-IsSteady env web (fixed w) kid w refl) found ∙ r)
        ∙ store-latest n uses kid key (rw r at missing))
  ]
    where
      kept :
          (u : World PyJwkClient)
          → fixed (find_signing_key env web kid w).1 ≡ fixed w
          → find_signing_key env web kid w ≡ (ok key, u)
          → u.object.signing_key_cache ≡ w.object.signing_key_cache
      kept u s e = ap (λ p. p.1) (sym (ap (λ p. fixed p.1) e)) ∙ ap (λ p. p.1) s

  -- From the steadiness of what lies between.
  steady-IsRecent :
      (n : ℕ) (uses : Names) (w v : World PyJwkClient)
      → fixed v ≡ fixed w
      → IsRecent n uses w
      → IsRecent n uses v
  steady-IsRecent n uses w v s r = ap (λ p. p.1) s ∙ r

  -- With `cache_keys`, the signing key cache holds after any sequence of calls the latest lookups that
  -- succeeded, of each kid the last one, and at most `max_cached_keys` of them, the most recent first.
  -- Calls that fail and calls of the other methods change nothing of it.
  pub signing_key_cache-IsRecent :
      (a : Arguments) (w : World PyJwkClient) (uses : Names)
      → a.cache_keys ≡ true
      → Traced a w uses
      → IsRecent a.max_cached_keys uses w
  signing_key_cache-IsRecent a _ _ wanted (made client h) =
      ap (λ c. c.signing_key_cache) (init-eq-ok a client h) ∙ rw (wanted, take-[] a.max_cached_keys)
  signing_key_cache-IsRecent a _ _ wanted (fetched w uses t) =
      steady-IsRecent a.max_cached_keys uses w (fetch_data env web w).1
        (fetch_data-IsSteady env web (fixed w) w refl)
        (signing_key_cache-IsRecent a w uses wanted t)
  signing_key_cache-IsRecent a _ _ wanted (listed refresh w uses t) =
      steady-IsRecent a.max_cached_keys uses w (get_jwk_set env web refresh w).1
        (get_jwk_set-IsSteady env web (fixed w) refresh w refl)
        (signing_key_cache-IsRecent a w uses wanted t)
  signing_key_cache-IsRecent a _ _ wanted (filtered refresh w uses t) =
      steady-IsRecent a.max_cached_keys uses w (get_signing_keys env web refresh w).1
        (get_signing_keys-IsSteady env web (fixed w) refresh w refl)
        (signing_key_cache-IsRecent a w uses wanted t)
  signing_key_cache-IsRecent a _ _ wanted (looked_up kid key w v uses t h) =
      looked_up-IsRecent a.max_cached_keys uses kid key w v
        (signing_key_cache-IsRecent a w uses wanted t) h
  signing_key_cache-IsRecent a _ _ wanted (not_found kid e w v uses t h) =
      steady-IsRecent a.max_cached_keys uses w v
        (ap fixed (sym (get_signing_key-eq-err env web kid w h))
          ∙ find_signing_key-IsSteady env web (fixed w) kid w refl)
        (signing_key_cache-IsRecent a w uses wanted t)
