-- ===== src/Jwks/Client/Reuse.antt =====
-- Looking a key up again.
use mathlib.Core.Option
use text.Mathlib.TextPositions.{eq_refl}
use refactoring_pyjwt.Prelude.{
  ℕ, zero, suc, ◌<◌, true, String, Option, none, some, List, ◌∷◌, take, ◌≡◌, refl, sym, ap, ◌∙◌,
  inl, inr,
}
use refactoring_pyjwt.Exceptions.{ok}
use refactoring_pyjwt.Algorithms.Keys.{Env}
use refactoring_pyjwt.Jwk.{PyJwk}
use refactoring_pyjwt.Jwks.Lru as Lru
use refactoring_pyjwt.Jwks.Lru.{Lru}
use refactoring_pyjwt.Jwks.Calls.{Web, World}
use refactoring_pyjwt.Jwks.Client.{PyJwkClient, same_name}
use refactoring_pyjwt.Jwks.Client.Lookup.{find_signing_key, through_cache, get_signing_key}
use refactoring_pyjwt.Jwks.Client.Inversion.{get_signing_key-eq-ok}
use refactoring_pyjwt.Jwks.Client.Steady.{fixed, find_signing_key-IsSteady}

same_name_refl : (kid : Option String) → same_name kid kid ≡ true
same_name_refl none = refl
same_name_refl (some kid) = eq_refl kid

-- A cache that begins with the key.
abbrev IsFront : Option String → PyJwk → World PyJwkClient → Type 0
IsFront kid key w =
    (n : ℕ) × (rest : List (Option String × PyJwk)) × (w.object.signing_key_cache
      ≡ some (record { maxsize = n; entries = (kid, key) ∷ rest }))

module _ (env : Env) (web : Web) (kid : Option String) (key : PyJwk) where
  front_again :
      (v : World PyJwkClient) → IsFront kid key v → get_signing_key env web kid v ≡ (ok key, v)
  unfolding get_signing_key Lru.hit Lru.lookup Lru.remove
  front_again v (n, rest, e) =
      rw (e, same_name_refl kid, through_cache, same_name_refl kid, Lru.remove)

  take-cons :
      (n : ℕ) (l : List (Option String × PyJwk))
      → 0 < n
      → (rest : List (Option String × PyJwk)) × (take n ((kid, key) ∷ l) ≡ ((kid, key) ∷ rest))
  take-cons zero l h = elim h [ ]
  take-cons (suc n) l h = (take n l, refl)

  stored-IsFront :
      (c : Lru (Option String) PyJwk) (w : World PyJwkClient)
      → 0 < c.maxsize
      → w.object.signing_key_cache ≡ some (Lru.store same_name kid key c)
      → IsFront kid key w
  unfolding Lru.store
  stored-IsFront c w h e =
      let (rest, front) = take-cons c.maxsize c.entries h in
      (c.maxsize, rest, e ∙ ap (λ l. some (record { maxsize = c.maxsize; entries = l })) front)

  hit-IsFront :
      (c : Lru (Option String) PyJwk) (w : World PyJwkClient)
      → w.object.signing_key_cache ≡ some (Lru.hit same_name kid key c)
      → IsFront kid key w
  unfolding Lru.hit
  hit-IsFront c w e = (c.maxsize, Lru.remove same_name kid c.entries, e)

  found_steady :
      (w u : World PyJwkClient)
      → find_signing_key env web kid w ≡ (ok key, u)
      → u.object.signing_key_cache ≡ w.object.signing_key_cache
  found_steady w u e =
      ap (λ p. p.1)
        (sym (ap (λ p. fixed p.1) e) ∙ find_signing_key-IsSteady env web (fixed w) kid w refl)

  -- With a signing key cache for at least one key, a lookup that has succeeded is free: done again at
  -- once, it gives the same key, without a request or a reading of the clock, and the client stays as
  -- it is.
  pub get_signing_key_again :
      (w v : World PyJwkClient) (c : Lru (Option String) PyJwk)
      → w.object.signing_key_cache ≡ some c
      → 0 < c.maxsize
      → get_signing_key env web kid w ≡ (ok key, v)
      → get_signing_key env web kid v ≡ (ok key, v)
  get_signing_key_again w v c e h g = elim (get_signing_key-eq-ok env web kid w g) [
    | inl (found, same) ↦ front_again v (
        hit-IsFront c v (
          sym (ap (λ v. v.object.signing_key_cache) same)
          ∙ ap (Option.map (Lru.hit same_name kid key)) e))
    | inr (missing, u, found, same) ↦ front_again v (
        stored-IsFront c v h (
          sym (ap (λ v. v.object.signing_key_cache) same)
          ∙ ap (Option.map (Lru.store same_name kid key)) (found_steady w u found ∙ e)))
  ]
