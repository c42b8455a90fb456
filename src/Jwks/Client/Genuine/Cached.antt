-- ===== src/Jwks/Client/Genuine/Cached.antt =====
-- The keys in the signing key cache come from the endpoint too.
use mathlib.Core.Path.{subst}
use mathlib.Core.Option
use text.Mathlib.TextEquality.{eq_iff}
use refactoring_pyjwt.Prelude.{
  ℕ, Bool, true, false, String, Option, none, some, List, [], ◌∷◌, All, All-take, ◌≡◌, refl, sym,
  ap, ◌∙◌, inl, inr, Bool-cases, if◌then◌else◌,
}
use refactoring_pyjwt.Exceptions.{ok}
use refactoring_pyjwt.Algorithms.Keys.{Env}
use refactoring_pyjwt.Jwk.{PyJwk}
use refactoring_pyjwt.Jwks.Lru as Lru
use refactoring_pyjwt.Jwks.Lru.{Lru}
use refactoring_pyjwt.Jwks.Calls.{Web, Request, World}
use refactoring_pyjwt.Jwks.Calls.Rules.{Keeps}
use refactoring_pyjwt.Jwks.Client.{PyJwkClient, Arguments, init, request_of, same_name}
use refactoring_pyjwt.Jwks.Client.Init.{init-eq-ok}
use refactoring_pyjwt.Jwks.Client.Fetch.{fetch_data}
use refactoring_pyjwt.Jwks.Client.Lookup.{cached_key, find_signing_key, get_signing_key}
use refactoring_pyjwt.Jwks.Client.Reach.{fresh, Reached}
use refactoring_pyjwt.Jwks.Client.Methods.{client_invariant}
use refactoring_pyjwt.Jwks.Client.Inversion.{get_signing_key-eq-ok}
use refactoring_pyjwt.Jwks.Client.Steady.{fixed, fetch_data-IsSteady, find_signing_key-IsSteady}
use refactoring_pyjwt.Jwks.Client.Served.{
  IsHonest, fetch_data-IsHonest, now-IsHonest, init-IsHonest,
}
use refactoring_pyjwt.Jwks.Client.Genuine.{IsGenuine, find_signing_key-IsGenuine}

same_name_sound : (a b : Option String) → same_name a b ≡ true → a ≡ b
same_name_sound none none h = refl
same_name_sound (some a) (some b) h = ap some ((eq_iff a b).0 h)
same_name_sound none (some b) h = cc
same_name_sound (some a) none h = cc

module _ (Q : Option String × PyJwk → Type 0) where
  lookup-All :
      (k : Option String) (l : List (Option String × PyJwk)) {v : PyJwk}
      → All Q l
      → Lru.lookup same_name k l ≡ some v
      → Q (k, v)
  unfolding Lru.lookup
  lookup-All k [] h e = cc
  lookup-All k ((j, w) ∷ l) {v} (q, h) e = elim (Bool-cases (same_name j k)) [
    | inl here ↦
        let same : w ≡ v = some-inj (rw (here, Lru.lookup) at e) in
        subst (λ p. Q p) (λ i. (same_name_sound j k here i, same i)) q
    | inr later ↦ lookup-All k l h (rw (later, Lru.lookup) at e)
  ]
    where
      some-inj : {a b : PyJwk} → some a ≡ some b → a ≡ b
      some-inj h = cc

  All-remove :
      (k : Option String) (l : List (Option String × PyJwk))
      → All Q l
      → All Q (Lru.remove same_name k l)
  unfolding Lru.remove
  All-remove k [] h = tt
  All-remove k ((j, w) ∷ l) (q, h) = elim (Bool-cases (same_name j k)) [
    | inl here ↦ rw (here, Lru.remove) h
    | inr later ↦ rw (later, Lru.remove) (q, All-remove k l h)
  ]

module _ (env : Env) (web : Web) where
  abbrev IsGenuineEntry : Request → Option String × PyJwk → Type 0
  IsGenuineEntry asked (kid, key) = IsGenuine env web asked kid key

  abbrev AllGenuine : Request × Option (Lru (Option String) PyJwk) → Type 0
  AllGenuine (asked, none) = Unit
  AllGenuine (asked, some cache) = All (IsGenuineEntry asked) cache.entries

  abbrev IsSound : World PyJwkClient → Type 0
  IsSound w = IsHonest env web w × AllGenuine (fixed w)

  fetch_data-IsSound : Keeps IsSound (fetch_data env web)
  fetch_data-IsSound w (h, g) = (
    fetch_data-IsHonest env web w h,
    subst AllGenuine (sym (fetch_data-IsSteady env web (fixed w) w refl)) g,
  )

  hit-AllGenuine :
      (asked : Request) (cache : Option (Lru (Option String) PyJwk)) (kid : Option String)
      (key : PyJwk)
      → cached_key env web cache kid ≡ some key
      → AllGenuine (asked, cache)
      → AllGenuine (asked, Option.map (Lru.hit same_name kid key) cache)
  unfolding Lru.hit
  hit-AllGenuine asked none kid key e g = tt
  hit-AllGenuine asked (some cache) kid key e g = (
    lookup-All (IsGenuineEntry asked) kid cache.entries g e,
    All-remove (IsGenuineEntry asked) kid cache.entries g,
  )

  store-AllGenuine :
      (asked : Request) (cache : Option (Lru (Option String) PyJwk)) (kid : Option String)
      (key : PyJwk)
      → IsGenuine env web asked kid key
      → AllGenuine (asked, cache)
      → AllGenuine (asked, Option.map (Lru.store same_name kid key) cache)
  unfolding Lru.store
  store-AllGenuine asked none kid key q g = tt
  store-AllGenuine asked (some cache) kid key q g =
      All-take (IsGenuineEntry asked) cache.maxsize ((kid, key) ∷ cache.entries) (q, g)

  -- The key that a successful search has given, in the world after it.
  found-IsGenuine :
      (kid : Option String) (key : PyJwk) (w v : World PyJwkClient)
      → find_signing_key env web kid w ≡ (ok key, v)
      → IsHonest env web w
      → IsGenuine env web (request_of v.object) kid key
  found-IsGenuine kid key w v e h =
      let s : fixed v ≡ fixed w =
        sym (ap (λ p. fixed p.1) e) ∙ find_signing_key-IsSteady env web (fixed w) kid w refl in
      subst (λ asked. IsGenuine env web asked kid key) (sym (ap (λ p. p.0) s))
        (find_signing_key-IsGenuine env web w v kid key h e)

  new-AllGenuine :
      (b : Bool) (asked : Request) (n : ℕ)
      → AllGenuine (asked, if b then some (Lru.init n) else none)
  new-AllGenuine true asked n = tt
  new-AllGenuine false asked n = tt

  new-IsSound : (a : Arguments) (client : PyJwkClient) → init a ≡ ok client → IsSound (fresh client)
  new-IsSound a client e = (
    init-IsHonest env web a client e,
    subst (λ c. AllGenuine (fixed (fresh c))) (sym (init-eq-ok a client e))
        (new-AllGenuine a.cache_keys _ a.max_cached_keys),
  )

  client-IsSound : (w : World PyJwkClient) → Reached env web w → IsSound w
  client-IsSound =
      client_invariant env web IsSound fetch_data-IsSound
        (λ w (h, g). (now-IsHonest env web w h, g))
        (λ kid key w e (h, g).
          (h, hit-AllGenuine (request_of w.object) w.object.signing_key_cache kid key e g))
        (λ kid key w v e (h, g) (h', g'). (
          h',
          store-AllGenuine (request_of v.object) v.object.signing_key_cache kid key
              (found-IsGenuine kid key w v e h) g',
        ))
        new-IsSound

  -- However a client has been used: a key that it gives out for a kid has that kid, is marked for
  -- signing or not marked, has an identifier that is not empty, and is one of the usable keys of a
  -- JSON document that the endpoint has given to a request of this client, also where the key comes
  -- from one of the caches.
  pub get_signing_key-IsGenuine :
      (w v : World PyJwkClient) (kid : Option String) (key : PyJwk)
      → Reached env web w
      → get_signing_key env web kid w ≡ (ok key, v)
      → IsGenuine env web (request_of w.object) kid key
  get_signing_key-IsGenuine w v kid key r e =
      let (h, g) = client-IsSound w r in
      elim (get_signing_key-eq-ok env web kid w e) [
        | inl (found, same) ↦ cached (request_of w.object) w.object.signing_key_cache g found
        | inr (missing, u, found, same) ↦ find_signing_key-IsGenuine env web w u kid key h found
      ]
    where
      cached :
          (asked : Request) (cache : Option (Lru (Option String) PyJwk))
          → AllGenuine (asked, cache)
          → cached_key env web cache kid ≡ some key
          → IsGenuine env web asked kid key
      cached asked none g found = cc
      cached asked (some cache) g found =
          lookup-All (IsGenuineEntry asked) kid cache.entries g found
