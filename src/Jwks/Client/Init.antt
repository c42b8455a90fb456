-- ===== src/Jwks/Client/Init.antt =====
-- What `PyJWKClient(…)` makes, and when it raises.
use refactoring_pyjwt.Prelude.{
  true, Option, none, some, ◌≡◌, ◌⊎◌, inl, inr, arith, Bool-cases, if◌then◌else◌,
}
use refactoring_pyjwt.Prelude.Int.{pos, leb_ℤ, leb_ℤ-false, ◌≤ℤ◌, ◌<ℤ◌}
use refactoring_pyjwt.Exceptions.{ok, raise, py_jwk_client_error}
use refactoring_pyjwt.Jwks.Cache as Cache
use refactoring_pyjwt.Jwks.Cache.{JwkSetCache}
use refactoring_pyjwt.Jwks.Lru as Lru
use refactoring_pyjwt.Jwks.Client.{PyJwkClient, Arguments, init, make_cache, or_empty}

-- The client that the arguments ask for, with its cache.
abbrev pub client_of : Arguments → Option JwkSetCache → PyJwkClient
client_of a cache = record {
  uri = a.uri;
  headers = or_empty a.headers;
  timeout = a.timeout;
  ssl_context = a.ssl_context;
  jwk_set_cache = cache;
  signing_key_cache = if a.cache_keys then some (Lru.init a.max_cached_keys) else none;
}

abbrev empty_cache : Arguments → Option JwkSetCache
empty_cache a = if a.cache_jwk_set then some (Cache.init a.lifespan) else none

-- `PyJWKClient(…)` raises PyJWKClientError if the JWK set is to be cached for no time or for a
-- negative one. Otherwise it makes the client with the given values, no headers where none are given,
-- an empty JWK set cache of that lifespan if one is wanted, and an empty cache of signing keys of the
-- given size if one is wanted.
init_lem :
    (a : Arguments)
    → ((a.cache_jwk_set ≡ true) × (a.lifespan ≤ℤ pos 0) × (init a ≡ raise py_jwk_client_error))
      ⊎ ((a.cache_jwk_set ≡ true → pos 0 <ℤ a.lifespan)
          × (init a ≡ ok (client_of a (empty_cache a))))
unfolding init
init_lem a = elim (Bool-cases a.cache_jwk_set) [
  | inl wanted ↦ elim (Bool-cases (leb_ℤ a.lifespan (pos 0))) [
    | inl short ↦ inl (wanted, ground arith, rw (wanted, make_cache, short))
    | inr long ↦ inr (λ t. (leb_ℤ-false a.lifespan (pos 0)).0 long, rw (wanted, make_cache, long))
  ]
  | inr unwanted ↦ inr (λ t. cc, rw unwanted)
]

pub init-eq-ok :
    (a : Arguments) (client : PyJwkClient)
    → init a ≡ ok client
    → client ≡ client_of a (empty_cache a)
init-eq-ok a client h = elim (init_lem a) [ inl (w, l, r) ↦ cc | inr (l, r) ↦ cc ]
