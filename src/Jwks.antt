-- ===== src/Jwks.antt =====
-- jwt/jwks_client.py and jwt/jwk_set_cache.py: key sets from an endpoint.
pub mod Cache
pub mod Calls
pub mod Lru
pub mod Client
