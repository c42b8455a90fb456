-- ===== src/Jwks/Cache.antt =====
-- jwt/jwk_set_cache.py: the class JWKSetCache. Times are integers of microseconds. What is cached is
-- the value that the client puts, and `null` is None.
pub mod Expiry
use refactoring_pyjwt.Prelude.{Bool, true, false, not, ◌&&◌, ◌||◌, if◌then◌else◌}
use refactoring_pyjwt.Prelude.Int.{ℤ, pos, negsuc, ◌+ℤ◌, ltb_ℤ}
use refactoring_pyjwt.Values.{Value, null}

pub record JwkSetCache : Type 0 where
  pub jwk_set : Value
  pub timestamp : ℤ
  pub lifespan : ℤ

abbrev pub is_none : Value → Bool
is_none null = true
is_none _ = false

abbrev pub init : (lifespan : ℤ) → JwkSetCache
init lifespan = record { jwk_set = null; timestamp = pos 0; lifespan = lifespan }

-- -1, in microseconds
abbrev pub forever : ℤ
forever = negsuc 999999

-- `now` is the reading of the clock, which the code takes only where it comes to it.
unfoldable pub put : Value → (now : ℤ) → JwkSetCache → JwkSetCache
put jwk_set now cache =
    if not (is_none jwk_set)
    then record cache { jwk_set = jwk_set; timestamp = now }
    else record cache { jwk_set = null; timestamp = pos 0 }

unfoldable pub is_expired : (now : ℤ) → JwkSetCache → Bool
is_expired now cache =
    not (is_none cache.jwk_set)
    && ltb_ℤ forever cache.lifespan
    && ltb_ℤ (cache.timestamp +ℤ cache.lifespan) now

unfoldable pub get : (now : ℤ) → JwkSetCache → Value
get now cache = if is_none cache.jwk_set || is_expired now cache then null else cache.jwk_set

-- Whether `put` and `get` read the clock.
abbrev pub put_reads : Value → Bool
put_reads jwk_set = not (is_none jwk_set)

abbrev pub get_reads : JwkSetCache → Bool
get_reads cache = not (is_none cache.jwk_set) && ltb_ℤ forever cache.lifespan
