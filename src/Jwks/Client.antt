-- ===== src/Jwks/Client.antt =====
-- jwt/jwks_client.py: the class PyJWKClient, its state and `__init__`.
pub mod Fetch
pub mod Lookup
pub mod Keeping
pub mod Reach
pub mod Methods
pub mod Init
pub mod Served
pub mod Requests
pub mod Costs
pub mod Sets
pub mod Agreement
pub mod Rotation
pub mod Tokens
pub mod Genuine
pub mod Reuse
pub mod Inversion
pub mod Recent
pub mod Steady
use refactoring_pyjwt.Prelude.{
  ℕ, String, Bool, true, false, not, ◌&&◌, ◌||◌, Option, none, some, List, [], ◌∷◌, str_eq,
  is_empty, if◌then◌else◌,
}
use refactoring_pyjwt.Prelude.Int.{ℤ, pos, leb_ℤ}
use refactoring_pyjwt.Exceptions.{
  Result, ok, err, raise, raise_if, catching, url_error, timeout_error, py_jwk_client_error,
  py_jwk_client_connection_error,
}
use refactoring_pyjwt.Exceptions as Exceptions
use refactoring_pyjwt.Values.{Value, null, str, Dict, as_dict, get, or_null, truthy, equals_str}
use refactoring_pyjwt.Utils.Base64.{StrOrBytes}
use refactoring_pyjwt.Algorithms.Keys.{Env}
use refactoring_pyjwt.Jwk.{PyJwk, key_id, public_key_use}
use refactoring_pyjwt.Jwk.KeySet
use refactoring_pyjwt.Jwk.KeySet.{same_kid}
use refactoring_pyjwt.Jwt.Options.{PyJwt, Options, no_options}
use refactoring_pyjwt.Jwt.Globals.{no_key_given, no_expectation}
use refactoring_pyjwt.Jwt.Decode
use refactoring_pyjwt.Jwks.Cache as Cache
use refactoring_pyjwt.Jwks.Cache.{JwkSetCache}
use refactoring_pyjwt.Jwks.Calls.{Web, Request, Call, lift, gets, modify, now, ◌>>=◌}
use refactoring_pyjwt.Jwks.Lru as Lru
use refactoring_pyjwt.Jwks.Lru.{Lru}

-- The signing key cache is there where `cache_keys` is set.
pub record PyJwkClient : Type 0 where
  pub uri : String
  pub headers : Dict
  pub timeout : ℤ
  pub ssl_context : Option ℕ
  pub jwk_set_cache : Option JwkSetCache
  pub signing_key_cache : Option (Lru (Option String) PyJwk)

-- The arguments of `__init__`; `max_cached_keys` counts from 0, as lru_cache takes a negative one.
pub record Arguments : Type 0 where
  pub uri : String
  pub cache_keys : Bool
  pub max_cached_keys : ℕ
  pub cache_jwk_set : Bool
  pub lifespan : ℤ
  pub headers : Option Dict
  pub timeout : ℤ
  pub ssl_context : Option ℕ

abbrev pub or_empty : Option Dict → Dict
or_empty none = []
or_empty (some headers) = headers

abbrev pub make_cache : Bool → ℤ → Result (Option JwkSetCache)
make_cache false lifespan = ok none
make_cache true lifespan =
    if leb_ℤ lifespan (pos 0) then raise py_jwk_client_error else ok (some (Cache.init lifespan))

unfoldable pub init : Arguments → Result PyJwkClient
init a = Exceptions.◌>>=◌ (make_cache a.cache_jwk_set a.lifespan) (λ cache. ok (record {
  uri = a.uri;
  headers = or_empty a.headers;
  timeout = a.timeout;
  ssl_context = a.ssl_context;
  jwk_set_cache = cache;
  signing_key_cache = if a.cache_keys then some (Lru.init a.max_cached_keys) else none;
}))

abbrev pub same_name : Option String → Option String → Bool
same_name none none = true
same_name (some a) (some b) = str_eq a b
same_name _ _ = false

abbrev pub request_of : PyJwkClient → Request
request_of client = record {
  url = client.uri;
  headers = client.headers;
  timeout = client.timeout;
  ssl_context = client.ssl_context;
}
