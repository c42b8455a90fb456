-- ===== src/Jwks/Client/Lookup.antt =====
-- jwt/jwks_client.py: `get_signing_keys`, `get_signing_key`, `get_signing_key_from_jwt` and `match_kid`.
use mathlib.Core.Option
use refactoring_pyjwt.Prelude.{
  String, Bool, true, false, ◌&&◌, ◌||◌, Option, none, some, List, [], ◌∷◌, if◌then◌else◌,
}
use refactoring_pyjwt.Prelude.Int.{ℤ}
use refactoring_pyjwt.Exceptions.{Result, ok, raise, py_jwk_client_error}
use refactoring_pyjwt.Values.{Value, str, get, truthy, equals_str}
use refactoring_pyjwt.Utils.Base64.{StrOrBytes}
use refactoring_pyjwt.Algorithms.Keys.{Env}
use refactoring_pyjwt.Jwk.{PyJwk, key_id, public_key_use}
use refactoring_pyjwt.Jwk.KeySet
use refactoring_pyjwt.Jwk.KeySet.{same_kid}
use refactoring_pyjwt.Jwt.Options.{PyJwt, Options, no_options}
use refactoring_pyjwt.Jwt.Globals.{no_key_given, no_expectation}
use refactoring_pyjwt.Jwt.Decode
use refactoring_pyjwt.Jwks.Cache as Cache
use refactoring_pyjwt.Jwks.Cache.{JwkSetCache}
use refactoring_pyjwt.Jwks.Calls.{Web, Call, lift, gets, modify, ◌>>=◌}
use refactoring_pyjwt.Jwks.Lru as Lru
use refactoring_pyjwt.Jwks.Lru.{Lru}
use refactoring_pyjwt.Jwks.Client.{PyJwkClient, same_name}
use refactoring_pyjwt.Jwks.Client.Fetch.{get_jwk_set}

module _ (env : Env) (web : Web) where
  -- `key.public_key_use in ["sig", None] and key.key_id`
  abbrev pub for_signing : PyJwk → Bool
  for_signing key =
      (equals_str (public_key_use key) "sig" || Cache.is_none (public_key_use key))
      && truthy (key_id key)

  abbrev pub kept : List PyJwk → List PyJwk
  kept [] = []
  kept (key ∷ keys) = if for_signing key then key ∷ kept keys else kept keys

  abbrev pub need_some : List PyJwk → Result (List PyJwk)
  need_some [] = raise py_jwk_client_error
  need_some (key ∷ keys) = ok (key ∷ keys)

  unfoldable pub get_signing_keys : (refresh : Bool) → Call PyJwkClient (List PyJwk)
  get_signing_keys refresh = do
    jwk_set ← get_jwk_set env web refresh
    lift (need_some (kept jwk_set))

  -- `match_kid`
  abbrev pub match_kid : List PyJwk → (kid : Option String) → Option PyJwk
  match_kid = KeySet.find_by_kid

  abbrev pub or_unknown : Option PyJwk → Result PyJwk
  or_unknown none = raise py_jwk_client_error
  or_unknown (some key) = ok key

  abbrev pub try_again : (kid : Option String) → Option PyJwk → Call PyJwkClient PyJwk
  try_again kid (some key) = lift (ok key)
  try_again kid none = do
    signing_keys ← get_signing_keys true
    lift (or_unknown (match_kid signing_keys kid))

  -- The method of the class.
  unfoldable pub find_signing_key : (kid : Option String) → Call PyJwkClient PyJwk
  find_signing_key kid = do
    signing_keys ← get_signing_keys false
    try_again kid (match_kid signing_keys kid)

  -- The attribute of the object: the method, or the method in its lru_cache.
  abbrev pub cached_key : Option (Lru (Option String) PyJwk) → Option String → Option PyJwk
  cached_key none kid = none
  cached_key (some lru) kid = Lru.lookup same_name kid lru.entries

  abbrev pub use_cached : Option String → PyJwk → PyJwkClient → PyJwkClient
  use_cached kid key client = record client {
    signing_key_cache = Option.map (Lru.hit same_name kid key) client.signing_key_cache;
  }

  abbrev pub store_key : Option String → PyJwk → PyJwkClient → PyJwkClient
  store_key kid key client = record client {
    signing_key_cache = Option.map (Lru.store same_name kid key) client.signing_key_cache;
  }

  abbrev pub through_cache : Option String → Option PyJwk → Call PyJwkClient PyJwk
  through_cache kid (some key) = do done ← modify (use_cached kid key); lift (ok key)
  through_cache kid none = do
    key ← find_signing_key kid
    done ← modify (store_key kid key)
    lift (ok key)

  unfoldable pub get_signing_key : (kid : Option String) → Call PyJwkClient PyJwk
  get_signing_key kid = do
    lru ← gets (λ client. client.signing_key_cache)
    through_cache kid (cached_key lru kid)

  -- The header checks have left a text, or nothing.
  abbrev pub kid_of : Option Value → Option String
  kid_of (some (str kid)) = some kid
  kid_of _ = none

  abbrev pub unverified : Options
  unverified = record no_options { verify_signature = some false }

  -- `jwt` is the object of the module jwt.api_jwt, and `time` the time of day.
  unfoldable pub get_signing_key_from_jwt :
      (jwt : PyJwt) (time : ℤ) (token : StrOrBytes) → Call PyJwkClient PyJwk
  get_signing_key_from_jwt jwt time token = do
    decoded ←
        lift
          (Decode.decode_complete env jwt time token no_key_given none (some unverified) none none
            no_expectation []).0
    get_signing_key (kid_of (get "kid" decoded.header))
