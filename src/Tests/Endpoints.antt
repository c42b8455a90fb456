-- ===== src/Tests/Endpoints.antt =====
-- A client of an endpoint that answers with one key set, and from then on with another.
use refactoring_pyjwt.Prelude.{
  ℕ, ◌+◌, ◌≤◌, String, true, none, some, [], ◌∷◌, Bytes, ◌==◌, ◌≡◌, arith, refl, if◌then◌else◌,
}
use refactoring_pyjwt.Prelude.Int.{pos, ◌≤ℤ◌, ◌<ℤ◌, ◌+ℤ◌}
use refactoring_pyjwt.Exceptions.{
  Result, ok, err, raised, raise, py_jwk_client_error, json_decode_error, url_error, is_subclass,
  catching,
}
use refactoring_pyjwt.Values.{
  Value, null, str, list, cons, nil, dict, field, end, get, truthy, find,
}
use refactoring_pyjwt.Text.{encode_utf8}
use refactoring_pyjwt.Utils.Base64.{StrOrBytes, base64url_decode}
use refactoring_pyjwt.Algorithms.Jwk.{parse_jwk_json}
use refactoring_pyjwt.Algorithms.Keys.{Env, sha256, hmac_algorithm, raw}
use refactoring_pyjwt.Algorithms.Registry
use refactoring_pyjwt.Algorithms.Hmac
use refactoring_pyjwt.Jwk.{PyJwk}
use refactoring_pyjwt.Jwk
use refactoring_pyjwt.Jwk.KeySet
use refactoring_pyjwt.Jwks.Cache as Cache
use refactoring_pyjwt.Jwks.Lru as Lru
use refactoring_pyjwt.Jwks.Lru.{Lru}
use refactoring_pyjwt.Jwks.Calls.{Web, Request, World}
use refactoring_pyjwt.Jwks.Client.{PyJwkClient, Arguments, init, request_of}
use refactoring_pyjwt.Jwks.Client.Fetch.{fetch_data, get_jwk_set}
use refactoring_pyjwt.Jwks.Client.Lookup.{get_signing_keys, find_signing_key, get_signing_key}
use refactoring_pyjwt.Jwks.Client.Reach.{fresh, run, Reached, made, called, call_get_signing_key}
use refactoring_pyjwt.Jwks.Cache.Expiry.{get-put}
use refactoring_pyjwt.Jwks.Client.Served.{IsHonest, jwk_set_cache-IsHonest}
use refactoring_pyjwt.Jwks.Client.Recent as Recent
use refactoring_pyjwt.Jwks.Client.Recent.{IsRecent, signing_key_cache-IsRecent}
use refactoring_pyjwt.Jwks.Client.Reuse.{get_signing_key_again}
use refactoring_pyjwt.Jwks.Client.Requests.{failed_as, after_failure, fetch_data_raises}
use refactoring_pyjwt.Jwks.Client.Costs.{get_signing_key-Costs}
use refactoring_pyjwt.Jwks.Client.Agreement.{key_for, find_signing_key_lem}
use refactoring_pyjwt.Jwks.Client.Rotation.{get_signing_key_rotated, get_signing_key_stuck}
use refactoring_pyjwt.Jwks.Client.Genuine.{IsGenuine}
use refactoring_pyjwt.Jwks.Client.Genuine.Cached.{get_signing_key-IsGenuine}
use refactoring_pyjwt.Tests as Tests

abbrev jwk_named : String → Value
jwk_named kid = dict (
    field "kty" (str "oct")
      (field "kid" (str kid) (field "alg" (str "HS256") (field "k" (str "") end))))

abbrev set_of : String → Value
set_of kid = dict (field "keys" (list (cons (jwk_named kid) nil)) end)

-- The documents, by number.
abbrev doc_of : ℕ → Result Value
doc_of n =
    if n == 0
    then ok (set_of "a")
    else if n == 1
    then ok (set_of "b")
    else if n == 2
    then ok (str "moved")
    else raise json_decode_error

abbrev loads_set : StrOrBytes → Result Value
loads_set (StrOrBytes.bytes (n ∷ [])) = doc_of n
loads_set _ = raise json_decode_error

abbrev endpoint_env : Env
endpoint_env = record Tests.env { json_loads = loads_set }

abbrev answer_to : Request → ℕ → Result Bytes
answer_to asked number = if number == 0 then ok (0 ∷ []) else ok (1 ∷ [])

abbrev web : Web
web = record { respond = answer_to; monotonic = λ n. pos n }

abbrev arguments : Arguments
arguments = record {
  uri = "https://a/jwks";
  cache_keys = true;
  max_cached_keys = 2;
  cache_jwk_set = true;
  lifespan = pos 300000000;
  headers = none;
  timeout = pos 30000000;
  ssl_context = none;
}

abbrev key_named : String → PyJwk
key_named kid = record {
  jwk_data = ("kty", str "oct") ∷ ("kid", str kid) ∷ ("alg", str "HS256") ∷ ("k", str "") ∷ [];
  algorithm_name = "HS256";
  algorithm = hmac_algorithm sha256;
  key = raw [];
}

abbrev client : PyJwkClient
client = record {
  uri = "https://a/jwks";
  headers = [];
  timeout = pos 30000000;
  ssl_context = none;
  jwk_set_cache = some (Cache.init (pos 300000000));
  signing_key_cache = some (Lru.init 2);
}

abbrev after_b : World PyJwkClient
after_b = record {
  object = record client {
    jwk_set_cache =
        some (record { jwk_set = set_of "b"; timestamp = pos 1; lifespan = pos 300000000 });
    signing_key_cache = some (record { maxsize = 2; entries = (some "b", key_named "b") ∷ [] });
  };
  requests = 2;
  readings = 2;
}

made_client : init arguments ≡ ok client
unfolding init
made_client = refl

b_found : get_signing_key endpoint_env web (some "b") (fresh client) ≡ (ok (key_named "b"), after_b)
unfolding get_signing_key find_signing_key get_signing_keys get_jwk_set fetch_data Cache.put
    Cache.get Cache.is_expired KeySet.from_dict KeySet.make KeySet.collect KeySet.attempt
    is_subclass catching get truthy find Jwk.init Jwk.choose_algorithm Registry.from_jwk
    Registry.get_default_algorithms Hmac.from_jwk KeySet.find_by_kid Lru.lookup Lru.store
    parse_jwk_json base64url_decode encode_utf8
b_found = refl

abbrev start : World PyJwkClient
start = fresh client

start-Reached : Reached endpoint_env web start
start-Reached = made arguments client made_client

get_signing_key-IsGenuine_example :
    IsGenuine endpoint_env web (request_of client) (some "b") (key_named "b")
get_signing_key-IsGenuine_example =
    get_signing_key-IsGenuine endpoint_env web start after_b (some "b") (key_named "b")
      start-Reached b_found

jwk_set_cache-IsHonest_example :
    IsHonest endpoint_env web (run endpoint_env web (call_get_signing_key (some "b")) start)
jwk_set_cache-IsHonest_example =
    jwk_set_cache-IsHonest endpoint_env web
      (run endpoint_env web (call_get_signing_key (some "b")) start)
      (called (call_get_signing_key (some "b")) start start-Reached)

find_signing_key_lem_example :
    (find_signing_key endpoint_env web (some "b") start).0
    ≡ key_for endpoint_env web start (some "b")
find_signing_key_lem_example = find_signing_key_lem endpoint_env web start (some "b")

get_signing_key_rotated_example :
    (get_signing_key endpoint_env web (some "b") start).0 ≡ ok (key_named "b")
unfolding Lru.lookup Cache.get catching KeySet.from_dict KeySet.make truthy get KeySet.collect
    KeySet.attempt Jwk.init find Jwk.choose_algorithm KeySet.find_by_kid Cache.is_expired
    Registry.get_default_algorithms Registry.from_jwk Hmac.from_jwk parse_jwk_json base64url_decode
    encode_utf8 is_subclass
get_signing_key_rotated_example =
    get_signing_key_rotated endpoint_env web start (some "b") (set_of "a") (set_of "b")
      (key_named "a" ∷ []) (key_named "b" ∷ []) (key_named "b") refl refl refl refl refl refl refl

signing_key_cache-IsRecent_example :
    IsRecent endpoint_env web 2 ((some "b", key_named "b") ∷ []) after_b
signing_key_cache-IsRecent_example =
    signing_key_cache-IsRecent endpoint_env web arguments after_b ((some "b", key_named "b") ∷ [])
      refl
      (Recent.looked_up (some "b") (key_named "b") start after_b [] (Recent.made client made_client)
        b_found)

get_signing_key-Costs_example :
    (get_signing_key endpoint_env web (some "b") start).1.requests ≤ 0 + 2
get_signing_key-Costs_example = get_signing_key-Costs endpoint_env web (some "b") start

get_signing_key_again_example :
    get_signing_key endpoint_env web (some "b") after_b ≡ (ok (key_named "b"), after_b)
get_signing_key_again_example =
    get_signing_key_again endpoint_env web (some "b") (key_named "b") start after_b (Lru.init 2)
      refl (omega arith) b_found

abbrev broken : Web
broken = record { respond = λ asked number. raise url_error; monotonic = λ n. pos n }

fetch_data_raises_example : fetch_data endpoint_env broken after_b ≡ (
  err (failed_as endpoint_env broken (raised url_error)),
  after_failure endpoint_env broken after_b,
)
fetch_data_raises_example = fetch_data_raises endpoint_env broken after_b (raised url_error) refl

-- The endpoint has answered with a text.
abbrev moved : World PyJwkClient
moved = record {
  object = record client {
    jwk_set_cache =
        some (record { jwk_set = str "moved"; timestamp = pos 0; lifespan = pos 300000000 });
  };
  requests = 1;
  readings = 1;
}

get_signing_key_stuck_example :
    ((get_signing_key endpoint_env web (some "a") moved).0 ≡ raise py_jwk_client_error)
    × ((get_signing_key endpoint_env web (some "a") moved).1.requests ≡ 1)
unfolding Lru.lookup Cache.get Cache.is_expired
get_signing_key_stuck_example =
    get_signing_key_stuck endpoint_env web moved (some "a") (str "moved") refl refl refl refl

get-put_example :
    (pos 9 ≤ℤ pos 5 +ℤ pos 300
      → Cache.get (pos 9) (Cache.put (set_of "a") (pos 5) (Cache.init (pos 300))) ≡ set_of "a")
    × (pos 5 +ℤ pos 300 <ℤ pos 9
        → Cache.get (pos 9) (Cache.put (set_of "a") (pos 5) (Cache.init (pos 300))) ≡ null)
get-put_example = get-put (set_of "a") (pos 5) (pos 9) (Cache.init (pos 300)) refl (omega arith)
