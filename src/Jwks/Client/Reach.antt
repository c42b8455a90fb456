-- ===== src/Jwks/Client/Reach.antt =====
-- The states that a client comes to: its methods, called one after the other in any order.
use refactoring_pyjwt.Prelude.{Bool, String, Option, ◌≡◌}
use refactoring_pyjwt.Prelude.Int.{ℤ}
use refactoring_pyjwt.Exceptions.{ok}
use refactoring_pyjwt.Utils.Base64.{StrOrBytes}
use refactoring_pyjwt.Algorithms.Keys.{Env}
use refactoring_pyjwt.Jwt.Options.{PyJwt}
use refactoring_pyjwt.Jwks.Calls.{Web, World}
use refactoring_pyjwt.Jwks.Client.{PyJwkClient, Arguments, init}
use refactoring_pyjwt.Jwks.Client.Fetch.{fetch_data, get_jwk_set}
use refactoring_pyjwt.Jwks.Client.Lookup.{
  get_signing_keys, get_signing_key, get_signing_key_from_jwt,
}

-- A call of a method, with its arguments.
pub data Operation : Type 0 where
  call_fetch_data : Operation
  call_get_jwk_set : (refresh : Bool) → Operation
  call_get_signing_keys : (refresh : Bool) → Operation
  call_get_signing_key : (kid : Option String) → Operation
  call_get_signing_key_from_jwt : (jwt : PyJwt) (time : ℤ) (token : StrOrBytes) → Operation

abbrev pub fresh : PyJwkClient → World PyJwkClient
fresh client = record { object = client; requests = 0; readings = 0 }

module _ (env : Env) (web : Web) where
  -- The world after a call, whether it returns or raises.
  abbrev pub run : Operation → World PyJwkClient → World PyJwkClient
  run call_fetch_data w = (fetch_data env web w).1
  run (call_get_jwk_set refresh) w = (get_jwk_set env web refresh w).1
  run (call_get_signing_keys refresh) w = (get_signing_keys env web refresh w).1
  run (call_get_signing_key kid) w = (get_signing_key env web kid w).1
  run (call_get_signing_key_from_jwt jwt time token) w =
      (get_signing_key_from_jwt env web jwt time token w).1

  pub data Reached : World PyJwkClient → Type 0 where
    made : (a : Arguments) (client : PyJwkClient) → init a ≡ ok client → Reached (fresh client)
    called : (op : Operation) (w : World PyJwkClient) → Reached w → Reached (run op w)

  module _ {κ} (P : World PyJwkClient → Type κ) where
    -- A property of every new client that each method keeps holds of every client.
    pub invariant :
        ((a : Arguments) (client : PyJwkClient) → init a ≡ ok client → P (fresh client))
        → ((op : Operation) (w : World PyJwkClient) → P w → P (run op w))
        → (w : World PyJwkClient) → Reached w
        → P w
    invariant new keeps _ (made a client h) = new a client h
    invariant new keeps _ (called op w r) = keeps op w (invariant new keeps w r)
