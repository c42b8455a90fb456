-- ===== src/Jwt/Globals.antt =====
-- jwt/api_jws.py and jwt/api_jwt.py: the objects of the modules, as they are made, and the default
-- arguments of their functions.
use refactoring_pyjwt.Prelude.{none}
use refactoring_pyjwt.Prelude.Int.{pos}
use refactoring_pyjwt.Algorithms.Keys.{Env, text}
use refactoring_pyjwt.Jws.State
use refactoring_pyjwt.Jws.State.{PyJws}
use refactoring_pyjwt.Jws.Keys.{Key, object}
use refactoring_pyjwt.Jwt.Options
use refactoring_pyjwt.Jwt.Options.{PyJwt}
use refactoring_pyjwt.Jwt.Claims.{Expected, seconds}

abbrev pub jws_global : Env → PyJws
jws_global env = State.init env none none

-- The two modules share one PyJWS.
abbrev pub jwt_global : Env → PyJwt
jwt_global env = record (Options.init env none) { jws = jws_global env }

-- `key=""`
abbrev pub no_key_given : Key
no_key_given = object (text "")

-- `audience=None, issuer=None, subject=None, leeway=0`
abbrev pub no_expectation : Expected
no_expectation = record { audience = none; issuer = none; subject = none; leeway = seconds (pos 0) }
