-- ===== src/Algorithms/NoneAlgorithm.antt =====
-- jwt/algorithms/algorithms_none.py: the class NoneAlgorithm.
use refactoring_pyjwt.Prelude.{Bool, false, [], Bytes, str_eq, if◌then◌else◌}
use refactoring_pyjwt.Exceptions.{Result, ok, raise, invalid_key_error, not_implemented_error}
use refactoring_pyjwt.Values.{Value}
use refactoring_pyjwt.Algorithms.Keys.{KeyObject, no_key, text}

unfoldable pub prepare_key : KeyObject → Result KeyObject
prepare_key no_key = ok no_key
prepare_key (text s) = if str_eq s "" then ok no_key else raise invalid_key_error
prepare_key _ = raise invalid_key_error

unfoldable pub sign : (msg : Bytes) → Bytes
sign msg = []

unfoldable pub verify : (msg sig : Bytes) → Bool
verify msg sig = false

unfoldable pub to_jwk : KeyObject → (as_dict : Bool) → Result Value
to_jwk key_obj as_dict = raise not_implemented_error

unfoldable pub from_jwk : Value → Result KeyObject
from_jwk jwk = raise not_implemented_error
