-- ===== src/Jws/Headers.antt =====
-- jwt/api_jws.py: `_validate_headers`, `_validate_kid` and `_validate_crit`.
pub mod Laws
use refactoring_pyjwt.Prelude.{
  String, Bool, true, false, not, ◌||◌, Option, none, some, List, [], ◌∷◌, is_empty, elem,
}
use refactoring_pyjwt.Exceptions.{Result, ok, raise, raise_if, invalid_token_error, ◌>>=◌, ◌>>◌}
use refactoring_pyjwt.Values.{Value, str, list, elems, Dict, get, has, is_str}

-- `_supported_crit`
abbrev pub supported_crit : List String
supported_crit = "b64" ∷ []

abbrev pub check_kid : Option Value → Result (Unit {0})
check_kid none = ok tt
check_kid (some kid) = raise_if (not (is_str kid)) invalid_token_error

check_extension : Dict → Value → Result (Unit {0})
check_extension headers (str ext) = do
  raise_if (not (elem ext supported_crit)) invalid_token_error
  raise_if (not (has ext headers)) invalid_token_error
check_extension headers _ = raise invalid_token_error

check_extensions : Dict → List Value → Result (Unit {0})
check_extensions headers [] = ok tt
check_extensions headers (ext ∷ crit) = do
  check_extension headers ext
  check_extensions headers crit

validate_crit : Dict → Value → Result (Unit {0})
validate_crit headers (list crit) = do
  raise_if (is_empty (elems crit)) invalid_token_error
  check_extensions headers (elems crit)
validate_crit headers _ = raise invalid_token_error

abbrev check_crit : Bool → Dict → Option Value → Result (Unit {0})
check_crit true headers crit = ok tt
check_crit false headers none = ok tt
check_crit false headers (some crit) = validate_crit headers crit

unfoldable pub validate_headers : (encoding : Bool) → (headers : Dict) → Result (Unit {0})
unfolding validate_crit check_extensions check_extension
validate_headers encoding headers = do
  check_kid (get "kid" headers)
  check_crit encoding headers (get "crit" headers)
