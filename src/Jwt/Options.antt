-- ===== src/Jwt/Options.antt =====
-- jwt/api_jwt.py: the options of a PyJWT, its state and `__init__`; jwt/types.py: the option types.
pub mod Laws
use refactoring_pyjwt.Prelude.{
  String, Bool, true, false, not, Option, none, some, List, [], if◌then◌else◌,
}
use refactoring_pyjwt.Algorithms.Keys.{Env}
use refactoring_pyjwt.Jws.State
use refactoring_pyjwt.Jws.State.{PyJws, SigOptions, GivenSigOptions, or_default}

-- `FullOptions`
pub record FullOptions : Type 0 where
  pub verify_signature : Bool
  pub require : List String
  pub strict_aud : Bool
  pub verify_aud : Bool
  pub verify_exp : Bool
  pub verify_iat : Bool
  pub verify_iss : Bool
  pub verify_jti : Bool
  pub verify_nbf : Bool
  pub verify_sub : Bool
  pub enforce_minimum_key_length : Bool

-- `Options`: `none` is a key that is not there.
pub record Options : Type 0 where
  pub verify_signature : Option Bool
  pub require : Option (List String)
  pub strict_aud : Option Bool
  pub verify_aud : Option Bool
  pub verify_exp : Option Bool
  pub verify_iat : Option Bool
  pub verify_iss : Option Bool
  pub verify_jti : Option Bool
  pub verify_nbf : Option Bool
  pub verify_sub : Option Bool
  pub enforce_minimum_key_length : Option Bool

abbrev pub no_options : Options
no_options = record {
  verify_signature = none;
  require = none;
  strict_aud = none;
  verify_aud = none;
  verify_exp = none;
  verify_iat = none;
  verify_iss = none;
  verify_jti = none;
  verify_nbf = none;
  verify_sub = none;
  enforce_minimum_key_length = none;
}

unfoldable pub default_options : FullOptions
default_options = record {
  verify_signature = true;
  require = [];
  strict_aud = false;
  verify_aud = true;
  verify_exp = true;
  verify_iat = true;
  verify_iss = true;
  verify_jti = true;
  verify_nbf = true;
  verify_sub = true;
  enforce_minimum_key_length = false;
}

abbrev list_or : List String → Option (List String) → List String
list_or l none = l
list_or l (some m) = m

-- `{**base, **given}`
unfoldable pub overlay : FullOptions → Options → FullOptions
overlay base given = record {
  verify_signature = or_default base.verify_signature given.verify_signature;
  require = list_or base.require given.require;
  strict_aud = or_default base.strict_aud given.strict_aud;
  verify_aud = or_default base.verify_aud given.verify_aud;
  verify_exp = or_default base.verify_exp given.verify_exp;
  verify_iat = or_default base.verify_iat given.verify_iat;
  verify_iss = or_default base.verify_iss given.verify_iss;
  verify_jti = or_default base.verify_jti given.verify_jti;
  verify_nbf = or_default base.verify_nbf given.verify_nbf;
  verify_sub = or_default base.verify_sub given.verify_sub;
  enforce_minimum_key_length =
      or_default base.enforce_minimum_key_length given.enforce_minimum_key_length;
}

-- `_UNVERIFIED_DEFAULTS`
abbrev pub unverified_defaults : Options
unverified_defaults = record no_options {
  verify_exp = some false;
  verify_nbf = some false;
  verify_iat = some false;
  verify_aud = some false;
  verify_iss = some false;
  verify_sub = some false;
  verify_jti = some false;
}

abbrev pub requested : Option Options → Bool
requested none = true
requested (some given) = or_default true given.verify_signature

-- `_merge_options`, over the options of the object
unfoldable pub merge_options : FullOptions → Option Options → FullOptions
unfolding overlay
merge_options options none = options
merge_options options (some given) =
    if not (or_default true given.verify_signature)
    then overlay (overlay options unverified_defaults) given
    else overlay options given

pub record PyJwt : Type 0 where
  pub options : FullOptions
  pub jws : PyJws

-- `_get_sig_options`
abbrev pub sig_options : FullOptions → GivenSigOptions
sig_options options = record {
  verify_signature = some options.verify_signature;
  enforce_minimum_key_length = some options.enforce_minimum_key_length;
}

-- `PyJWT(options)`
unfoldable pub init : Env → Option Options → PyJwt
unfolding merge_options default_options
init env given =
    let options = merge_options default_options given in
    record { options = options; jws = State.init env none (some (sig_options options)) }
