-- ===== src/Jwt/Options/Laws.antt =====
-- `_merge_options`: which options count.
use refactoring_pyjwt.Prelude.{
  Bool, true, false, Option, some, ◌≡◌, refl, Bool-cases, inl, inr, if◌then◌else◌,
}
use refactoring_pyjwt.Jws.State.{or_default}
use refactoring_pyjwt.Jwt.Options.{
  FullOptions, Options, unverified_defaults, overlay, merge_options,
}

-- The checks of single claims.
pub data Check : Type 0 where
  check_exp check_nbf check_iat check_aud check_iss check_sub check_jti : Check

abbrev pub is_on : Check → FullOptions → Bool
is_on check_exp o = o.verify_exp
is_on check_nbf o = o.verify_nbf
is_on check_iat o = o.verify_iat
is_on check_aud o = o.verify_aud
is_on check_iss o = o.verify_iss
is_on check_sub o = o.verify_sub
is_on check_jti o = o.verify_jti

abbrev pub given_for : Check → Options → Option Bool
given_for check_exp o = o.verify_exp
given_for check_nbf o = o.verify_nbf
given_for check_iat o = o.verify_iat
given_for check_aud o = o.verify_aud
given_for check_iss o = o.verify_iss
given_for check_sub o = o.verify_sub
given_for check_jti o = o.verify_jti

is_on-overlay :
    (check : Check) (base : FullOptions) (given : Options)
    → is_on check (overlay base given) ≡ or_default (is_on check base) (given_for check given)
unfolding overlay
is_on-overlay check_exp base given = refl
is_on-overlay check_nbf base given = refl
is_on-overlay check_iat base given = refl
is_on-overlay check_aud base given = refl
is_on-overlay check_iss base given = refl
is_on-overlay check_sub base given = refl
is_on-overlay check_jti base given = refl

is_on-unverified :
    (check : Check) (base : FullOptions) → is_on check (overlay base unverified_defaults) ≡ false
unfolding overlay
is_on-unverified check_exp base = refl
is_on-unverified check_nbf base = refl
is_on-unverified check_iat base = refl
is_on-unverified check_aud base = refl
is_on-unverified check_iss base = refl
is_on-unverified check_sub base = refl
is_on-unverified check_jti base = refl

-- The check counts as the call says; where it says nothing, it is off if the call turns the
-- verification of the signature off, and else as the object has it.
pub merge_options_lem :
    (options : FullOptions) (given : Options) (check : Check)
    → is_on check (merge_options options (some given))
      ≡ or_default
          (if or_default true given.verify_signature then is_on check options else false)
          (given_for check given)
unfolding merge_options
merge_options_lem options given check = elim (Bool-cases (or_default true given.verify_signature)) [
  | inl on ↦ rw on (is_on-overlay check options given)
  | inr off ↦ rw (
    off,
    is_on-overlay check (overlay options unverified_defaults) given,
    is_on-unverified check options,
  )
]
