-- ===== src/Algorithms/Registry/Families.antt =====
-- Which keys the algorithms let through.
use refactoring_pyjwt.Prelude.{false, ◌||◌, Bytes, str_eq, ◌≡◌, inl, inr, refl, sym}
use refactoring_pyjwt.Exceptions.{
  ok, raise_if, raise_if_lem, >>=-eq-ok, ok-injective, invalid_key_error,
}
use refactoring_pyjwt.Exceptions.Inversion.{if-eq-ok}
use refactoring_pyjwt.Utils.Base64.{force_bytes}
use refactoring_pyjwt.Utils.KeyFormats.{is_pem_format, is_ssh_key}
use refactoring_pyjwt.Algorithms.Keys.{
  Env, Algorithm, none_algorithm, hmac_algorithm, rsa_algorithm, rsa_pss_algorithm, ec_algorithm,
  okp_algorithm, custom_algorithm, KeyObject, no_key, text, raw, str_or_bytes,
}
use refactoring_pyjwt.Algorithms.Base.{is_rsa_key, is_okp_key}
use refactoring_pyjwt.Algorithms.Base.Family.{IsKeyOf}
use refactoring_pyjwt.Algorithms.Hmac
use refactoring_pyjwt.Algorithms.NoneAlgorithm
use refactoring_pyjwt.Algorithms.Rsa.Family as Rsa
use refactoring_pyjwt.Algorithms.Ec.Family as Ec
use refactoring_pyjwt.Algorithms.Ec.Family.{IsEcKey}
use refactoring_pyjwt.Algorithms.Okp.Family as Okp
use refactoring_pyjwt.Algorithms.Registry.{prepare_key}

-- A secret: bytes that are no PEM and no SSH key.
abbrev pub IsSecret : KeyObject → Type 0
IsSecret key = (b : Bytes) × (key ≡ raw b) × ((is_pem_format b || is_ssh_key b) ≡ false)

-- The keys of the algorithm's own family.
abbrev pub IsKeyFor : Algorithm → KeyObject → Type 0
IsKeyFor none_algorithm key = key ≡ no_key
IsKeyFor (hmac_algorithm h) key = IsSecret key
IsKeyFor (rsa_algorithm h) key = IsKeyOf is_rsa_key key
IsKeyFor (rsa_pss_algorithm h) key = IsKeyOf is_rsa_key key
IsKeyFor (ec_algorithm h expected) key = IsEcKey expected key
IsKeyFor okp_algorithm key = IsKeyOf is_okp_key key
IsKeyFor (custom_algorithm a) key = Unit

none_key : (key k : KeyObject) → NoneAlgorithm.prepare_key key ≡ ok k → k ≡ no_key
unfolding NoneAlgorithm.prepare_key
none_key no_key k h = sym (ok-injective h)
none_key (text s) k h = elim (if-eq-ok (str_eq s "") _ _ h) [
  | inl e ↦ sym (ok-injective e)
  | inr e ↦ cc
]
none_key _ k h = cc

hmac_key : (key k : KeyObject) → Hmac.prepare_key key ≡ ok k → IsSecret k
unfolding Hmac.prepare_key
hmac_key key k h =
    let (b, h1, h2) = >>=-eq-ok (force_bytes (str_or_bytes key)) _ h in
    let (done, h3, h4) =
      >>=-eq-ok (raise_if (is_pem_format b || is_ssh_key b) invalid_key_error) _ h2 in
    (
      b,
      sym (ok-injective h4),
      (raise_if_lem (is_pem_format b || is_ssh_key b) invalid_key_error).0 h3,
    )

-- Whatever a caller passes as a key, as an object, a text or bytes: what `prepare_key` of a default
-- algorithm returns is a key of that algorithm's own family. HMAC gets bytes that are no PEM and no SSH
-- key, RSA and RSA-PSS an RSA key, EC an EC key on the expected curve where there is one, OKP an Ed25519
-- or Ed448 key, and "none" no key.
pub prepare_key-IsKeyFor :
    (env : Env) (alg : Algorithm) (key k : KeyObject)
    → prepare_key env alg key ≡ ok k
    → IsKeyFor alg k
unfolding prepare_key
prepare_key-IsKeyFor env none_algorithm key k h = none_key key k h
prepare_key-IsKeyFor env (hmac_algorithm a) key k h = hmac_key key k h
prepare_key-IsKeyFor env (rsa_algorithm a) key k h =
    Rsa.prepare_key-IsKeyOf env (rsa_algorithm a) key k refl h
prepare_key-IsKeyFor env (rsa_pss_algorithm a) key k h =
    Rsa.prepare_key-IsKeyOf env (rsa_pss_algorithm a) key k refl h
prepare_key-IsKeyFor env (ec_algorithm a c) key k h =
    Ec.prepare_key-IsEcKey env (ec_algorithm a c) c k refl key h
prepare_key-IsKeyFor env okp_algorithm key k h =
    Okp.prepare_key-IsKeyOf env okp_algorithm key k refl h
prepare_key-IsKeyFor env (custom_algorithm a) key k h = tt
