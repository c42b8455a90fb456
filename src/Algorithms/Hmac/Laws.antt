-- ===== src/Algorithms/Hmac/Laws.antt =====
-- Laws of HMACAlgorithm.
use refactoring_pyjwt.Prelude.{
  true, [], ◌∷◌, Bytes, All, IsByte, bytes_eq_refl, bytes_eq_sound, ◌≡◌, ◌↔◌,
}
use refactoring_pyjwt.Exceptions.{ok, catching}
use refactoring_pyjwt.Values.{Value, str, dict, fields, get}
use refactoring_pyjwt.Utils.Base64.{force_bytes}
use refactoring_pyjwt.Utils.Base64.Texts.{base64url_text}
use refactoring_pyjwt.Algorithms.Keys.{Env, Hash, raw}
use refactoring_pyjwt.Algorithms.Jwk.{parse_jwk_json, serialize_jwk}
use refactoring_pyjwt.Algorithms.Hmac.{to_jwk, from_jwk, sign, verify}

-- A signature is accepted exactly if it is the HMAC of the message.
pub verify_lem :
    (env : Env) (hash : Hash) (msg key sig : Bytes)
    → (verify env hash msg key sig ≡ true) ↔ (sig ≡ sign env hash msg key)
unfolding verify
verify_lem env hash msg key sig = (
  λ h. bytes_eq_sound sig (sign env hash msg key) h,
  λ e. rw e (bytes_eq_refl (sign env hash msg key)),
)

-- An HMAC secret goes through its JWK, as a dict, unchanged.
pub from_jwk-to_jwk :
    (env : Env) (secret : Bytes)
    → All IsByte secret
    → (jwk : Value) × (to_jwk env (raw secret) true ≡ ok jwk) × (from_jwk env jwk ≡ ok (raw secret))
unfolding to_jwk from_jwk serialize_jwk parse_jwk_json force_bytes catching get
from_jwk-to_jwk env secret h =
    let (s, e, f, g) = base64url_text secret h in
    (dict (fields (("k", str s) ∷ ("kty", str "oct") ∷ [])), rw e, rw g)
