-- ===== src/Algorithms/Rsa/RoundTrip.antt =====
-- RSA keys in JSON form.
use refactoring_pyjwt.Prelude.{true, [], ◌∷◌, ◌≡◌}
use refactoring_pyjwt.Exceptions.{ok, catching}
use refactoring_pyjwt.Values.{Value, str, dict, fields, get}
use refactoring_pyjwt.Algorithms.Keys.{
  Env, RsaPublicNumbers, RsaPrivateNumbers, rsa_public, rsa_private, crypto,
}
use refactoring_pyjwt.Algorithms.Jwk.{parse_jwk_json, serialize_jwk, rsa_private_numbers_from_jwk}
use refactoring_pyjwt.Algorithms.Jwk.Texts.{own_text_lem}
use refactoring_pyjwt.Algorithms.Rsa.{
  to_jwk, from_jwk, public_dict, private_dict, key_ops, public_from, private_from,
}

pub from_jwk-to_jwk_public :
    (env : Env) (k : RsaPublicNumbers)
    → env.cryptography.rsa_public_key k ≡ ok (rsa_public k)
    → (jwk : Value) × (to_jwk env (crypto (rsa_public k)) true ≡ ok jwk)
      × (from_jwk env jwk ≡ ok (crypto (rsa_public k)))
unfolding to_jwk from_jwk public_dict private_dict public_from private_from serialize_jwk
    parse_jwk_json catching get
from_jwk-to_jwk_public env k accepted =
    let (n, n_made, n_read) = own_text_lem k.n in
    let (e, e_made, e_read) = own_text_lem k.e in
    (
      dict (
          fields (
            ("kty", str "RSA") ∷ ("key_ops", key_ops "verify") ∷ ("n", str n) ∷ ("e", str e) ∷ [])),
      rw (n_made, e_made),
      rw (n_read, e_read, accepted),
    )

pub from_jwk-to_jwk_private :
    (env : Env) (k : RsaPrivateNumbers)
    → env.has_crypto ≡ true
    → env.cryptography.rsa_private_key k ≡ ok (rsa_private k)
    → (jwk : Value) × (to_jwk env (crypto (rsa_private k)) true ≡ ok jwk)
      × (from_jwk env jwk ≡ ok (crypto (rsa_private k)))
unfolding to_jwk from_jwk public_dict private_dict public_from private_from serialize_jwk
    parse_jwk_json catching get rsa_private_numbers_from_jwk
from_jwk-to_jwk_private env k there accepted =
    let (n, n_made, n_read) = own_text_lem k.public_numbers.n in
    let (e, e_made, e_read) = own_text_lem k.public_numbers.e in
    let (d, d_made, d_read) = own_text_lem k.d in
    let (p, p_made, p_read) = own_text_lem k.p in
    let (q, q_made, q_read) = own_text_lem k.q in
    let (dp, dp_made, dp_read) = own_text_lem k.dmp1 in
    let (dq, dq_made, dq_read) = own_text_lem k.dmq1 in
    let (qi, qi_made, qi_read) = own_text_lem k.iqmp in
    (
      dict (
          fields (
            ("kty", str "RSA")
            ∷ ("key_ops", key_ops "sign")
            ∷ ("n", str n)
            ∷ ("e", str e)
            ∷ ("d", str d)
            ∷ ("p", str p)
            ∷ ("q", str q)
            ∷ ("dp", str dp)
            ∷ ("dq", str dq)
            ∷ ("qi", str qi)
            ∷ [])),
      rw (n_made, e_made, d_made, p_made, q_made, dp_made, dq_made, qi_made),
      rw (there, n_read, e_read, d_read, p_read, q_read, dp_read, dq_read, qi_read, accepted),
    )
