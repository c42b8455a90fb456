-- ===== src/Jws/RoundTrip/Hmac.antt =====
-- HMAC keys and signatures in PyJWS.
use refactoring_pyjwt.Prelude.{
  String, false, ◌||◌, none, some, Bytes, All, IsByte, bytes_eq_refl, ◌≡◌, refl,
}
use refactoring_pyjwt.Exceptions.{ok}
use refactoring_pyjwt.Exceptions as Exceptions
use refactoring_pyjwt.Values.{get}
use refactoring_pyjwt.Utils.Base64.{force_bytes}
use refactoring_pyjwt.Utils.KeyFormats.{is_pem_format, is_ssh_key}
use refactoring_pyjwt.Algorithms.Keys.{Env, Hash, hmac_algorithm, raw}
use refactoring_pyjwt.Algorithms.Registry
use refactoring_pyjwt.Algorithms.Hmac
use refactoring_pyjwt.Jws.State.{PyJws}
use refactoring_pyjwt.Jws.Keys.{prepare_signing_key}
use refactoring_pyjwt.Jws.RoundTrip.{Signs}

module _ (env : Env) (jws : PyJws) (name : String) (hash : Hash) (key input : Bytes) where
  prepare_key_plain :
      (is_pem_format key || is_ssh_key key) ≡ false → Hmac.prepare_key (raw key) ≡ ok (raw key)
  unfolding Hmac.prepare_key force_bytes
  prepare_key_plain plain = rw plain

  -- An HMAC algorithm signs with every key that is long enough and looks like no PEM or SSH key,
  -- and verifies what it has signed, if the digest is made of bytes.
  pub hmac_algorithm-Signs :
      get name jws.algorithms ≡ some (hmac_algorithm hash)
      → (is_pem_format key || is_ssh_key key) ≡ false
      → Hmac.check_key_length hash key ≡ none
      → All IsByte (env.hmac_digest hash key input)
      → Signs env jws name (raw key) input (env.hmac_digest hash key input)
  unfolding prepare_signing_key Registry.prepare_key Registry.sign Registry.verify Hmac.sign
      Hmac.verify Registry.check_key_length
  hmac_algorithm-Signs found plain long bytes = record {
    algorithm = hmac_algorithm hash;
    by_name = found;
    prepared = raw key;
    usable = rw (prepare_key_plain plain, Exceptions.◌>>=◌, long);
    signs = refl;
    verifies = rw (bytes_eq_refl (env.hmac_digest hash key input));
    is_bytes = bytes;
  }
