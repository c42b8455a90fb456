-- ===== src/Utils/Signatures.antt =====
-- jwt/utils.py: ECDSA signatures between DER and the raw form of JWS. The DER codec is that of the
-- cryptography package, so it is a parameter, and a curve enters by its `key_size`.
pub mod RoundTrip
use refactoring_pyjwt.Prelude.{ℕ, ◌+◌, ◌*◌, ◌/◌, ◌++◌, Bytes, ◌==◌, not, length, take, drop}
use refactoring_pyjwt.Exceptions.{Result, ok, value_error, raise_if, ◌>>=◌, ◌>>◌}
use refactoring_pyjwt.Utils.Integers.{number_to_bytes, bytes_to_number}

-- encode_dss_signature and decode_dss_signature
pub record DssCodec : Type 0 where
  pub encode_dss_signature : ℕ → ℕ → Bytes
  pub decode_dss_signature : Bytes → Result (ℕ × ℕ)

module _ (codec : DssCodec) where
  unfoldable pub der_to_raw_signature : (der_sig : Bytes) (key_size : ℕ) → Result Bytes
  der_to_raw_signature der_sig num_bits = do
    let num_bytes = (num_bits + 7) / 8
    (r, s) ← codec.decode_dss_signature der_sig
    r_bytes ← number_to_bytes r num_bytes
    s_bytes ← number_to_bytes s num_bytes
    ok (r_bytes ++ s_bytes)

  unfoldable pub raw_to_der_signature : (raw_sig : Bytes) (key_size : ℕ) → Result Bytes
  raw_to_der_signature raw_sig num_bits = do
    let num_bytes = (num_bits + 7) / 8
    raise_if (not (length raw_sig == 2 * num_bytes)) value_error
    r ← bytes_to_number (take num_bytes raw_sig)
    s ← bytes_to_number (drop num_bytes raw_sig)
    ok (codec.encode_dss_signature r s)
