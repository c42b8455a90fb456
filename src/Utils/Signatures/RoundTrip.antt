-- ===== src/Utils/Signatures/RoundTrip.antt =====
-- A raw signature is unchanged by a passage through DER.
use mathlib.Core.Path.{subst}
use refactoring_pyjwt.Prelude.{
  ℕ, ◌+◌, ◌*◌, ◌/◌, ◌<◌, Bytes, ◌==◌, length, take, drop, length-take, length-drop,
  take-append-drop, All-take, All-drop, ==_iff, ◌≡◌, ◌≢◌, arith, All, IsByte, true,
}
use refactoring_pyjwt.Exceptions.{ok, raise, value_error}
use refactoring_pyjwt.Utils.Integers.{number_to_bytes}
use refactoring_pyjwt.Utils.Integers.FixedWidth.{number_to_bytes-bytes_to_number}
use refactoring_pyjwt.Utils.Signatures.{DssCodec, der_to_raw_signature, raw_to_der_signature}

-- A raw signature of the curve's length passes through DER unchanged, if the codec decodes what it
-- encoded.
pub der_to_raw_signature-raw_to_der_signature :
    (codec : DssCodec) (raw : Bytes) (key_size : ℕ)
    → 0 < key_size
    → All IsByte raw
    → length raw ≡ 2 * ((key_size + 7) / 8)
    → ((r s : ℕ) → codec.decode_dss_signature (codec.encode_dss_signature r s) ≡ ok (r, s))
    → (der : Bytes) × (raw_to_der_signature codec raw key_size ≡ ok der)
      × (der_to_raw_signature codec der key_size ≡ ok raw)
unfolding der_to_raw_signature raw_to_der_signature
der_to_raw_signature-raw_to_der_signature codec raw key_size h b len law =
    let k : ℕ = (key_size + 7) / 8 in
    let front : length (take k raw) ≡ k = length-take k raw (omega arith) in
    let back : length (drop k raw) ≡ k = omega (arith, length-drop {0} k raw) in
    let (r, r_read, r_written) =
      number_to_bytes-bytes_to_number (take k raw) (All-take IsByte k raw b) (omega arith) in
    let (s, s_read, s_written) =
      number_to_bytes-bytes_to_number (drop k raw) (All-drop IsByte k raw b) (omega arith) in
    let even : (length raw == 2 * k) ≡ true = (==_iff _ _).1 len in
    (
      codec.encode_dss_signature r s,
      rw (even, r_read, s_read),
      rw (
        law r s,
        subst (λ j. number_to_bytes r j ≡ ok (take k raw)) front r_written,
        subst (λ j. number_to_bytes s j ≡ ok (drop k raw)) back s_written,
        take-append-drop k raw,
      ),
    )

-- Any other length is a ValueError, whatever the codec does.
pub raw_to_der_signature_length :
    (codec : DssCodec) (raw : Bytes) (key_size : ℕ)
    → length raw ≢ 2 * ((key_size + 7) / 8)
    → raw_to_der_signature codec raw key_size ≡ raise value_error
unfolding raw_to_der_signature
raw_to_der_signature_length codec raw key_size h = ground arith
