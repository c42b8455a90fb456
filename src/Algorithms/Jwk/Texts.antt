-- ===== src/Algorithms/Jwk/Texts.antt =====
-- Numbers and bytes as the texts of a JWK.
use refactoring_pyjwt.Prelude.{
  ℕ, ◌+◌, ◌/◌, ◌^◌, ◌<◌, String, none, some, [], ◌∷◌, Bytes, All, IsByte, length, lt→ltb, ◌≡◌, refl,
}
use refactoring_pyjwt.Exceptions.{ok}
use refactoring_pyjwt.Values.{str}
use refactoring_pyjwt.Utils.Base64.{base64url_decode, base64url_encode, force_bytes}
use refactoring_pyjwt.Utils.Base64 as Base64
use refactoring_pyjwt.Utils.Base64.Texts.{base64url_text}
use refactoring_pyjwt.Utils.Base64.RoundTrip.{base64url_decode-base64url_encode}
use refactoring_pyjwt.Utils.Integers.{
  be_bytes, bit_length, at_least_one, to_base64url_uint, from_base64url_uint,
}
use refactoring_pyjwt.Utils.Integers.RoundTrip.{
  from_bytes-be_bytes, be_bytes-IsByte, length-be_bytes, byte_length_bound, at_least_one-IsByte,
  from_bytes-at_least_one,
}
use refactoring_pyjwt.Algorithms.Jwk.{uint_text, bytes_text}

at_least_one_long : (b : Bytes) → 0 < length b → at_least_one b ≡ b
at_least_one_long [] h = elim h [ ]
at_least_one_long (x ∷ b) h = refl

-- A number that fits is written as a text of exactly so many bytes.
pub uint_text_lem :
    (n bits : ℕ)
    → 0 < (bits + 7) / 8
    → n < 256 ^ ((bits + 7) / 8)
    → (s : String) × (uint_text n (some bits) ≡ ok (str s))
      × (base64url_decode (Base64.str s) ≡ ok (be_bytes ((bits + 7) / 8) n))
unfolding to_base64url_uint
uint_text_lem n bits long fits =
    let k : ℕ = (bits + 7) / 8 in
    let b : Bytes = be_bytes k n in
    let size : 0 < length b = rw (length-be_bytes k n) long in
    let (s, e, f, g) = base64url_text b (be_bytes-IsByte k n) in
    (s, rw (lt→ltb n (256 ^ k) fits, at_least_one_long b size, e), g)

-- Without a length every number is written, and read back.
pub own_text_lem :
    (n : ℕ)
    → (s : String) × (uint_text n none ≡ ok (str s)) × (from_base64url_uint (Base64.str s) ≡ ok n)
unfolding to_base64url_uint from_base64url_uint force_bytes
own_text_lem n =
    let k : ℕ = (bit_length n + 7) / 8 in
    let b : Bytes = at_least_one (be_bytes k n) in
    let all_bytes : All IsByte b = at_least_one-IsByte (be_bytes k n) (be_bytes-IsByte k n) in
    let (s, e, f, g) = base64url_text b all_bytes in
    (
      s,
      rw (lt→ltb n (256 ^ k) (byte_length_bound n), e),
      rw (
        f,
        base64url_decode-base64url_encode b all_bytes,
        from_bytes-at_least_one (be_bytes k n),
        from_bytes-be_bytes k n (byte_length_bound n),
      ),
    )

pub bytes_text_lem :
    (b : Bytes)
    → All IsByte b
    → (s : String) × (bytes_text b ≡ ok (str s)) × (base64url_decode (Base64.str s) ≡ ok b)
bytes_text_lem b h = let (s, e, f, g) = base64url_text b h in (s, rw e, g)
