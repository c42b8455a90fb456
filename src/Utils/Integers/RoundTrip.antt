-- ===== src/Utils/Integers/RoundTrip.antt =====
-- Numbers written as big-endian bytes and read again.
use native.Mathlib.Nat.{pow-suc, pow-le-pow_right, le_trans}
use refactoring_pyjwt.Prelude.{
  ℕ, zero, suc, ◌+◌, ◌*◌, ◌/◌, ◌%◌, ◌^◌, ◌≤◌, ◌<◌, Option, none, [], ◌∷◌, ◌++◌, Bytes, ltb, length,
  length-append, ◌≡◌, refl, arith, All, All-append, IsByte, ◌∙◌, true, lt→ltb,
}
use refactoring_pyjwt.Prelude.Int.{pos}
use refactoring_pyjwt.Prelude.Powers.{pow_256}
use refactoring_pyjwt.Exceptions.{ok}
use refactoring_pyjwt.Utils.Base64.{bytes, base64url_encode}
use refactoring_pyjwt.Utils.Base64.RoundTrip.{base64url_decode-base64url_encode}
use refactoring_pyjwt.Utils.Integers.{
  bits_from, bit_length, bits_or, be_bytes, from_be, from_bytes, at_least_one, to_base64url_uint,
  from_base64url_uint,
}

from_be-append : (acc : ℕ) (b : Bytes) (x : ℕ) → from_be acc (b ++ x ∷ []) ≡ from_be acc b * 256 + x
unfolding from_be
from_be-append acc [] x = refl
from_be-append acc (y ∷ b) x = from_be-append (acc * 256 + y) b x

below_shift : (k n : ℕ) → n < 256 ^ suc k → n / 256 < 256 ^ k
below_shift k n h = let h' : n < 256 ^ k * 256 = rw (pow-suc 256 k) at h in omega arith

pub from_bytes-be_bytes : (k n : ℕ) → n < 256 ^ k → from_bytes (be_bytes k n) ≡ n
unfolding from_bytes be_bytes
from_bytes-be_bytes zero n h = omega arith
from_bytes-be_bytes (suc k) n h =
    from_be-append 0 (be_bytes k (n / 256)) (n % 256)
    ∙ omega (arith, from_bytes-be_bytes k (n / 256) (below_shift k n h))

pub be_bytes-IsByte : (k n : ℕ) → All IsByte (be_bytes k n)
unfolding be_bytes
be_bytes-IsByte zero n = tt
be_bytes-IsByte (suc k) n =
    All-append IsByte (be_bytes k (n / 256)) _ (be_bytes-IsByte k (n / 256)) (omega arith)

pub length-be_bytes : (k n : ℕ) → length (be_bytes k n) ≡ k
unfolding be_bytes
length-be_bytes zero n = refl
length-be_bytes (suc k) n =
    length-append (be_bytes k (n / 256)) _ ∙ omega (arith, length-be_bytes k (n / 256))

bits_from_bound : (fuel n : ℕ) → n ≤ fuel → n < 2 ^ bits_from fuel n
unfolding bits_from
bits_from_bound zero n h = omega arith
bits_from_bound (suc f) n h =
    ground (arith, bits_from_bound f (n / 2) (omega arith), pow-suc 2 (bits_from f (n / 2)))

pub bit_length_bound : (n : ℕ) → n < 2 ^ bit_length n
unfolding bit_length
bit_length_bound n = bits_from_bound n n (omega arith)

pub byte_length_bound : (n : ℕ) → n < 256 ^ ((bit_length n + 7) / 8)
byte_length_bound n =
    rw (pow_256 ((bit_length n + 7) / 8))
      (le_trans (bit_length_bound n) (pow-le-pow_right {n = 2} (omega arith) (omega arith)))

pub from_bytes-at_least_one : (b : Bytes) → from_bytes (at_least_one b) ≡ from_bytes b
unfolding from_bytes
from_bytes-at_least_one [] = refl
from_bytes-at_least_one (x ∷ b) = refl

pub at_least_one-IsByte : (b : Bytes) → All IsByte b → All IsByte (at_least_one b)
at_least_one-IsByte [] h = omega arith
at_least_one-IsByte (x ∷ b) h = h

-- A number that fits the byte length that is asked for is written, and from_base64url_uint reads
-- it back.
pub from_base64url_uint-to_base64url_uint :
    (n : ℕ) (bits : Option ℕ)
    → n < 256 ^ ((bits_or n bits + 7) / 8)
    → (b : Bytes) × (to_base64url_uint (pos n) bits ≡ ok b) × (from_base64url_uint (bytes b) ≡ ok n)
unfolding to_base64url_uint from_base64url_uint
from_base64url_uint-to_base64url_uint n bits h =
    let k : ℕ = (bits_or n bits + 7) / 8 in
    let small : ltb n (256 ^ k) ≡ true = lt→ltb n (256 ^ k) h in
    let all_bytes = at_least_one-IsByte _ (be_bytes-IsByte k n) in
    (
      base64url_encode (at_least_one (be_bytes k n)),
      rw small,
      rw (
        base64url_decode-base64url_encode _ all_bytes,
        from_bytes-at_least_one (be_bytes k n),
        from_bytes-be_bytes k n h,
      ),
    )

-- With no bit length given every natural number fits.
fits_own_length : (n : ℕ) → n < 256 ^ ((bits_or n none + 7) / 8)
fits_own_length = byte_length_bound
