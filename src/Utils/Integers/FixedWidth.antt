-- ===== src/Utils/Integers/FixedWidth.antt =====
-- Numbers of a fixed width: number_to_bytes and bytes_to_number undo each other.
use mathlib.Core.List.{append_assoc, append-nil}
use native.Mathlib.Nat.{pow-suc, mul-le-mul_right}
use refactoring_pyjwt.Prelude.{
  ℕ, zero, suc, ◌+◌, ◌*◌, ◌/◌, ◌%◌, ◌^◌, ◌<◌, ◌≤◌, ◌++◌, [], ◌∷◌, Bytes, length, ◌≡◌, refl, arith,
  All, IsByte, ◌∙◌, ap, sym,
}
use refactoring_pyjwt.Prelude.Powers.{pow_256}
use refactoring_pyjwt.Exceptions.{ok}
use refactoring_pyjwt.Utils.Integers.{
  bits_from, bit_length, be_bytes, from_be, from_bytes, hex_length, number_to_bytes,
  bytes_to_number,
}

bits_from-le : (fuel k n : ℕ) → n < 2 ^ k → bits_from fuel n ≤ k
unfolding bits_from
bits_from-le zero k n h = omega arith
bits_from-le (suc f) zero n h = ground arith
bits_from-le (suc f) (suc k) n h = ground (arith, bits_from-le f k (n / 2), pow-suc 2 k)

bit_length-le : (k n : ℕ) → n < 2 ^ k → bit_length n ≤ k
unfolding bit_length
bit_length-le k n h = bits_from-le n k n h

number_to_bytes_fits : (n k : ℕ) → 0 < k → n < 256 ^ k → number_to_bytes n k ≡ ok (be_bytes k n)
unfolding number_to_bytes hex_length
number_to_bytes_fits n k h small =
    let bits : bit_length n ≤ 8 * k = bit_length-le (8 * k) n (rw (pow_256 k) at small) in
    ground arith

shifted : (k n x : ℕ) → x < 256 → be_bytes k n ++ x ∷ [] ≡ be_bytes (suc k) (n * 256 + x)
unfolding be_bytes
shifted k n x h =
    let e : (n * 256 + x) / 256 ≡ n = omega arith in
    let f : (n * 256 + x) % 256 ≡ x = omega arith in rw (e, f)

be_bytes-from_be :
    (k n : ℕ) (b : Bytes) → All IsByte b → be_bytes k n ++ b ≡ be_bytes (k + length b) (from_be n b)
unfolding from_be
be_bytes-from_be k n [] h = append-nil _ ∙ ap (λ (j : ℕ). be_bytes j n) (omega arith)
be_bytes-from_be k n (x ∷ r) (h, hs) =
    sym (append_assoc (be_bytes k n) (x ∷ []) r)
    ∙ ap (λ (t : Bytes). t ++ r) (shifted k n x h)
    ∙ be_bytes-from_be (suc k) (n * 256 + x) r hs
    ∙ ap (λ (j : ℕ). be_bytes j (from_be (n * 256 + x) r)) (omega arith)

be_bytes-from_zero : (b : Bytes) → All IsByte b → b ≡ be_bytes (length b) (from_be 0 b)
unfolding be_bytes
be_bytes-from_zero b h =
    let e : 0 + length b ≡ length b = omega arith in
    be_bytes-from_be 0 0 b h ∙ ap (λ (j : ℕ). be_bytes j (from_be 0 b)) e

from_be_bound : (acc : ℕ) (b : Bytes) → All IsByte b → from_be acc b < (acc + 1) * 256 ^ length b
unfolding from_be
from_be_bound acc [] h = omega arith
from_be_bound acc (x ∷ r) (h, hs) = omega (
  arith,
  from_be_bound (acc * 256 + x) r hs,
  pow-suc 256 (length r),
  mul-le-mul_right {m = x + 1} {n = 256} (256 ^ length r) (omega arith),
  ap (λ (t : ℕ). acc * t) (pow-suc 256 (length r)),
)

-- number_to_bytes gives back the bytes of the number that bytes_to_number read.
pub number_to_bytes-bytes_to_number :
    (b : Bytes)
    → All IsByte b
    → 0 < length b
    → (n : ℕ) × (bytes_to_number b ≡ ok n) × (number_to_bytes n (length b) ≡ ok b)
unfolding bytes_to_number from_bytes
number_to_bytes-bytes_to_number [] h pos = elim pos [ ]
number_to_bytes-bytes_to_number (x ∷ r) h pos = (
  from_be 0 (x ∷ r),
  refl,
  number_to_bytes_fits _ (length (x ∷ r)) pos (omega (arith, from_be_bound 0 (x ∷ r) h))
      ∙ ap ok (sym (be_bytes-from_zero (x ∷ r) h)),
)
