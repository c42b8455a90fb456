-- ===== src/Utils/Integers.antt =====
-- jwt/utils.py: integers and their big-endian bytes, with `int.bit_length`, `int.to_bytes`,
-- `int.from_bytes`, `"%0*x" % …` and `binascii.a2b_hex` as these functions use them.
pub mod RoundTrip
pub mod FixedWidth
use refactoring_pyjwt.Prelude.{
  ℕ, zero, suc, ◌+◌, ◌-◌, ◌*◌, ◌/◌, ◌%◌, ◌^◌, Bool, Option, none, some, List, [], ◌∷◌, ◌++◌, Bytes,
  ltb, leb, ◌==◌, if◌then◌else◌, length,
}
use refactoring_pyjwt.Prelude.Int.{ℤ, pos, negsuc}
use refactoring_pyjwt.Exceptions.{
  Result, ok, err, raise, value_error, overflow_error, binascii_error, ◌>>=◌,
}
use refactoring_pyjwt.Utils.Base64.{
  StrOrBytes, bytes, force_bytes, base64url_encode, base64url_decode,
}

-- `n.bit_length()`: each round halves `n`, which is below 2 ^ n, so `n` rounds are enough.
bits_from : ℕ → ℕ → ℕ
bits_from zero n = 0
bits_from (suc fuel) n = let rest = bits_from fuel (n / 2) in if n == 0 then 0 else suc rest

unfoldable pub bit_length : ℕ → ℕ
unfolding bits_from
bit_length n = bits_from n n

-- The `count` low bytes of `n`, the highest first.
unfoldable pub be_bytes : (count n : ℕ) → Bytes
be_bytes zero n = []
be_bytes (suc k) n = be_bytes k (n / 256) ++ (n % 256) ∷ []

-- `n.to_bytes(count, "big", signed=False)`
unfoldable pub to_bytes : (n count : ℕ) → Result Bytes
unfolding be_bytes
to_bytes n count = if ltb n (256 ^ count) then ok (be_bytes count n) else raise overflow_error

from_be : ℕ → Bytes → ℕ
from_be acc [] = acc
from_be acc (b ∷ r) = from_be (acc * 256 + b) r

-- `int.from_bytes(data, byteorder="big")`
unfoldable pub from_bytes : Bytes → ℕ
unfolding from_be
from_bytes b = from_be 0 b

abbrev pub bits_or : ℕ → Option ℕ → ℕ
bits_or val none = bit_length val
bits_or val (some n) = n

unfoldable pub bytes_from_int : (val : ℕ) (bit_length : Option ℕ) → Result Bytes
unfolding to_bytes
bytes_from_int val bits = let byte_length = (bits_or val bits + 7) / 8 in to_bytes val byte_length

abbrev pub at_least_one : Bytes → Bytes
at_least_one [] = 0 ∷ []
at_least_one (b ∷ r) = b ∷ r

unfoldable pub to_base64url_uint : (val : ℤ) (bit_length : Option ℕ) → Result Bytes
unfolding bytes_from_int
to_base64url_uint (negsuc n) bits = raise value_error
to_base64url_uint (pos n) bits = do
  int_bytes ← bytes_from_int n bits
  ok (base64url_encode (at_least_one int_bytes))

unfoldable pub from_base64url_uint : StrOrBytes → Result ℕ
unfolding force_bytes
from_base64url_uint val = do
  val_bytes ← force_bytes val
  decoded ← base64url_decode (bytes val_bytes)
  ok (from_bytes decoded)

-- How many digits `"%x" % n` has.
hex_length : ℕ → ℕ
unfolding bit_length
hex_length n = if n == 0 then 1 else (bit_length n + 3) / 4

-- The digits are as many as `width` or `n` asks for, and `a2b_hex` wants an even number of them.
unfoldable pub number_to_bytes : (num num_bytes : ℕ) → Result Bytes
unfolding hex_length be_bytes
number_to_bytes num num_bytes =
    let digits = if ltb (2 * num_bytes) (hex_length num) then hex_length num else 2 * num_bytes in
    if digits % 2 == 0 then ok (be_bytes (digits / 2) num) else raise binascii_error

-- `int("", 16)` is a ValueError.
unfoldable pub bytes_to_number : Bytes → Result ℕ
unfolding from_bytes
bytes_to_number [] = raise value_error
bytes_to_number (b ∷ r) = ok (from_bytes (b ∷ r))
