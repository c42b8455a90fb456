-- ===== src/Utils/Base64.antt =====
-- jwt/utils.py: `force_bytes`, `base64url_decode` and `base64url_encode`, with what they use of the
-- standard library: `base64.urlsafe_b64encode`, `base64.urlsafe_b64decode` and, below these,
-- `binascii.b2a_base64` and the lenient mode of `binascii.a2b_base64`.
pub mod RoundTrip
pub mod Texts
pub mod Errors
use refactoring_pyjwt.Prelude.{
  ℕ, zero, suc, ◌+◌, ◌-◌, ◌*◌, ◌/◌, ◌%◌, String, Bool, true, false, Option, none, some, List, [],
  ◌∷◌, ◌++◌, map, Bytes, ltb, leb, ◌==◌, ◌&&◌, if◌then◌else◌, length, replicate,
}
use refactoring_pyjwt.Exceptions.{Result, ok, err, raise, binascii_error, type_error, ◌>>=◌}
use refactoring_pyjwt.Text.{encode_utf8}

-- What the callers pass: a `str` or `bytes`, or by mistake another object.
pub data StrOrBytes : Type 0 where
  str : String → StrOrBytes
  bytes : Bytes → StrOrBytes
  other : StrOrBytes

unfoldable pub force_bytes : StrOrBytes → Result Bytes
force_bytes (str s) = ok (encode_utf8 s)
force_bytes (bytes b) = ok b
force_bytes other = raise type_error

-- The standard alphabet.
unfoldable pub digit : ℕ → ℕ
digit i =
    if ltb i 26
    then b'A' + i
    else if ltb i 52
    then b'a' + (i - 26)
    else if ltb i 62
    then b'0' + (i - 52)
    else if i == 62
    then b'+'
    else b'/'

unfoldable pub digit_value : ℕ → Option ℕ
digit_value c =
    if leb b'A' c && leb c b'Z'
    then some (c - b'A')
    else if leb b'a' c && leb c b'z'
    then some (c - b'a' + 26)
    else if leb b'0' c && leb c b'9'
    then some (c - b'0' + 52)
    else if c == b'+'
    then some 62
    else if c == b'/'
    then some 63
    else none

-- binascii.b2a_base64(b, newline=False)
b2a_base64 : Bytes → Bytes
b2a_base64 [] = []
b2a_base64 (a ∷ []) = digit (a / 4) ∷ digit (a % 4 * 16) ∷ b'=' ∷ b'=' ∷ []
b2a_base64 (a ∷ b ∷ []) =
    digit (a / 4) ∷ digit (a % 4 * 16 + b / 16) ∷ digit (b % 16 * 4) ∷ b'=' ∷ []
b2a_base64 (a ∷ b ∷ c ∷ r) =
    digit (a / 4)
    ∷ digit (a % 4 * 16 + b / 16)
    ∷ digit (b % 16 * 4 + c / 64)
    ∷ digit (c % 64)
    ∷ b2a_base64 r

-- The translations of the `urlsafe_` functions.
unfoldable pub to_urlsafe : ℕ → ℕ
to_urlsafe c = if c == b'+' then b'-' else if c == b'/' then b'_' else c

unfoldable pub from_urlsafe : ℕ → ℕ
from_urlsafe c = if c == b'-' then b'+' else if c == b'_' then b'/' else c

-- `b.replace(b"=", b"")`
drop_padding : Bytes → Bytes
drop_padding [] = []
drop_padding (c ∷ r) = let rest = drop_padding r in if c == b'=' then rest else c ∷ rest

unfoldable pub base64url_encode : Bytes → Bytes
unfolding b2a_base64 digit to_urlsafe drop_padding
base64url_encode input = drop_padding (map to_urlsafe (b2a_base64 input))

-- The decoder's position in a quad, with the bits that it has not yet written.
pub data Quad : Type 0 where
  quad0 : Quad
  quad1 quad2 quad3 : ℕ → Quad

-- What one input byte makes the decoder do.
pub data Action : Type 0 where
  stop : Action
  skip : (pads : ℕ) → Action
  keep : Quad → Action
  emit : ℕ → Quad → Action

take_digit : Quad → ℕ → Action
take_digit quad0 v = keep (quad1 v)
take_digit (quad1 l) v = emit (l * 4 + v / 16) (quad2 (v % 16))
take_digit (quad2 l) v = emit (l * 16 + v / 4) (quad3 (v % 4))
take_digit (quad3 l) v = emit (l * 64 + v) quad0

-- A "=" ends the input once it completes a quad, and is skipped elsewhere.
take_pad : Quad → ℕ → Action
take_pad (quad2 l) pads = if leb 4 (2 + (pads + 1)) then stop else skip (pads + 1)
take_pad (quad3 l) pads = stop
take_pad _ pads = skip pads

-- A byte outside the alphabet is skipped.
act : ℕ → Quad → ℕ → Action
unfolding take_digit take_pad
act c quad pads =
    if c == b'='
    then take_pad quad pads
    else elim (digit_value c) [ none ↦ skip pads | some v ↦ take_digit quad v ]

abbrev push_byte : ℕ → Result Bytes → Result Bytes
push_byte b (ok r) = ok (b ∷ r)
push_byte b (err e) = err e

at_end : Quad → Result Bytes
at_end quad0 = ok []
at_end _ = raise binascii_error

-- binascii.a2b_base64(b)
a2b_base64 : Bytes → Quad → (pads : ℕ) → Result Bytes
a2b_base64 [] quad pads = at_end quad
a2b_base64 (c ∷ r) quad pads = elim (act c quad pads) [
  | stop ↦ ok []
  | skip pads' ↦ a2b_base64 r quad pads'
  | keep quad' ↦ a2b_base64 r quad' 0
  | emit b quad' ↦ push_byte b (a2b_base64 r quad' 0)
]

urlsafe_b64decode : Bytes → Result Bytes
unfolding a2b_base64 act at_end digit_value from_urlsafe
urlsafe_b64decode b = a2b_base64 (map from_urlsafe b) quad0 0

-- `input_bytes += b"=" * (4 - rem)` if `rem > 0`
pad_to_quads : Bytes → Bytes
pad_to_quads b = let rem = length b % 4 in if ltb 0 rem then b ++ replicate (4 - rem) b'=' else b

unfoldable pub base64url_decode : StrOrBytes → Result Bytes
unfolding force_bytes pad_to_quads urlsafe_b64decode
base64url_decode input = do
  input_bytes ← force_bytes input
  urlsafe_b64decode (pad_to_quads input_bytes)
