-- ===== src/Text.antt =====
-- Python's `str` and `bytes`, as jwt/ uses them: `s.encode("utf-8")`, `b.decode("utf-8")`, `b.split(b".", 1)`,
-- `b.rsplit(b".", 1)`, `b.startswith(p)`.
-- A `str` is a native text (so without lone surrogates, which do not encode), and `bytes` a list of numbers.
pub mod Octets
pub mod Utf8
pub mod Split
use Prim.Native.Nat.{compare, Ordering}
use Prim.Native.Char.{Char, char, code, IsScalar}
use mathlib.Core.Logic.{dite}
use native.Mathlib.Decide.{dec_lt}
use refactoring_pyjwt.Prelude.{
  ℕ, zero, suc, ◌+◌, ◌-◌, ◌*◌, ◌/◌, ◌%◌, String, Bool, true, false, ◌&&◌, ◌||◌, Option, none, some,
  List, [], ◌∷◌, ◌++◌, Bytes, ltb, leb, ◌==◌, if◌then◌else◌, ◌<◌, ◌≡◌, ◌⊎◌, inl, inr, arith,
}
use refactoring_pyjwt.Exceptions.{Result, ok, err, raise, unicode_error}

-- The bytes of one character.
unfoldable pub encode_char : ℕ → Bytes
encode_char n =
    if ltb n 0x80
    then n ∷ []
    else if ltb n 0x800
    then (0xc0 + n / 64) ∷ (0x80 + n % 64) ∷ []
    else if ltb n 0x10000
    then (0xe0 + n / 4096) ∷ (0x80 + n / 64 % 64) ∷ (0x80 + n % 64) ∷ []
    else (0xf0 + n / 262144) ∷ (0x80 + n / 4096 % 64) ∷ (0x80 + n / 64 % 64) ∷ (0x80 + n % 64) ∷ []

-- `s.encode("utf-8")`
unfoldable pub encode_utf8 : String → Bytes
unfolding encode_char
encode_utf8 String.[] = []
encode_utf8 (String.◌∷◌ c s) = encode_char (code c) ++ encode_utf8 s

compare-lt : (a b : ℕ) → a < b → compare a b ≡ Ordering.lt
compare-lt a b h = ground arith

pub IsScalar-low : (n : ℕ) → n < 55296 → IsScalar n
IsScalar-low n h = rw (compare-lt n 55296 h) tt

above : (n : ℕ) → 57343 < n → (compare n 55296 ≡ Ordering.eq) ⊎ (compare n 55296 ≡ Ordering.gt)
above n h = ground arith

pub IsScalar-high : (n : ℕ) → 57343 < n → n < 1114112 → IsScalar n
IsScalar-high n h k = elim (above n h) [
  | inl e ↦ rw (e, compare-lt 57343 n h, compare-lt n 1114112 k) tt
  | inr e ↦ rw (e, compare-lt 57343 n h, compare-lt n 1114112 k) tt
]

-- The character of a number, if it is a Unicode scalar value.
char? : ℕ → Option Char
char? n =
    dite (dec_lt n 55296) (λ h. some (char n (IsScalar-low n h)))
      λ _.
        dite (dec_lt 57343 n)
          (λ h. dite (dec_lt n 1114112) (λ k. some (char n (IsScalar-high n h k))) (λ _. none))
          (λ _. none)

abbrev put_char : Option Char → Result String → Result String
put_char none rest = raise unicode_error
put_char (some c) (ok s) = ok (String.◌∷◌ c s)
put_char (some c) (err e) = err e

-- What a first byte announces: how many bytes follow, its own bits, and the least number that
-- may be written at that length.
pub data Lead : Type 0 where
  single : Lead
  follow : (count bits least : ℕ) → Lead
  bad : Lead

lead : ℕ → Lead
lead b =
    if ltb b 0x80
    then single
    else if ltb b 0xc2
    then bad
    else if ltb b 0xe0
    then follow 1 (b - 0xc0) 0x80
    else if ltb b 0xf0
    then follow 2 (b - 0xe0) 0x800
    else if ltb b 0xf5
    then follow 3 (b - 0xf0) 0x10000
    else bad

-- The first number is how many bytes of the current character are still to come.
decode_from : Bytes → (pending bits least : ℕ) → Result String
decode_from [] zero bits least = ok String.[]
decode_from [] (suc k) bits least = raise unicode_error
decode_from (b ∷ r) zero bits least = elim (lead b) [
  | single ↦ put_char (char? b) (decode_from r 0 0 0)
  | follow k bits' least' ↦ decode_from r k bits' least'
  | bad ↦ raise unicode_error
]
decode_from (b ∷ r) (suc zero) bits least =
    elim (leb 0x80 b && ltb b 0xc0 && leb least (bits * 64 + b % 64)) [
      | true ↦ put_char (char? (bits * 64 + b % 64)) (decode_from r 0 0 0)
      | false ↦ raise unicode_error
    ]
decode_from (b ∷ r) (suc (suc k)) bits least = elim (leb 0x80 b && ltb b 0xc0) [
  | true ↦ decode_from r (suc k) (bits * 64 + b % 64) least
  | false ↦ raise unicode_error
]

-- `b.decode("utf-8")`
unfoldable pub decode_utf8 : Bytes → Result String
unfolding decode_from lead char? dec_lt
decode_utf8 b = decode_from b 0 0 0

-- `key.startswith(prefix)`
unfoldable pub starts_with : Bytes → Bytes → Bool
starts_with p [] = elim p [ [] ↦ true | _ ∷ _ ↦ false ]
starts_with [] (b ∷ bs) = true
starts_with (a ∷ p) (b ∷ bs) = (a == b) && starts_with p bs

-- `part in b`
unfoldable pub contains : Bytes → Bytes → Bool
unfolding starts_with
contains part [] = starts_with part []
contains part (b ∷ bs) = starts_with part (b ∷ bs) || contains part bs

-- `b".".join([a, c])`
infixr 66 ◌dot◌
abbrev pub ◌dot◌ : Bytes → Bytes → Bytes
a dot c = a ++ (b'.' ∷ c)

abbrev before_head : ℕ → Option (Bytes × Bytes) → Option (Bytes × Bytes)
before_head b none = none
before_head b (some (l, r)) = some (b ∷ l, r)

-- `b.split(b".", 1)`, if it has two parts.
unfoldable pub split_dot : Bytes → Option (Bytes × Bytes)
split_dot [] = none
split_dot (b ∷ r) = let rest = split_dot r in if b == b'.' then some ([], r) else before_head b rest

abbrev or_here : ℕ → Bytes → Option (Bytes × Bytes) → Option (Bytes × Bytes)
or_here b r (some (l, t)) = some (b ∷ l, t)
or_here b r none = if b == b'.' then some ([], r) else none

-- `b.rsplit(b".", 1)`, if it has two parts.
unfoldable pub rsplit_dot : Bytes → Option (Bytes × Bytes)
rsplit_dot [] = none
rsplit_dot (b ∷ r) = or_here b r (rsplit_dot r)
