-- ===== src/Utils/Base64/RoundTrip.antt =====
-- Decoding what base64url_encode wrote.
use mathlib.Core.Path.{ap₂}
use mathlib.Core.List.{append-nil}
use refactoring_pyjwt.Prelude.{
  ℕ, zero, suc, ◌+◌, ◌-◌, ◌*◌, ◌/◌, ◌%◌, ◌<◌, ◌≤◌, Bool, true, false, Option, none, some, [], ◌∷◌,
  ◌++◌, map, Bytes, ltb, ◌==◌, length, replicate, All, IsByte, ◌≡◌, refl, arith, all_below,
  all_below_sound, ◌≢◌, ap, ◌∙◌,
}
use refactoring_pyjwt.Exceptions.{Result, ok}
use refactoring_pyjwt.Utils.Base64.{
  bytes, force_bytes, digit, digit_value, to_urlsafe, from_urlsafe, base64url_encode, quad0, quad1,
  quad2, quad3, act, push_byte, at_end, a2b_base64, urlsafe_b64decode, pad_to_quads,
  base64url_decode,
}

-- A character of the URL-safe alphabet.
abbrev url_digit : ℕ → ℕ
url_digit i = to_urlsafe (digit i)

-- The encoding with no padding, written directly.
url_digits : Bytes → Bytes
url_digits [] = []
url_digits (a ∷ []) = url_digit (a / 4) ∷ url_digit (a % 4 * 16) ∷ []
url_digits (a ∷ b ∷ []) =
    url_digit (a / 4) ∷ url_digit (a % 4 * 16 + b / 16) ∷ url_digit (b % 16 * 4) ∷ []
url_digits (a ∷ b ∷ c ∷ r) =
    url_digit (a / 4)
    ∷ url_digit (a % 4 * 16 + b / 16)
    ∷ url_digit (b % 16 * 4 + c / 64)
    ∷ url_digit (c % 64)
    ∷ url_digits r

-- What holds of each of the 64 characters, by evaluation.
abbrev option_is : Option ℕ → ℕ → Bool
option_is none n = false
option_is (some m) n = m == n

table : all_below 64 (λ i. option_is (digit_value (from_urlsafe (url_digit i))) i) ≡ true
unfolding digit digit_value to_urlsafe from_urlsafe
table = refl

digit_value-url_digit : (i : ℕ) → i < 64 → digit_value (from_urlsafe (url_digit i)) ≡ some i
digit_value-url_digit i h = ground (
  arith,
  all_below_sound 64 (λ (j : ℕ). option_is (digit_value (from_urlsafe (url_digit j))) j) i table h,
)

not_pad : (i : ℕ) → i < 64 → (from_urlsafe (url_digit i) == b'=') ≡ false
unfolding digit to_urlsafe from_urlsafe
not_pad i h = ground arith

url_digit-ne-pad : (i : ℕ) → i < 64 → (url_digit i == b'=') ≡ false
unfolding digit to_urlsafe
url_digit-ne-pad i h = ground arith

abbrev sent : ℕ → ℕ
sent i = from_urlsafe (url_digit i)

-- One digit moves the decoder on by one place.
module _ (i : ℕ) (h : i < 64) (r : Bytes) (l p : ℕ) where
  step0 : a2b_base64 (sent i ∷ r) quad0 p ≡ a2b_base64 r (quad1 i) 0
  unfolding a2b_base64 act
  step0 = ground (arith, not_pad i h, digit_value-url_digit i h)

  step1 :
      a2b_base64 (sent i ∷ r) (quad1 l) p
      ≡ push_byte (l * 4 + i / 16) (a2b_base64 r (quad2 (i % 16)) 0)
  unfolding a2b_base64 act
  step1 = ground (arith, not_pad i h, digit_value-url_digit i h)

  step2 :
      a2b_base64 (sent i ∷ r) (quad2 l) p
      ≡ push_byte (l * 16 + i / 4) (a2b_base64 r (quad3 (i % 4)) 0)
  unfolding a2b_base64 act
  step2 = ground (arith, not_pad i h, digit_value-url_digit i h)

  step3 : a2b_base64 (sent i ∷ r) (quad3 l) p ≡ push_byte (l * 64 + i) (a2b_base64 r quad0 0)
  unfolding a2b_base64 act
  step3 = ground (arith, not_pad i h, digit_value-url_digit i h)

-- The "=" that the decoder is given behind the digits.
abbrev padding : Bytes → ℕ
padding [] = 0
padding (a ∷ []) = 2
padding (a ∷ b ∷ []) = 1
padding (a ∷ b ∷ c ∷ r) = padding r

decode-url_digits :
    (b : Bytes)
    → All IsByte b
    → a2b_base64 (map from_urlsafe (url_digits b ++ replicate (padding b) b'=')) quad0 0 ≡ ok b
unfolding url_digits
decode-url_digits [] h = unfold a2b_base64 at_end in refl
decode-url_digits (a ∷ []) (ha, _) =
    step0 (a / 4) (omega arith) _ 0 0
    ∙ step1 (a % 4 * 16) (omega arith) _ (a / 4) 0
    ∙ (unfold a2b_base64 act at_end from_urlsafe in ap (λ (x : ℕ). ok (x ∷ [])) (omega arith))
decode-url_digits (a ∷ b ∷ []) (ha, (hb, _)) =
    step0 (a / 4) (omega arith) _ 0 0
    ∙ step1 (a % 4 * 16 + b / 16) (omega arith) _ (a / 4) 0
    ∙ ap (push_byte _) (step2 (b % 16 * 4) (omega arith) _ _ 0)
    ∙ (unfold a2b_base64 act at_end from_urlsafe in
        ap₂ (λ (x y : ℕ). ok (x ∷ y ∷ [])) (omega arith) (omega arith))
decode-url_digits (a ∷ b ∷ c ∷ r) (ha, (hb, (hc, hr))) =
    let x : ℕ = a % 4 * 16 + b / 16 in
    let y : ℕ = b % 16 * 4 + c / 64 in
    let e : a / 4 * 4 + x / 16 ≡ a = omega arith in
    let f : x % 16 * 16 + y / 4 ≡ b = omega arith in
    let g : y % 4 * 64 + c % 64 ≡ c = omega arith in
    step0 (a / 4) (omega arith) _ 0 0
    ∙ step1 x (omega arith) _ (a / 4) 0
    ∙ ap (push_byte (a / 4 * 4 + x / 16)) (step2 y (omega arith) _ (x % 16) 0)
    ∙ ap (λ (t : Result Bytes). push_byte (a / 4 * 4 + x / 16) (push_byte (x % 16 * 16 + y / 4) t))
        (step3 (c % 64) (omega arith) _ (y % 4) 0)
    ∙ rw (e, f, g, decode-url_digits r hr) refl

base64url_encode-url_digits : (b : Bytes) → All IsByte b → base64url_encode b ≡ url_digits b
unfolding base64url_encode url_digits
base64url_encode-url_digits [] h = refl
base64url_encode-url_digits (a ∷ []) (ha, _) =
    rw (url_digit-ne-pad (a / 4) (omega arith), url_digit-ne-pad (a % 4 * 16) (omega arith))
base64url_encode-url_digits (a ∷ b ∷ []) (ha, (hb, _)) = rw (
  url_digit-ne-pad (a / 4) (omega arith),
  url_digit-ne-pad (a % 4 * 16 + b / 16) (omega arith),
  url_digit-ne-pad (b % 16 * 4) (omega arith),
)
base64url_encode-url_digits (a ∷ b ∷ c ∷ r) (ha, (hb, (hc, hr))) = rw (
  url_digit-ne-pad (a / 4) (omega arith),
  url_digit-ne-pad (a % 4 * 16 + b / 16) (omega arith),
  url_digit-ne-pad (b % 16 * 4 + c / 64) (omega arith),
  url_digit-ne-pad (c % 64) (omega arith),
  base64url_encode-url_digits r hr,
)

-- The digits and the padding make whole quads.
padding_lem : (b : Bytes) → ((length (url_digits b) + padding b) % 4 ≡ 0) × (padding b ≤ 2)
unfolding url_digits
padding_lem [] = omega arith
padding_lem (a ∷ []) = omega arith
padding_lem (a ∷ b ∷ []) = omega arith
padding_lem (a ∷ b ∷ c ∷ r) = omega (arith, padding_lem r)

pad_by :
    (d : Bytes) (n : ℕ) → (length d + n) % 4 ≡ 0 → n ≤ 2 → pad_to_quads d ≡ d ++ replicate n b'='
unfolding pad_to_quads
pad_by d zero h k = ground (arith, append-nil d)
pad_by d (suc n) h k =
    let e : 4 - length d % 4 ≡ suc n = omega arith in
    let f : ltb 0 (length d % 4) ≡ true = ground arith in rw (f, e)

pad_to_quads-url_digits :
    (b : Bytes) → pad_to_quads (url_digits b) ≡ url_digits b ++ replicate (padding b) b'='
pad_to_quads-url_digits b = pad_by (url_digits b) (padding b) (padding_lem b).0 (padding_lem b).1

-- Decoding what base64url_encode made of a byte string gives the byte string.
pub base64url_decode-base64url_encode :
    (b : Bytes) → All IsByte b → base64url_decode (bytes (base64url_encode b)) ≡ ok b
unfolding base64url_decode force_bytes urlsafe_b64decode
base64url_decode-base64url_encode b h =
    rw (base64url_encode-url_digits b h, pad_to_quads-url_digits b) (decode-url_digits b h)

-- ASCII, and neither a dot nor padding.
abbrev pub IsUrlChar : ℕ → Type 0
IsUrlChar c = (c < 128) × (c ≢ b'.') × (c ≢ b'=')

url_digit-IsUrlChar : (i : ℕ) → i < 64 → IsUrlChar (url_digit i)
unfolding digit to_urlsafe
url_digit-IsUrlChar i h = ground arith

url_digits-IsUrlChar : (b : Bytes) → All IsByte b → All IsUrlChar (url_digits b)
unfolding url_digits
url_digits-IsUrlChar [] h = tt
url_digits-IsUrlChar (a ∷ []) (ha, _) =
    (url_digit-IsUrlChar _ (omega arith), (url_digit-IsUrlChar _ (omega arith), tt))
url_digits-IsUrlChar (a ∷ b ∷ []) (ha, (hb, _)) = (
  url_digit-IsUrlChar _ (omega arith),
  (url_digit-IsUrlChar _ (omega arith), (url_digit-IsUrlChar _ (omega arith), tt)),
)
url_digits-IsUrlChar (a ∷ b ∷ c ∷ r) (ha, (hb, (hc, hr))) = (
  url_digit-IsUrlChar _ (omega arith),
  (
    url_digit-IsUrlChar _ (omega arith),
    (
      url_digit-IsUrlChar _ (omega arith),
      (url_digit-IsUrlChar _ (omega arith), url_digits-IsUrlChar r hr),
    ),
  ),
)

-- The encoding of a byte string is ASCII and holds no dot and no padding.
pub base64url_encode-IsUrlChar : (b : Bytes) → All IsByte b → All IsUrlChar (base64url_encode b)
base64url_encode-IsUrlChar b h = rw (base64url_encode-url_digits b h) (url_digits-IsUrlChar b h)
