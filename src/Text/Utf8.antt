-- ===== src/Text/Utf8.antt =====
-- Encoding a text in UTF-8 and decoding it again.
use Prim.Native.Nat.{compare, Ordering}
use Prim.Native.Char.{Char, char, code, IsScalar}
use mathlib.Core.Logic.{dif_pos, dif_neg}
use native.Mathlib.Decide.{dec_lt}
use native.Mathlib.Bridge.{le_prop}
use text.Mathlib.TextEquality.{Char-path}
use refactoring_pyjwt.Prelude.{
  ℕ, ◌<◌, ◌≤◌, String, some, [], ◌∷◌, ◌++◌, Bytes, ◌≡◌, refl, arith, All, inl, inr, ◌⊎◌, ap, ◌≢◌,
  ◌∙◌,
}
use refactoring_pyjwt.Exceptions.{Result, ok}
use refactoring_pyjwt.Text.{
  encode_char, encode_utf8, IsScalar-low, char?, put_char, lead, decode_from, decode_utf8,
}

Ordering-cases : (o : Ordering) → (o ≡ Ordering.lt) ⊎ (o ≡ Ordering.eq) ⊎ (o ≡ Ordering.gt)
Ordering-cases Ordering.lt = inl refl
Ordering-cases Ordering.eq = inr (inl refl)
Ordering-cases Ordering.gt = inr (inr refl)

lt_of_compare : (a b : ℕ) → compare a b ≡ Ordering.lt → a < b
lt_of_compare a b h = ground arith

low_bound : (n : ℕ) → IsScalar n → compare n 55296 ≢ Ordering.lt → compare 57343 n ≡ Ordering.lt
low_bound n p h = elim (Ordering-cases (compare n 55296)) [
  | inl e ↦ absurd (h e)
  | inr (inl e) ↦ elim (Ordering-cases (compare 57343 n)) [
    | inl f ↦ f
    | inr (inl f) ↦ absurd (rw (e, f) at p)
    | inr (inr f) ↦ absurd (rw (e, f) at p)
  ]
  | inr (inr e) ↦ elim (Ordering-cases (compare 57343 n)) [
    | inl f ↦ f
    | inr (inl f) ↦ absurd (rw (e, f) at p)
    | inr (inr f) ↦ absurd (rw (e, f) at p)
  ]
]

high_bound :
    (n : ℕ)
    → IsScalar n
    → compare n 55296 ≢ Ordering.lt
    → compare 57343 n ≡ Ordering.lt
    → compare n 1114112 ≡ Ordering.lt
high_bound n p h f = elim (Ordering-cases (compare n 1114112)) [
  | inl g ↦ g
  | inr (inl g) ↦ elim (Ordering-cases (compare n 55296)) [
    | inl e ↦ absurd (h e)
    | inr (inl e) ↦ absurd (rw (e, f, g) at p)
    | inr (inr e) ↦ absurd (rw (e, f, g) at p)
  ]
  | inr (inr g) ↦ elim (Ordering-cases (compare n 55296)) [
    | inl e ↦ absurd (h e)
    | inr (inl e) ↦ absurd (rw (e, f, g) at p)
    | inr (inr e) ↦ absurd (rw (e, f, g) at p)
  ]
]

-- A code point is no surrogate and lies in range.
pub code_bounds : (c : Char) → (code c < 55296) ⊎ ((57343 < code c) × (code c < 1114112))
code_bounds (char n p) = elim (dec_lt n 55296) [
  | yes h ↦ inl h
  | no h ↦
      let ne = λ (e : compare n 55296 ≡ Ordering.lt). h (lt_of_compare n 55296 e) in
      let f = low_bound n p ne in
      inr (lt_of_compare 57343 n f, lt_of_compare n 1114112 (high_bound n p ne f))
]

char?-code : (c : Char) → char? (code c) ≡ some c
unfolding char?
char?-code c = elim (code_bounds c) [
  | inl h ↦ rw (dif_pos _ le_prop h) (ap some (Char-path _ c refl))
  | inr (h, k) ↦
      rw
        (
          dif_neg _ (λ (p : code c < 55296). absurd (omega arith)),
          dif_pos _ le_prop h,
          dif_pos _ le_prop k,
        )
        (ap some (Char-path _ c refl))
]

module _ (n : ℕ) (rest : Bytes) where
  abbrev then_rest : Result String
  then_rest = put_char (char? n) (decode_from rest 0 0 0)

  decode-one : n < 0x80 → decode_from (encode_char n ++ rest) 0 0 0 ≡ then_rest
  unfolding encode_char decode_from lead
  decode-one h = ground arith

  decode-two : 0x80 ≤ n → n < 0x800 → decode_from (encode_char n ++ rest) 0 0 0 ≡ then_rest
  unfolding encode_char decode_from lead
  decode-two h k = ground arith

  decode-three : 0x800 ≤ n → n < 0x10000 → decode_from (encode_char n ++ rest) 0 0 0 ≡ then_rest
  unfolding encode_char decode_from lead
  decode-three h k = ground arith

  decode-four : 0x10000 ≤ n → n < 0x110000 → decode_from (encode_char n ++ rest) 0 0 0 ≡ then_rest
  unfolding encode_char decode_from lead
  decode-four h k = ground arith

decode-encode_char :
    (c : Char) (rest : Bytes)
    → decode_from (encode_char (code c) ++ rest) 0 0 0 ≡ put_char (some c) (decode_from rest 0 0 0)
decode-encode_char c rest = rw (← char?-code c) (pieces (code_bounds c))
  where
    pieces :
        (code c < 55296) ⊎ ((57343 < code c) × (code c < 1114112))
        → decode_from (encode_char (code c) ++ rest) 0 0 0
          ≡ put_char (char? (code c)) (decode_from rest 0 0 0)
    pieces bounds = elim (dec_lt (code c) 0x80) [
      | yes h ↦ decode-one (code c) rest h
      | no h ↦ elim (dec_lt (code c) 0x800) [
        | yes k ↦ decode-two (code c) rest (omega arith) k
        | no k ↦ elim (dec_lt (code c) 0x10000) [
          | yes l ↦ decode-three (code c) rest (omega arith) l
          | no l ↦ decode-four (code c) rest (omega arith) (omega arith)
        ]
      ]
    ]

-- Every text is what its UTF-8 decodes to.
pub decode_utf8-encode_utf8 : (s : String) → decode_utf8 (encode_utf8 s) ≡ ok s
unfolding decode_utf8 encode_utf8
decode_utf8-encode_utf8 String.[] = refl
decode_utf8-encode_utf8 (String.◌∷◌ c s) =
    decode-encode_char c (encode_utf8 s) ∙ ap (put_char (some c)) (decode_utf8-encode_utf8 s)

encode_char_ascii : (x : ℕ) → x < 128 → encode_char x ≡ x ∷ []
unfolding encode_char
encode_char_ascii x h = ground arith

-- Bytes below 128 decode, to a text that encodes to them.
pub decode_utf8_ascii :
    (b : Bytes) → All (λ x. x < 128) b → (s : String) × (decode_utf8 b ≡ ok s) × (encode_utf8 s ≡ b)
unfolding decode_utf8 encode_utf8
decode_utf8_ascii [] h = (String.[], refl, refl)
decode_utf8_ascii (x ∷ b) (h, hs) =
    let (s, e, f) = decode_utf8_ascii b hs in
    let c : Char = char x (IsScalar-low x (omega arith)) in
    (
      String.◌∷◌ c s,
      (rw (encode_char_ascii x h) at (decode-encode_char c b)) ∙ ap (put_char (some c)) e,
      rw (encode_char_ascii x h, f),
    )
