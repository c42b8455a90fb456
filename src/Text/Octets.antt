-- ===== src/Text/Octets.antt =====
-- UTF-8 is made of bytes.
use Prim.Native.Char.{Char, code}
use refactoring_pyjwt.Prelude.{
  ℕ, ◌<◌, String, ltb, Bool-cases, All, All-append, IsByte, ◌≡◌, arith, inl, inr, ltb→lt, false,
  ◌≤◌,
}
use refactoring_pyjwt.Text.{encode_utf8, encode_char}
use refactoring_pyjwt.Text.Utf8.{code_bounds}

code_range : (c : Char) → code c < 1114112
code_range c = elim (code_bounds c) [ inl h ↦ omega arith | inr (h, k) ↦ k ]

not_ltb : (a b : ℕ) → ltb a b ≡ false → b ≤ a
not_ltb a b h = ground arith

encode_char-IsByte : (x : ℕ) → x < 1114112 → All IsByte (encode_char x)
unfolding encode_char
encode_char-IsByte x h = elim (Bool-cases (ltb x 0x80)) [
  | inl a ↦ let a' = ltb→lt x 0x80 a in rw a (omega arith, tt)
  | inr a ↦ elim (Bool-cases (ltb x 0x800)) [
    | inl b ↦ let b' = ltb→lt x 0x800 b in rw (a, b) (omega arith, (omega arith, tt))
    | inr b ↦ elim (Bool-cases (ltb x 0x10000)) [
      | inl c ↦
          let c' = ltb→lt x 0x10000 c in
          rw (a, b, c) (omega arith, (omega arith, (omega arith, tt)))
      | inr c ↦
          let c' = not_ltb x 0x10000 c in
          rw (a, b, c) (omega arith, (omega arith, (omega arith, (omega arith, tt))))
    ]
  ]
]

pub encode_utf8-IsByte : (s : String) → All IsByte (encode_utf8 s)
unfolding encode_utf8
encode_utf8-IsByte String.[] = tt
encode_utf8-IsByte (String.◌∷◌ c s) =
    All-append IsByte (encode_char (code c)) (encode_utf8 s)
      (encode_char-IsByte (code c) (code_range c)) (encode_utf8-IsByte s)
