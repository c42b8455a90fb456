-- ===== src/Utils/KeyFormats/Pem.antt =====
-- What the PEM pattern finds.
use refactoring_pyjwt.Prelude.{
  Memᴰ, ℕ, Bool, true, List, [], ◌∷◌, ◌++◌, Bytes, any, ◌≡◌, refl, arith,
}
use refactoring_pyjwt.Text.{encode_utf8}
use refactoring_pyjwt.Utils.KeyFormats.{
  pems, lit, dash_or_space, cr?, any_bytes, some_bytes, newline, label_end, footer, pem_at,
  search_pem, is_pem_format,
}

lit-append : (p : Bytes) (k : Bytes → Bool) (r : Bytes) → k r ≡ true → lit p k (p ++ r) ≡ true
unfolding lit
lit-append [] k r h = h
lit-append (x ∷ p) k r h = ground (arith, lit-append p k r h)

any_bytes-append :
    (b : Bytes) (k : Bytes → Bool) (r : Bytes) → k r ≡ true → any_bytes k (b ++ r) ≡ true
unfolding any_bytes
any_bytes-append [] k [] h = h
any_bytes-append [] k (x ∷ r) h = rw h
any_bytes-append (x ∷ b) k r h = ground (arith, any_bytes-append b k r h)

-- A block with the given label and body, and what follows it.
abbrev pub pem_block : (name body post : Bytes) → Bytes
pem_block name body post =
    encode_utf8 "-----BEGIN "
    ++ (name
        ++ (encode_utf8 "-----"
            ++ (10
                ∷ (body
                    ++ (10
                        ∷ (encode_utf8 "-----END " ++ (name ++ (encode_utf8 "-----" ++ post))))))))

label_end-append :
    (name : Bytes) (k : Bytes → Bool) (r : Bytes)
    → k r ≡ true
    → label_end name k (name ++ (encode_utf8 "-----" ++ r)) ≡ true
unfolding label_end
label_end-append name k r h =
    lit-append name (dash_or_space (lit (encode_utf8 "----") k)) (encode_utf8 "-----" ++ r) h

pem_at-pem_block :
    (name : Bytes) (x : ℕ) (body post : Bytes) → pem_at name (pem_block name (x ∷ body) post) ≡ true
unfolding pem_at
pem_at-pem_block name x body post =
    label_end-append name (cr? (lit newline (some_bytes (footer name)))) _
      (any_bytes-append body (footer name) _ (label_end-append name (λ _. true) post refl))

any-Memᴰ :
    (p : Bytes → Bool) {x : Bytes} {xs : List Bytes} → Memᴰ x xs → p x ≡ true → any p xs ≡ true
any-Memᴰ p (Memᴰ.head e) h = rw (← e, h)
any-Memᴰ p (Memᴰ.tail {x = y} m) h = ground (arith, any-Memᴰ p m h)

search_pem-append :
    (pre b : Bytes) (name : Bytes)
    → Memᴰ name pems
    → pem_at name b ≡ true
    → search_pem (pre ++ b) ≡ true
unfolding search_pem
search_pem-append [] [] name m h = any-Memᴰ (λ n. pem_at n []) m h
search_pem-append [] (x ∷ b) name m h = rw (any-Memᴰ (λ n. pem_at n (x ∷ b)) m h)
search_pem-append (x ∷ pre) b name m h = ground (arith, search_pem-append pre b name m h)

-- Text with a PEM block in it, whatever stands before and after, is taken for a PEM key.
pub is_pem_format-pem_block :
    (pre name : Bytes) (x : ℕ) (body post : Bytes)
    → Memᴰ name pems
    → is_pem_format (pre ++ pem_block name (x ∷ body) post) ≡ true
unfolding is_pem_format
is_pem_format-pem_block pre name x body post m =
    search_pem-append pre (pem_block name (x ∷ body) post) name m
      (pem_at-pem_block name x body post)
