-- ===== src/Text/Split.antt =====
-- Splitting a token at its first and at its last dot.
use refactoring_pyjwt.Prelude.{
  none, some, Option-cases, inl, inr, [], ◌∷◌, Bytes, ◌≡◌, ◌≢◌, refl, arith, All,
}
use refactoring_pyjwt.Text.{◌dot◌, split_dot, rsplit_dot}

abbrev pub HasNoDot : Bytes → Type 0
HasNoDot = All (λ b. b ≢ b'.')

-- A part with no dot in it comes back, with what stands behind the dot.
pub split_dot-dot : (a c : Bytes) → HasNoDot a → split_dot (a dot c) ≡ some (a, c)
unfolding split_dot
split_dot-dot [] c h = refl
split_dot-dot (x ∷ a) c (h, hs) = rw (split_dot-dot a c hs) (ground arith)

rsplit_dot-none : (c : Bytes) → HasNoDot c → rsplit_dot c ≡ none
unfolding rsplit_dot
rsplit_dot-none [] h = refl
rsplit_dot-none (x ∷ c) (h, hs) = rw (rsplit_dot-none c hs) (ground arith)

pub rsplit_dot-dot : (a c : Bytes) → HasNoDot c → rsplit_dot (a dot c) ≡ some (a, c)
unfolding rsplit_dot
rsplit_dot-dot [] c h = rw (rsplit_dot-none c h)
rsplit_dot-dot (x ∷ a) c h = rw (rsplit_dot-dot a c h)

none_sound : (c : Bytes) → rsplit_dot c ≡ none → HasNoDot c
unfolding rsplit_dot
none_sound [] h = tt
none_sound (x ∷ c) h = elim (Option-cases (rsplit_dot c)) [
  | inl e ↦ let h' = rw e at h in ground (arith, none_sound c e)
  | inr (p, e) ↦ let h' = rw e at h in ground arith
]

-- Both splits cut at a dot: joined again, the parts are the input.
pub rsplit_dot_sound :
    (b : Bytes) {a c : Bytes} → rsplit_dot b ≡ some (a, c) → (b ≡ a dot c) × HasNoDot c
unfolding rsplit_dot
rsplit_dot_sound [] h = cc
rsplit_dot_sound (x ∷ b) {a} {c} h = elim (Option-cases (rsplit_dot b)) [
  | inl e ↦ let h' = rw e at h in ground (arith, none_sound b e)
  | inr ((l, t), e) ↦ let h' = rw e at h in ground (arith, rsplit_dot_sound b e)
]

pub split_dot_sound :
    (b : Bytes) {a c : Bytes} → split_dot b ≡ some (a, c) → (b ≡ a dot c) × HasNoDot a
unfolding split_dot
split_dot_sound [] h = cc
split_dot_sound (x ∷ b) {a} {c} h = elim (Option-cases (split_dot b)) [
  | inl e ↦ let h' = rw e at h in ground arith
  | inr ((l, t), e) ↦ let h' = rw e at h in ground (arith, split_dot_sound b e)
]
