-- ===== src/Jwks/Calls/Rules.antt =====
-- Rules for what a call keeps and costs.
use refactoring_pyjwt.Prelude.{ℕ, ◌+◌, ◌≤◌, ◌≡◌, ◌≢◌, refl, ap, arith}
use refactoring_pyjwt.Exceptions.{Exception, Result, ok, err}
use refactoring_pyjwt.Exceptions as Exceptions
use refactoring_pyjwt.Jwks.Calls.{World, Call, continue, lift, ◌>>=◌}

module _ {ℓ κ} {C : Type ℓ} (P : World C → Type κ) where
  -- Right or raising, the call leads from a world with the property to one with it.
  abbrev pub Keeps {μ} : {A : Type μ} → Call C A → Type (ℓ ⊔ κ)
  Keeps m = (w : World C) → P w → P (m w).1

  continue-Keeps {μ ν} :
      {A : Type μ} {B : Type ν} (r : Result A × World C) (f : A → Call C B)
      → ((a : A) → Keeps (f a))
      → P r.1
      → P (continue r f).1
  continue-Keeps (ok a, w) f k h = k a w h
  continue-Keeps (err e, w) f k h = h

  pub Keeps->>= {μ ν} :
      {A : Type μ} {B : Type ν} (m : Call C A) (f : A → Call C B)
      → Keeps m
      → ((a : A) → Keeps (f a))
      → Keeps (m >>= f)
  Keeps->>= m f h k w p = continue-Keeps (m w) f k (h w p)

module _ {ℓ} {C : Type ℓ} where
  -- At most `n` requests more.
  abbrev pub Costs {μ} : {A : Type μ} → ℕ → Call C A → Type ℓ
  Costs n m = (w : World C) → (m w).1.requests ≤ w.requests + n

  continue-Costs {μ ν} :
      {A : Type μ} {B : Type ν} (n k c : ℕ) (r : Result A × World C) (f : A → Call C B)
      → ((a : A) → Costs k (f a))
      → r.1.requests ≤ c + n
      → (continue r f).1.requests ≤ c + (n + k)
  continue-Costs n k c (ok a, w) f g h = omega (arith, g a w)
  continue-Costs n k c (err e, w) f g h = omega arith

  pub Costs->>= {μ ν} :
      {A : Type μ} {B : Type ν} (n k : ℕ) (m : Call C A) (f : A → Call C B)
      → Costs n m
      → ((a : A) → Costs k (f a))
      → Costs (n + k) (m >>= f)
  Costs->>= n k m f h g w = continue-Costs n k w.requests (m w) f g (h w)

-- Inversion of a call that succeeds.
pub call-eq-ok {ℓ κ μ} :
    {C : Type ℓ} {A : Type κ} {B : Type μ} (m : Call C A) (f : A → Call C B) (w : World C) {b : B}
    {w' : World C}
    → (m >>= f) w ≡ (ok b, w')
    → (a : A) × (v : World C) × (m w ≡ (ok a, v)) × (f a v ≡ (ok b, w'))
call-eq-ok {C} {A} {B} m f w {b} {w'} h = split (m w) refl h
  where
    split :
        (r : Result A × World C)
        → m w ≡ r
        → continue r f ≡ (ok b, w')
        → (a : A) × (v : World C) × (m w ≡ (ok a, v)) × (f a v ≡ (ok b, w'))
    split (ok a, v) e h = (a, v, e, h)
    split (err x, v) e h = cc

-- A result that is only worked on leaves the world as it was.
pub after-lift {ℓ κ μ} :
    {C : Type ℓ} {A : Type κ} {B : Type μ} (r : Result A × World C) (f : A → Result B)
    → (continue r (λ a. lift (f a))).1 ≡ r.1
after-lift (ok a, w) f = refl
after-lift (err e, w) f = refl

-- Inversion of a call that raises, where only its first part can.
pub call-eq-err {ℓ κ μ} :
    {C : Type ℓ} {A : Type κ} {B : Type μ} (m : Call C A) (f : A → Call C B) (w : World C)
    {e : Exception} {w' : World C}
    → ((a : A) (u : World C) (x : Exception) (v : World C) → f a u ≢ (err x, v))
    → (m >>= f) w ≡ (err e, w')
    → (m w).1 ≡ w'
call-eq-err {C} {A} {B} m f w {e} {w'} never h = split (m w) h
  where
    split : (r : Result A × World C) → continue r f ≡ (err e, w') → r.1 ≡ w'
    split (ok a, v) h = elim (never a v e w' h) [ ]
    split (err x, v) h = ap (λ p. p.1) h

-- Its result is worked on.
pub lift_result {ℓ κ μ} :
    {C : Type ℓ} {A : Type κ} {B : Type μ} (r : Result A × World C) (f : A → Result B)
    → (continue r (λ a. lift (f a))).0 ≡ Exceptions.◌>>=◌ r.0 f
lift_result (ok a, w) f = refl
lift_result (err e, w) f = refl
