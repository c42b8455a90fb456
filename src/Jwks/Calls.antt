-- ===== src/Jwks/Calls.antt =====
-- Calls that act on a client, its endpoint and the clock, and may raise. The endpoint and the clock
-- are a parameter, Web, which says what each request and each reading of the clock gives, by their
-- numbers; a call counts them. A call that raises leaves the state that it has come to.
pub mod Rules
use refactoring_pyjwt.Prelude.{ℕ, ◌+◌, Bool, true, false, String, Option, Bytes, if◌then◌else◌}
use refactoring_pyjwt.Prelude.Int.{ℤ}
use refactoring_pyjwt.Exceptions.{Exception, Result, ok, err}
use refactoring_pyjwt.Values.{Dict}

-- What `urlopen` is given.
pub record Request : Type 0 where
  pub url : String
  pub headers : Dict
  pub timeout : ℤ
  -- some number of an SSLContext
  pub ssl_context : Option ℕ

-- `respond` is `urlopen` and the read of the response.
pub record Web : Type 0 where
  pub respond : Request → (number : ℕ) → Result Bytes
  pub monotonic : (number : ℕ) → ℤ

pub record World {ℓ} (C : Type ℓ) : Type ℓ where
  pub object : C
  pub requests : ℕ
  pub readings : ℕ

-- A call on an object of the type C.
abbrev pub Call {ℓ κ} : Type ℓ → Type κ → Type (ℓ ⊔ κ)
Call C A = World C → Result A × World C

module _ {ℓ κ μ} {C : Type ℓ} {A : Type κ} {B : Type μ} where
  abbrev pub continue : Result A × World C → (A → Call C B) → Result B × World C
  continue (err e, w) next = (err e, w)
  continue (ok a, w) next = next a w

  infixl 5 ◌>>=◌
  abbrev pub ◌>>=◌ : Call C A → (A → Call C B) → Call C B
  m >>= next = λ w. continue (m w) next

module _ {ℓ κ} {C : Type ℓ} {A : Type κ} where
  abbrev pub lift : Result A → Call C A
  lift r w = (r, w)

  abbrev pub gets : (C → A) → Call C A
  gets f w = (ok (f w.object), w)

module _ {ℓ} {C : Type ℓ} where
  abbrev pub modify : (C → C) → Call C (Unit {0})
  modify f w = (ok tt, record w { object = f w.object })

  -- The next reading of the clock.
  abbrev pub now : Web → Call C ℤ
  now web w = (ok (web.monotonic w.readings), record w { readings = w.readings + 1 })
