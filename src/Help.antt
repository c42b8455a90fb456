-- ===== src/Help.antt =====
-- jwt/help.py: the report on versions, `info()`, and the version in jwt/__init__.py. What the modules
-- platform and sys answer is a parameter, and so is the version of the cryptography package, if it is
-- installed. `main` prints the report and is left out.
pub mod Digits
use Prim.Native.String.{◌++◌ as ◌<>◌, char_at}
use refactoring_pyjwt.Prelude.{
  ℕ, zero, suc, ◌+◌, ◌*◌, ◌/◌, ◌%◌, ◌≤◌, ◌<◌, String, List, [], ◌∷◌, ◌≡◌, refl, Option, none, some,
  str_eq, ltb, not, if◌then◌else◌, arith,
}
use refactoring_pyjwt.Exceptions.{Result, ok, ◌>>=◌, os_error, handling}
use refactoring_pyjwt.Values.{Value, str, dict, Dict, fields}

-- `sys.pypy_version_info`
pub record PypyVersion : Type 0 where
  pub major : ℕ
  pub minor : ℕ
  pub micro : ℕ
  pub releaselevel : String

pub record Platform : Type 0 where
  pub system : Result String
  pub release : Result String
  pub python_implementation : String
  pub python_version : String
  pub pypy_version_info : PypyVersion
  -- none if `import cryptography` raises a ModuleNotFoundError
  pub cryptography : Option String

abbrev pyjwt_version : String
pyjwt_version = "2.12.1"

-- The decimal digits of a number, the last one first.
unfoldable pub digits : (fuel n : ℕ) → List ℕ
digits zero n = []
digits (suc fuel) n = let rest = digits fuel (n / 10) in n % 10 ∷ (if ltb n 10 then [] else rest)

abbrev text_of : List ℕ → String
text_of [] = ""
text_of (d ∷ ds) = text_of ds <> String.◌∷◌ (char_at "0123456789" d) String.[]

-- `str(n)`
abbrev pub decimal : ℕ → String
decimal n = text_of (digits (suc n) n)

-- `platform_info`
abbrev platform_info : Platform → Result Dict
platform_info p =
    handling os_error (ok (("system", str "Unknown") ∷ ("release", str "Unknown") ∷ [])) (do
      system ← p.system
      release ← p.release
      ok (("system", str system) ∷ ("release", str release) ∷ []))

abbrev pypy_version : PypyVersion → String
pypy_version v =
    let numbers = decimal v.major <> "." <> decimal v.minor <> "." <> decimal v.micro in
    if not (str_eq v.releaselevel "final") then numbers <> v.releaselevel else numbers

abbrev implementation_version : Platform → String
implementation_version p =
    if str_eq p.python_implementation "CPython"
    then p.python_version
    else if str_eq p.python_implementation "PyPy"
    then pypy_version p.pypy_version_info
    else "Unknown"

abbrev cryptography_version : Option String → String
cryptography_version none = ""
cryptography_version (some version) = version

-- `info()`
unfoldable pub info : Platform → Result Dict
info p = do
  platform_info ← platform_info p
  ok (
      ("platform", dict (fields platform_info))
      ∷ (
        "implementation",
        dict (
            fields (
              ("name", str p.python_implementation)
              ∷ ("version", str (implementation_version p))
              ∷ [])),
      )
      ∷ (
        "cryptography",
        dict (fields (("version", str (cryptography_version p.cryptography)) ∷ [])),
      )
      ∷ ("pyjwt", dict (fields (("version", str pyjwt_version) ∷ [])))
      ∷ [])
