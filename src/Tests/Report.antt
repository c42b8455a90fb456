-- ===== src/Tests/Report.antt =====
-- Reports on versions.
use refactoring_pyjwt.Prelude.{String, none, [], ◌∷◌, ◌≡◌, refl}
use refactoring_pyjwt.Exceptions.{Result, ok, raise, key_error, os_error, handling}
use refactoring_pyjwt.Values.{str, dict, fields, Dict}
use refactoring_pyjwt.Help.{Platform, info, decimal, digits}

abbrev platform : Result String → String → String → Platform
platform release implementation level = record {
  system = ok "Linux";
  release = release;
  python_implementation = implementation;
  python_version = "3.12.1";
  pypy_version_info = record { major = 7; minor = 3; micro = 15; releaselevel = level };
  cryptography = none;
}

abbrev report : (system release implementation version : String) → Dict
report system release implementation version =
    ("platform", dict (fields (("system", str system) ∷ ("release", str release) ∷ [])))
    ∷ (
      "implementation",
      dict (fields (("name", str implementation) ∷ ("version", str version) ∷ [])),
    )
    ∷ ("cryptography", dict (fields (("version", str "") ∷ [])))
    ∷ ("pyjwt", dict (fields (("version", str "2.12.1") ∷ [])))
    ∷ []

on_cpython :
    info (platform (ok "6.1") "CPython" "final") ≡ ok (report "Linux" "6.1" "CPython" "3.12.1")
unfolding info handling
on_cpython = refl

on_pypy : info (platform (ok "6.1") "PyPy" "beta") ≡ ok (report "Linux" "6.1" "PyPy" "7.3.15beta")
unfolding info handling digits
on_pypy = refl

on_pypy_final :
    info (platform (ok "6.1") "PyPy" "final") ≡ ok (report "Linux" "6.1" "PyPy" "7.3.15")
unfolding info handling digits
on_pypy_final = refl

unknown_release :
    info (platform (raise os_error) "Jython" "final")
    ≡ ok (report "Unknown" "Unknown" "Jython" "Unknown")
unfolding info handling
unknown_release = refl

other_error : info (platform (raise key_error) "CPython" "final") ≡ raise key_error
unfolding info handling
other_error = refl

zero_digits : decimal 0 ≡ "0"
unfolding digits
zero_digits = refl
