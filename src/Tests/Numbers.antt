-- ===== src/Tests/Numbers.antt =====
-- Encodings of bytes, numbers and signatures.
use refactoring_pyjwt.Prelude.{some, [], ◌∷◌, Bytes, All, IsByte, ◌≡◌, refl, arith}
use refactoring_pyjwt.Prelude.Int.{pos}
use refactoring_pyjwt.Exceptions.{ok}
use refactoring_pyjwt.Utils.Base64.{bytes, base64url_encode, base64url_decode}
use refactoring_pyjwt.Utils.Base64.RoundTrip.{
  IsUrlChar, base64url_decode-base64url_encode, base64url_encode-IsUrlChar,
}
use refactoring_pyjwt.Utils.Integers.{to_base64url_uint, from_base64url_uint}
use refactoring_pyjwt.Utils.Integers.RoundTrip.{from_base64url_uint-to_base64url_uint}
use refactoring_pyjwt.Utils.Signatures.{der_to_raw_signature, raw_to_der_signature}
use refactoring_pyjwt.Utils.Signatures.RoundTrip.{der_to_raw_signature-raw_to_der_signature}
use refactoring_pyjwt.Tests.{codec}

abbrev two : Bytes
two = 200 ∷ 7 ∷ []

two_bytes : All IsByte two
two_bytes = (omega arith, (omega arith, tt))

base64url_decode-base64url_encode_example : base64url_decode (bytes (base64url_encode two)) ≡ ok two
base64url_decode-base64url_encode_example = base64url_decode-base64url_encode two two_bytes

base64url_encode-IsUrlChar_example : All IsUrlChar (base64url_encode two)
base64url_encode-IsUrlChar_example = base64url_encode-IsUrlChar two two_bytes

from_base64url_uint-to_base64url_uint_example :
    (b : Bytes) × (to_base64url_uint (pos 65537) (some 24) ≡ ok b)
    × (from_base64url_uint (bytes b) ≡ ok 65537)
from_base64url_uint-to_base64url_uint_example =
    from_base64url_uint-to_base64url_uint 65537 (some 24) (omega arith)

-- A curve of 8 bits, so that r and s have one byte each.
der_to_raw_signature-raw_to_der_signature_example :
    (der : Bytes) × (raw_to_der_signature codec two 8 ≡ ok der)
    × (der_to_raw_signature codec der 8 ≡ ok two)
der_to_raw_signature-raw_to_der_signature_example =
    der_to_raw_signature-raw_to_der_signature codec two 8 (omega arith) two_bytes refl (λ r s. refl)
