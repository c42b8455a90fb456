-- ===== src/Algorithms/Jwk.antt =====
-- jwt/algorithms/algorithms_jwk.py: the helpers for keys in JSON form.
pub mod Texts
use refactoring_pyjwt.Prelude.{
  ℕ, String, Bool, true, false, not, ◌&&◌, ◌||◌, Option, none, some, List, [], ◌∷◌, ◌==◌, Bytes,
  any, all, map, if◌then◌else◌,
}
use refactoring_pyjwt.Prelude.Int.{pos}
use refactoring_pyjwt.Exceptions.{
  Result, ok, raise, raise_if, catching, value_error, key_error, attribute_error, invalid_key_error,
  ◌>>=◌, ◌>>◌,
}
use refactoring_pyjwt.Values.{Value, str, dict, Dict, as_dict, get, has, find, fields}
use refactoring_pyjwt.Text.{decode_utf8}
use refactoring_pyjwt.Utils.Base64.{StrOrBytes, base64url_encode}
use refactoring_pyjwt.Utils.Integers.{to_base64url_uint, from_base64url_uint}
use refactoring_pyjwt.Algorithms.Keys.{
  Env, Curve, secp256r1, secp384r1, secp521r1, secp256k1, same_curve, RsaPublicNumbers,
  RsaPrivateNumbers,
}

-- A value, as `force_bytes` takes it.
abbrev pub input_of : Value → StrOrBytes
input_of (str s) = StrOrBytes.str s
input_of _ = StrOrBytes.other

-- `obj[k]`
abbrev pub item : String → Dict → Result Value
item k obj = elim (get k obj) [ none ↦ raise key_error | some v ↦ ok v ]

-- `obj.get(…)`, for what `json.loads` gave: only a dict has the method.
abbrev pub need_dict : Value → Result Dict
need_dict v = elim (as_dict v) [ none ↦ raise attribute_error | some d ↦ ok d ]

abbrev parse_input : Env → Value → Result Value
parse_input env (str s) = env.json_loads (StrOrBytes.str s)
parse_input env (dict fs) = ok (dict fs)
parse_input env _ = raise value_error

unfoldable pub parse_jwk_json : Env → Value → Result Value
parse_jwk_json env jwk = catching value_error invalid_key_error (parse_input env jwk)

-- Without `sort_keys` `json.dumps` keeps the order of the dict.
unfoldable pub serialize_jwk : Env → Dict → (as_dict : Bool) → Result Value
serialize_jwk env obj true = ok (dict (fields obj))
serialize_jwk env obj false = do s ← env.json_dumps false (dict (fields obj)); ok (str s)

-- `_JWK_EC_CURVES`
abbrev pub jwk_ec_curves : List (String × Curve × ℕ)
jwk_ec_curves =
    ("P-256", secp256r1, 32)
    ∷ ("P-384", secp384r1, 48)
    ∷ ("P-521", secp521r1, 66)
    ∷ ("secp256k1", secp256k1, 32)
    ∷ []

abbrev curve_entries : List (String × Curve × ℕ) → List (String × (Curve × ℕ))
curve_entries = map (λ e. (e.0, (e.1, e.2)))

-- x_len and y_len are the byte lengths of the coordinates.
unfoldable pub resolve_ec_curve_from_jwk : Env → (crv : Value) → (x_len y_len : ℕ) → Result Curve
resolve_ec_curve_from_jwk env crv x_len y_len =
    if not env.has_crypto then raise invalid_key_error else do
      found ← find crv (curve_entries jwk_ec_curves)
      elim found [
        | none ↦ raise invalid_key_error
        | some (curve, expected_len) ↦ do
          raise_if (not (x_len == expected_len) || not (y_len == expected_len)) invalid_key_error
          ok curve
      ]

first_name : Curve → List (String × Curve × ℕ) → Result String
first_name curve [] = raise invalid_key_error
first_name curve ((name, c, len) ∷ rest) =
    if same_curve curve c then ok name else first_name curve rest

unfoldable pub jwk_curve_name : Env → Curve → Result String
unfolding first_name
jwk_curve_name env curve =
    if not env.has_crypto then raise invalid_key_error else first_name curve jwk_ec_curves

abbrev pub uint_item : String → Dict → Result ℕ
uint_item k obj = do v ← item k obj; from_base64url_uint (input_of v)

-- `to_base64url_uint(n, bit_length=…).decode()`
abbrev pub uint_text : ℕ → Option ℕ → Result Value
uint_text n bits = do b ← to_base64url_uint (pos n) bits; s ← decode_utf8 b; ok (str s)

-- `base64url_encode(b).decode()`
abbrev pub bytes_text : Bytes → Result Value
bytes_text b = do s ← decode_utf8 (base64url_encode b); ok (str s)

crt_numbers : Dict → RsaPublicNumbers → Result RsaPrivateNumbers
crt_numbers obj public_numbers = do
  d ← uint_item "d" obj
  p ← uint_item "p" obj
  q ← uint_item "q" obj
  dp ← uint_item "dp" obj
  dq ← uint_item "dq" obj
  qi ← uint_item "qi" obj
  ok (record {
    d = d;
    p = p;
    q = q;
    dmp1 = dp;
    dmq1 = dq;
    iqmp = qi;
    public_numbers = public_numbers;
  })

recovered_numbers : Env → Dict → RsaPublicNumbers → Result RsaPrivateNumbers
recovered_numbers env obj public_numbers = do
  d ← uint_item "d" obj
  (p, q) ← env.cryptography.rsa_recover_prime_factors public_numbers.n d public_numbers.e
  ok (record {
    d = d;
    p = p;
    q = q;
    dmp1 = env.cryptography.rsa_crt_dmp1 d p;
    dmq1 = env.cryptography.rsa_crt_dmq1 d q;
    iqmp = env.cryptography.rsa_crt_iqmp p q;
    public_numbers = public_numbers;
  })

abbrev pub other_props : List String
other_props = "p" ∷ "q" ∷ "dp" ∷ "dq" ∷ "qi" ∷ []

unfoldable pub rsa_private_numbers_from_jwk :
    Env → Dict → RsaPublicNumbers → Result RsaPrivateNumbers
unfolding crt_numbers recovered_numbers
rsa_private_numbers_from_jwk env obj public_numbers =
    if not env.has_crypto then raise invalid_key_error else do
      raise_if (has "oth" obj) invalid_key_error
      let found = map (λ prop. has prop obj) other_props
      let any_found = any (λ b. b) found
      raise_if (any_found && not (all (λ b. b) found)) invalid_key_error
      if any_found then crt_numbers obj public_numbers else recovered_numbers env obj public_numbers
