-- ===== src/Algorithms/Keys.antt =====
-- Keys, and what the algorithms use of packages that are not the repository's: jwt/algorithms/
-- algorithms_crypto.py imports the cryptography package, and hashlib, hmac and json are Python's.
use refactoring_pyjwt.Prelude.{ℕ, String, Bool, true, false, Option, Bytes}
use refactoring_pyjwt.Prelude.Int.{ℤ}
use refactoring_pyjwt.Exceptions.{Result}
use refactoring_pyjwt.Values.{Value}
use refactoring_pyjwt.Utils.Base64.{StrOrBytes}
use refactoring_pyjwt.Utils.Signatures.{DssCodec}

pub data Hash : Type 0 where
  sha256 sha384 sha512 : Hash

abbrev pub digest_size : Hash → ℕ
digest_size sha256 = 32
digest_size sha384 = 48
digest_size sha512 = 64

-- The curves that the code names, and any other, by its key_size.
pub data Curve : Type 0 where
  secp256r1 secp384r1 secp521r1 secp256k1 : Curve
  other_curve : ℕ → Curve

abbrev pub key_size : Curve → ℕ
key_size secp256r1 = 256
key_size secp384r1 = 384
key_size secp521r1 = 521
key_size secp256k1 = 256
key_size (other_curve n) = n

-- `isinstance(a, type of b)`
abbrev pub same_curve : Curve → Curve → Bool
same_curve secp256r1 secp256r1 = true
same_curve secp384r1 secp384r1 = true
same_curve secp521r1 secp521r1 = true
same_curve secp256k1 secp256k1 = true
same_curve _ _ = false

pub data EdwardsCurve : Type 0 where
  ed25519 ed448 : EdwardsCurve

pub record RsaPublicNumbers : Type 0 where
  pub e : ℕ
  pub n : ℕ

pub record RsaPrivateNumbers : Type 0 where
  pub d : ℕ
  pub p : ℕ
  pub q : ℕ
  pub dmp1 : ℕ
  pub dmq1 : ℕ
  pub iqmp : ℕ
  pub public_numbers : RsaPublicNumbers

pub record EcPublicNumbers : Type 0 where
  pub x : ℕ
  pub y : ℕ
  pub curve : Curve

-- The package's key objects, by class and by the numbers or bytes that determine them. The last
-- constructor is a key of a family that no algorithm here accepts.
pub data CryptoKey : Type 0 where
  rsa_public : RsaPublicNumbers → CryptoKey
  rsa_private : RsaPrivateNumbers → CryptoKey
  ec_public : EcPublicNumbers → CryptoKey
  ec_private : ℕ → EcPublicNumbers → CryptoKey
  okp_public : EdwardsCurve → Bytes → CryptoKey
  okp_private : EdwardsCurve → Bytes → CryptoKey
  other_key : ℕ → CryptoKey

pub data Scheme : Type 0 where
  pkcs1v15 pss ecdsa : Hash → Scheme
  eddsa : Scheme

-- The calls of the cryptography package. A wrong signature is an InvalidSignature.
pub record Cryptography : Type 0 where
  pub load_pem_public_key : Bytes → Result CryptoKey
  pub load_pem_private_key : Bytes → Result CryptoKey
  pub load_ssh_public_key : Bytes → Result CryptoKey
  pub public_key : CryptoKey → CryptoKey
  pub sign : Scheme → CryptoKey → (msg : Bytes) → Result Bytes
  pub verify : Scheme → CryptoKey → (sig msg : Bytes) → Result (Unit {0})
  pub dss : DssCodec
  -- `numbers.public_key()`, `numbers.private_key()`: these check the numbers.
  pub rsa_public_key : RsaPublicNumbers → Result CryptoKey
  pub rsa_private_key : RsaPrivateNumbers → Result CryptoKey
  pub rsa_recover_prime_factors : (n d e : ℕ) → Result (ℕ × ℕ)
  pub rsa_crt_dmp1 : (d p : ℕ) → ℕ
  pub rsa_crt_dmq1 : (d q : ℕ) → ℕ
  pub rsa_crt_iqmp : (p q : ℕ) → ℕ
  pub ec_public_key : EcPublicNumbers → Result CryptoKey
  pub ec_private_key : ℕ → EcPublicNumbers → Result CryptoKey
  pub from_public_bytes : EdwardsCurve → Bytes → Result CryptoKey
  pub from_private_bytes : EdwardsCurve → Bytes → Result CryptoKey

-- What the code runs in: `has_crypto` says whether the cryptography package is there.
pub record Env : Type 0 where
  pub has_crypto : Bool
  pub cryptography : Cryptography
  pub hmac_digest : Hash → (key msg : Bytes) → Bytes
  pub hash_digest : Hash → Bytes → Bytes
  pub json_loads : StrOrBytes → Result Value
  pub json_dumps : (sort_keys : Bool) → Value → Result String
  -- `int(s)`; none is a ValueError
  pub int_of_str : String → Option ℤ

-- The objects that a caller may pass as a key, or that `prepare_key` returns.
pub data KeyObject : Type 0 where
  no_key : KeyObject
  text : String → KeyObject
  raw : Bytes → KeyObject
  crypto : CryptoKey → KeyObject
  other_object : KeyObject

abbrev pub str_or_bytes : KeyObject → StrOrBytes
str_or_bytes (text s) = StrOrBytes.str s
str_or_bytes (raw b) = StrOrBytes.bytes b
str_or_bytes _ = StrOrBytes.other

-- The values of a message about a key below the recommended size.
pub record ShortKey : Type 0 where
  pub length : ℕ
  pub minimum : ℕ

-- A subclass of Algorithm that a user registers.
pub record CustomAlgorithm : Type 0 where
  pub prepare_key : KeyObject → Result KeyObject
  pub sign : (msg : Bytes) → KeyObject → Result Bytes
  pub verify : (msg : Bytes) → KeyObject → (sig : Bytes) → Result Bool
  pub check_key_length : KeyObject → Option ShortKey

-- The instances of Algorithm, by class and by the attributes given to `__init__`.
pub data Algorithm : Type 0 where
  none_algorithm : Algorithm
  hmac_algorithm rsa_algorithm rsa_pss_algorithm : Hash → Algorithm
  ec_algorithm : Hash → Option Curve → Algorithm
  okp_algorithm : Algorithm
  custom_algorithm : CustomAlgorithm → Algorithm
