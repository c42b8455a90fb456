-- ===== src/Utils/KeyFormats.antt =====
-- jwt/utils.py: `is_pem_format` and `is_ssh_key`, which keep asymmetric keys from being used as
-- HMAC secrets.
pub mod Pem
use refactoring_pyjwt.Prelude.{
  ℕ, zero, suc, String, Bool, true, false, ◌&&◌, ◌||◌, List, [], ◌∷◌, Bytes, ◌==◌, any, map,
}
use refactoring_pyjwt.Text.{encode_utf8, starts_with}

-- The set _PEMS. Its order decides nothing: the search tries every name.
unfoldable pub pems : List Bytes
unfolding encode_utf8
pems = map encode_utf8 (
    "CERTIFICATE" ∷ "TRUSTED CERTIFICATE" ∷ "PRIVATE KEY" ∷ "PUBLIC KEY" ∷ "ENCRYPTED PRIVATE KEY"
    ∷ "OPENSSH PRIVATE KEY" ∷ "DSA PRIVATE KEY" ∷ "RSA PRIVATE KEY" ∷ "RSA PUBLIC KEY"
    ∷ "EC PRIVATE KEY" ∷ "DH PARAMETERS" ∷ "NEW CERTIFICATE REQUEST" ∷ "CERTIFICATE REQUEST"
    ∷ "SSH2 PUBLIC KEY" ∷ "SSH2 ENCRYPTED PRIVATE KEY" ∷ "X509 CRL" ∷ [])

-- A regular expression matches at the head of a byte string if some way of reading it goes on to
-- a rest that the continuation accepts. These are the pieces of _PEM_RE in that style.
abbrev pub Matcher : Type 0
Matcher = (Bytes → Bool) → Bytes → Bool

-- A literal.
unfoldable pub lit : Bytes → Matcher
lit [] k b = k b
lit (x ∷ p) k [] = false
lit (x ∷ p) k (y ∷ b) = (x == y) && lit p k b

-- `[- ]`
unfoldable pub dash_or_space : Matcher
dash_or_space k [] = false
dash_or_space k (x ∷ b) = ((x == b'-') || (x == b' ')) && k b

-- `\r?`
unfoldable pub cr? : Matcher
cr? k [] = k []
cr? k (x ∷ b) = ((x == 13) && k b) || k (x ∷ b)

-- `.*?` with DOTALL; `.+?` is this behind one byte.
unfoldable pub any_bytes : Matcher
any_bytes k [] = k []
any_bytes k (x ∷ b) = k (x ∷ b) || any_bytes k b

unfoldable pub some_bytes : Matcher
unfolding any_bytes
some_bytes k [] = false
some_bytes k (x ∷ b) = any_bytes k b

abbrev pub newline : Bytes
newline = 10 ∷ []

-- From the label on, the same in the first line and in the last.
unfoldable pub label_end : Bytes → Matcher
unfolding lit dash_or_space encode_utf8
label_end name k = lit name (dash_or_space (lit (encode_utf8 "----") k))

-- The last line. The end of the pattern, `\r?\n?`, matches whatever follows.
unfoldable pub footer : Bytes → Bytes → Bool
unfolding label_end cr?
footer name = cr? (
    lit newline (
      lit (encode_utf8 "----")
        (dash_or_space (lit (encode_utf8 "END ") (label_end name (λ _. true))))))

unfoldable pub pem_at : Bytes → Bytes → Bool
unfolding footer some_bytes
pem_at name = lit (encode_utf8 "----") (
    dash_or_space
      (lit (encode_utf8 "BEGIN ") (label_end name (cr? (lit newline (some_bytes (footer name)))))))

-- `bool(_PEM_RE.search(key))`: at any position, for any name.
search_pem : Bytes → Bool
search_pem [] = any (λ name. pem_at name []) pems
search_pem (x ∷ b) = any (λ name. pem_at name (x ∷ b)) pems || search_pem b

unfoldable pub is_pem_format : Bytes → Bool
unfolding search_pem pem_at pems
is_pem_format key = search_pem key

unfoldable pub ssh_key_formats : List Bytes
unfolding encode_utf8
ssh_key_formats = map encode_utf8 (
    "ssh-ed25519" ∷ "ssh-rsa" ∷ "ssh-dss" ∷ "ecdsa-sha2-nistp256" ∷ "ecdsa-sha2-nistp384"
    ∷ "ecdsa-sha2-nistp521" ∷ [])

-- `key.startswith(_SSH_KEY_FORMATS)`
unfoldable pub is_ssh_key : Bytes → Bool
unfolding ssh_key_formats starts_with
is_ssh_key key = any (λ format. starts_with format key) ssh_key_formats
