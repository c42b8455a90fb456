-- ===== src/Lib.antt =====
-- A verification library for PyJWT: JSON Web Tokens as the package jwt/ of this repository signs,
-- encodes, decodes and validates them.
--
-- The parts and the files that model them, each with the names of the code:
--   Exceptions        jwt/exceptions.py, the class tree and results of calls that may raise; the
--                     child Warned has jwt/warnings.py and the calls that issue warnings, the child
--                     Errors says which exceptions a call can raise
--   Text              Python's str and bytes: UTF-8 written out, split and rsplit at a dot
--   Utils             jwt/utils.py: Base64, Integers, Signatures (DER and raw), KeyFormats (the PEM
--                     pattern and the SSH prefixes)
--   Values            the values of JSON and datetime; a dict is the list of its items in order
--   Algorithms        jwt/algorithms/: Keys (key objects and what comes from other packages), Base,
--                     Jwk (algorithms_jwk.py), Hmac, NoneAlgorithm, Rsa, Ec, Okp, and Registry,
--                     which has get_default_algorithms and selects a method by an object's class
--   Jwk               jwt/api_jwk.py: PyJWK, and KeySet for PyJWKSet
--   Jws               jwt/api_jws.py: State (PyJWS and its registry), Headers, Keys, Encode, Token
--                     (_load), Decode
--   Jwt               jwt/api_jwt.py: Options, Claims (_validate_claims), Encode, Decode,
--                     and Globals, the objects of the modules
--   Jwks              jwt/jwks_client.py and jwt/jwk_set_cache.py: Cache (JWKSetCache), Calls (what a
--                     call on a client may do), Lru (functools.lru_cache as the client uses it) and
--                     Client (PyJWKClient), with Fetch (fetch_data, get_jwk_set) and Lookup
--                     (get_signing_keys, get_signing_key, get_signing_key_from_jwt, match_kid)
--   Help              jwt/help.py: info, the report on versions
--   Prelude           shared names, lists, integers, Boolean tests
--   Tests             a concrete environment and the theorems at concrete inputs
--
-- How they interact: Jwt calls Jws, which calls the Algorithms through their Registry; Jwk builds
-- keys with the same Registry and hands them to Jws. Jwks reads the header of a token with Jwt and
-- gets its key from an endpoint, by the key sets of Jwk. A method that may raise returns a Result,
-- one that may warn as well a Warned; a method that changes its object returns the new state, and
-- leaves the old one where it raises. An exception is its class, and the claim for a missing claim.
--
-- What comes from elsewhere is a field of the record Env, which the definitions take as an
-- argument: the cryptography package, hmac and hashlib, json.loads and json.dumps, and int() of a
-- text. The clock is the argument `now`. For Jwks, the endpoint and the monotonic clock are the
-- record Web, a response for each request and a time for each reading by their numbers, which a
-- World counts. The theorems state what they need of these as hypotheses.
--
-- Bounds: bytes are natural numbers below 256 where a theorem says so; integers have no bound, as
-- in Python. Loops are recursion on lists and digits, without fuel, but for the decimal digits of a
-- version number n in Help, whose fuel n + 1 is more than n has digits. The search for a PEM block
-- tries every way to match by continuations, so it needs no bound either. Times are whole
-- microseconds, where the code adds doubles.
--
-- A dict is the list of its items, whose order json.dumps with sort_keys changes: the header of a
-- token that encode has made, which sorts its keys by default, is read with the same items in another
-- order (SameItems in Values/Dicts). The claims are not sorted.
--
-- Not modelled: messages of exceptions and warnings, main of jwt/help.py, the exports of
-- jwt/__init__.py, the imports of jwt/algorithms/algorithms_crypto.py, and jwt/algorithms.py, which
-- the package of the same name shadows. docs/conf.py sets up the documentation. Lone surrogates,
-- which no JSON text in UTF-8 holds, are left out of texts. The argument `algorithms` is a list of
-- names or None: a text in its place, as in docs/usage.rst, where `in` finds parts of it, is left out.
pub mod Prelude
pub mod Exceptions
pub mod Text
pub mod Utils
pub mod Values
pub mod Algorithms
pub mod Jwk
pub mod Jws
pub mod Jwt
pub mod Jwks
pub mod Help
pub mod Tests
