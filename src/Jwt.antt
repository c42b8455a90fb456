-- ===== src/Jwt.antt =====
-- jwt/api_jwt.py: the class PyJWT. Its state is `PyJwt`; the children have its methods.
pub mod Options
pub mod Claims
pub mod Encode
pub mod Decode
pub mod RoundTrip
pub mod Globals
