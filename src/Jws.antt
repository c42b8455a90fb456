-- ===== src/Jws.antt =====
-- jwt/api_jws.py: the class PyJWS. Its state is `PyJws`; the children have its methods.
pub mod State
pub mod Headers
pub mod Keys
pub mod Encode
pub mod Token
pub mod Decode
pub mod RoundTrip
