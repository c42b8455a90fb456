-- ===== src/Algorithms.antt =====
-- jwt/algorithms/: the algorithm objects and the keys that they take.
pub mod Keys
pub mod Jwk
pub mod Hmac
pub mod NoneAlgorithm
pub mod Rsa
pub mod Ec
pub mod Okp
pub mod Base
pub mod Registry
