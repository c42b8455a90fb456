-- ===== src/Utils.antt =====
-- jwt/utils.py, a child for each group of its functions, and the property theorems in children of those.
pub mod Base64
pub mod Integers
pub mod Signatures
pub mod KeyFormats
