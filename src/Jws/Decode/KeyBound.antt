-- ===== src/Jws/Decode/KeyBound.antt =====
-- Which algorithm verifies a signature when the key is a PyJWK.
