-- ===== src/Utils/Base64/Errors.antt =====
-- The exceptions of `base64url_decode` on bytes.
use refactoring_pyjwt.Prelude.{ℕ, map, [], ◌∷◌, Bytes, ◌≡◌, refl}
use refactoring_pyjwt.Exceptions.{Exception, Result, ok, err, raised, binascii_error}
use refactoring_pyjwt.Exceptions.Errors.{Only}
use refactoring_pyjwt.Utils.Base64.{
  bytes, base64url_decode, force_bytes, urlsafe_b64decode, a2b_base64, at_end, Quad, quad0,
  pad_to_quads, act, stop, skip, keep, emit, push_byte, from_urlsafe,
}

abbrev pub IsBinascii : Exception → Type 0
IsBinascii e = e ≡ raised binascii_error

push_byte-IsBinascii :
    (b : ℕ) (r : Result Bytes) → Only IsBinascii r → Only IsBinascii (push_byte b r)
push_byte-IsBinascii b (ok r) h = tt
push_byte-IsBinascii b (err e) h = h

at_end-IsBinascii : (q : Quad) → Only IsBinascii (at_end q)
unfolding at_end
at_end-IsBinascii quad0 = tt
at_end-IsBinascii _ = refl

a2b_base64-IsBinascii :
    (b : Bytes) (quad : Quad) (pads : ℕ) → Only IsBinascii (a2b_base64 b quad pads)
unfolding a2b_base64
a2b_base64-IsBinascii [] quad pads = at_end-IsBinascii quad
a2b_base64-IsBinascii (c ∷ r) quad pads =
    let ih = a2b_base64-IsBinascii r in
    elim (act c quad pads)
      as (λ x. Only IsBinascii (elim x [
        | stop ↦ ok []
        | skip pads' ↦ a2b_base64 r quad pads'
        | keep quad' ↦ a2b_base64 r quad' 0
        | emit b quad' ↦ push_byte b (a2b_base64 r quad' 0)
      ])) [
        | stop ↦ tt
        | skip pads' ↦ ih quad pads'
        | keep quad' ↦ ih quad' 0
        | emit b quad' ↦ push_byte-IsBinascii b (a2b_base64 r quad' 0) (ih quad' 0)
      ]

-- Bytes that are not decoded are a binascii.Error.
pub base64url_decode-IsBinascii : (b : Bytes) → Only IsBinascii (base64url_decode (bytes b))
unfolding base64url_decode force_bytes urlsafe_b64decode
base64url_decode-IsBinascii b = a2b_base64-IsBinascii (map from_urlsafe (pad_to_quads b)) quad0 0
