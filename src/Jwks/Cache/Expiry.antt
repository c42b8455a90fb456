-- ===== src/Jwks/Cache/Expiry.antt =====
-- When a cached key set is there, and when it has expired.
use refactoring_pyjwt.Prelude.{true, false, ◌≡◌, inl, inr, Bool-cases, arith}
use refactoring_pyjwt.Prelude.Int.{ℤ, pos, ◌+ℤ◌, ◌≤ℤ◌, ◌<ℤ◌, ltb_ℤ}
use refactoring_pyjwt.Values.{Value, null}
use refactoring_pyjwt.Jwks.Cache.{JwkSetCache, is_none, forever, put, is_expired, get, get_reads}

-- A value other than None that has been put into a cache with a lifespan is there up to the end of
-- the lifespan, the last instant included, and from then on the cache gives None.
pub get-put :
    (v : Value) (then_ now : ℤ) (cache : JwkSetCache)
    → is_none v ≡ false
    → pos 0 <ℤ cache.lifespan
    → (now ≤ℤ then_ +ℤ cache.lifespan → get now (put v then_ cache) ≡ v)
      × (then_ +ℤ cache.lifespan <ℤ now → get now (put v then_ cache) ≡ null)
unfolding get put is_expired
get-put v then_ now cache some_set long =
    let counted : ltb_ℤ forever cache.lifespan ≡ true = ground arith in
    (
      λ early.
          let fresh : ltb_ℤ (then_ +ℤ cache.lifespan) now ≡ false = ground arith in
          rw (some_set, get, put, is_expired, counted, fresh, some_set),
      λ late.
          let stale : ltb_ℤ (then_ +ℤ cache.lifespan) now ≡ true = ground arith in
          rw (some_set, get, put, is_expired, counted, stale, some_set),
    )

-- Where `get` does not read the clock, the time does not matter.
pub get_unread :
    (cache : JwkSetCache) (s t : ℤ) → get_reads cache ≡ false → get s cache ≡ get t cache
unfolding get is_expired
get_unread cache s t h = elim (Bool-cases (is_none cache.jwk_set)) [
  | inl empty ↦ rw empty
  | inr full ↦ elim (Bool-cases (ltb_ℤ forever cache.lifespan)) [
    | inl counted ↦ let h' = rw (full, counted) at h in cc
    | inr endless ↦ rw (full, endless)
  ]
]
