-- ===== src/Jwt/Claims/Window.antt =====
-- The times at which a payload is accepted, and the leeway.
use refactoring_pyjwt.Prelude.{Bool, true, false, ◌≡◌}
use refactoring_pyjwt.Prelude.Int.{
  ℤ, ◌≤ℤ◌, ◌+ℤ◌, ◌-ℤ◌, ≤ℤ_trans, <ℤ-≤ℤ_trans, +ℤ_mono, +ℤ_mono_right, -ℤ_mono, -ℤ_anti,
}
use refactoring_pyjwt.Exceptions.{ok}
use refactoring_pyjwt.Values.{Dict}
use refactoring_pyjwt.Algorithms.Keys.{Env}
use refactoring_pyjwt.Jwt.Options.{FullOptions}
use refactoring_pyjwt.Jwt.Claims.{
  Expected, Leeway, TimeClaim, micros, total_seconds, validate_claims,
}
use refactoring_pyjwt.Jwt.Claims.Times.{IsPast, IsFuture}
use refactoring_pyjwt.Jwt.Claims.Accepted.{Asked, validate_claims_lem}

Asked_map : (b : Bool) {P Q : Type 0} → (P → Q) → Asked b P → Asked b Q
Asked_map true f p = f p
Asked_map false f p = p

module _ (env : Env) (payload : Dict) (claim : TimeClaim) (now now' leeway leeway' : ℤ) where
  IsPast-mono :
      now +ℤ leeway ≤ℤ now' +ℤ leeway'
      → IsPast env payload now leeway claim
      → IsPast env payload now' leeway' claim
  IsPast-mono h p = record {
    time = p.time;
    is_time = p.is_time;
    in_time = ≤ℤ_trans (micros p.time) (now +ℤ leeway) (now' +ℤ leeway') p.in_time h;
  }

  IsFuture-anti :
      now' -ℤ leeway' ≤ℤ now -ℤ leeway
      → IsFuture env payload now leeway claim
      → IsFuture env payload now' leeway' claim
  IsFuture-anti h p = record {
    time = p.time;
    is_time = p.is_time;
    in_time = <ℤ-≤ℤ_trans (now' -ℤ leeway') (now -ℤ leeway) (micros p.time) p.in_time h;
  }

module _ (env : Env) (payload : Dict) (options : FullOptions) (expected : Expected) where
  -- The times at which a payload is accepted form an interval: if it is accepted at two times, it
  -- is at every time between them.
  pub accepted_between :
      (first now final : ℤ)
      → first ≤ℤ now
      → now ≤ℤ final
      → validate_claims env payload options expected first ≡ ok tt
      → validate_claims env payload options expected final ≡ ok tt
      → validate_claims env payload options expected now ≡ ok tt
  accepted_between first now final after before a c =
      let l = total_seconds expected.leeway in
      let early = (validate_claims_lem env payload options expected first).0 a in
      let late = (validate_claims_lem env payload options expected final).0 c in
      (validate_claims_lem env payload options expected now).1 (record {
        audience_type = early.audience_type;
        required = early.required;
        issuer = early.issuer;
        audience = early.audience;
        subject = early.subject;
        jti = early.jti;
        issued =
            Asked_map _ (IsPast-mono env payload _ first now l l (+ℤ_mono first now l after))
              early.issued;
        mature =
            Asked_map _ (IsPast-mono env payload _ first now l l (+ℤ_mono first now l after))
              early.mature;
        alive =
            Asked_map _ (IsFuture-anti env payload _ final now l l (-ℤ_mono now final l before))
              late.alive;
      })

  -- A payload that is accepted stays accepted with a greater leeway.
  pub leeway_mono :
      (now : ℤ) (leeway : Leeway)
      → total_seconds expected.leeway ≤ℤ total_seconds leeway
      → validate_claims env payload options expected now ≡ ok tt
      → validate_claims env payload options (record expected { leeway = leeway }) now ≡ ok tt
  leeway_mono now leeway h a =
      let l = total_seconds expected.leeway in
      let m = total_seconds leeway in
      let r = (validate_claims_lem env payload options expected now).0 a in
      (validate_claims_lem env payload options (record expected { leeway = leeway }) now).1
        (record {
          audience_type = r.audience_type;
          required = r.required;
          issued =
              Asked_map _ (IsPast-mono env payload _ now now l m (+ℤ_mono_right l m now h))
                r.issued;
          mature =
              Asked_map _ (IsPast-mono env payload _ now now l m (+ℤ_mono_right l m now h))
                r.mature;
          alive = Asked_map _ (IsFuture-anti env payload _ now now l m (-ℤ_anti l m now h)) r.alive;
          issuer = r.issuer;
          audience = r.audience;
          subject = r.subject;
          jti = r.jti;
        })
