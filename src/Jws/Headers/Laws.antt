-- ===== src/Jws/Headers/Laws.antt =====
-- The headers that `_validate_headers` accepts when a token is decoded.
use mathlib.Core.Path.{subst}
use refactoring_pyjwt.Prelude.{
  String, Bool, true, false, not, ◌||◌, Option, none, some, List, [], ◌∷◌, is_empty, elem, str_eq,
  eq_iff, All, ◌≡◌, ◌↔◌, ◌⊎◌, inl, inr, refl, ap, sym,
}
use refactoring_pyjwt.Exceptions.{ok, raise_if, raise_if_lem, >>_lem, invalid_token_error}
use refactoring_pyjwt.Values.{Value, Items, str, list, elems, Dict, get, has}
use refactoring_pyjwt.Jws.Headers.{
  validate_headers, check_kid, check_crit, check_extension, check_extensions, validate_crit,
  supported_crit,
}

-- An element of "crit" that passes: "b64", as a text, in a header that has that key too.
abbrev pub IsUnderstood : Dict → Value → Type 0
IsUnderstood headers ext = (ext ≡ str "b64") × (has "b64" headers ≡ true)

-- A "kid", if there is one, is a text.
abbrev pub KidFits : Dict → Type 0
KidFits headers = (get "kid" headers ≡ none) ⊎ ((s : String) × (get "kid" headers ≡ some (str s)))

-- A "crit", if there is one, is a nonempty list of extensions that are understood.
abbrev pub CritFits : Dict → Type 0
CritFits headers =
    (get "crit" headers ≡ none)
    ⊎ ((vs : Items) × (get "crit" headers ≡ some (list vs))
        × (is_empty (elems vs) ≡ false)
        × All (IsUnderstood headers) (elems vs))

check_kid_lem :
    (o : Option Value) → (check_kid o ≡ ok tt) ↔ ((o ≡ none) ⊎ ((s : String) × (o ≡ some (str s))))
check_kid_lem none = (λ h. inl refl, λ h. refl)
check_kid_lem (some (str s)) = (λ h. inr (s, refl), λ h. refl)
check_kid_lem (some _) = (λ h. cc, λ h. elim h [ inl e ↦ cc | inr (s, e) ↦ cc ])

not_elem_lem : (b : Bool) → (raise_if (not b) invalid_token_error ≡ ok tt) ↔ (b ≡ true)
not_elem_lem true = (λ h. refl, λ h. refl)
not_elem_lem false = (λ h. cc, λ h. cc)

alone : (b : Bool) → (b || false) ≡ true → b ≡ true
alone true h = refl
alone false h = h

check_extension_lem :
    (headers : Dict) (ext : Value)
    → (check_extension headers ext ≡ ok tt) ↔ IsUnderstood headers ext
unfolding check_extension
check_extension_lem headers (str ext) =
    let (split, join) =
      >>_lem (raise_if (not (elem ext supported_crit)) invalid_token_error)
        (raise_if (not (has ext headers)) invalid_token_error) in
    let (known, test) = eq_iff ext "b64" in
    (
      λ h.
          let same : ext ≡ "b64" =
            known
              (alone (str_eq ext "b64") ((not_elem_lem (elem ext supported_crit)).0 (split h).0)) in
          (
            ap str same,
            subst (λ k. has k headers ≡ true) same ((not_elem_lem (has ext headers)).0 (split h).1),
          ),
      λ (e, p).
          let same : ext ≡ "b64" = cc in
          join (
            (not_elem_lem (elem ext supported_crit)).1 (rw (test same)),
            (not_elem_lem (has ext headers)).1 (subst (λ k. has k headers ≡ true) (sym same) p),
          ),
    )
check_extension_lem headers _ = (λ h. cc, λ (e, p). cc)

check_extensions_lem :
    (headers : Dict) (crit : List Value)
    → (check_extensions headers crit ≡ ok tt) ↔ All (IsUnderstood headers) crit
unfolding check_extensions
check_extensions_lem headers [] = (λ h. tt, λ h. refl)
check_extensions_lem headers (ext ∷ crit) =
    let (split, join) = >>_lem (check_extension headers ext) (check_extensions headers crit) in
    let here = check_extension_lem headers ext in
    let there = check_extensions_lem headers crit in
    (λ h. (here.0 (split h).0, there.0 (split h).1), λ (p, q). join (here.1 p, there.1 q))

check_crit_lem :
    (headers : Dict) (o : Option Value)
    → (check_crit false headers o ≡ ok tt) ↔ (
        (o ≡ none)
        ⊎ ((vs : Items) × (o ≡ some (list vs))
            × (is_empty (elems vs) ≡ false)
            × All (IsUnderstood headers) (elems vs)))
unfolding validate_crit
check_crit_lem headers none = (λ h. inl refl, λ h. refl)
check_crit_lem headers (some (list vs)) =
    let (split, join) =
      >>_lem (raise_if (is_empty (elems vs)) invalid_token_error)
        (check_extensions headers (elems vs)) in
    let nonempty = raise_if_lem (is_empty (elems vs)) invalid_token_error in
    let understood = check_extensions_lem headers (elems vs) in
    (
      λ h. inr (vs, refl, nonempty.0 (split h).0, understood.0 (split h).1),
      λ h. elim h [
        | inl e ↦ cc
        | inr (ws, e, p, q) ↦
            let same : ws ≡ vs = cc in
            join (
              nonempty.1 (subst (λ us. is_empty (elems us) ≡ false) same p),
              understood.1 (subst (λ us. All (IsUnderstood headers) (elems us)) same q),
            )
      ],
    )
check_crit_lem headers (some _) = (λ h. cc, λ h. elim h [ inl e ↦ cc | inr (ws, e, p, q) ↦ cc ])

-- A header passes `_validate_headers` in decoding exactly if its "kid" and its "crit" fit.
pub validate_headers_lem :
    (headers : Dict)
    → (validate_headers false headers ≡ ok tt) ↔ (KidFits headers × CritFits headers)
unfolding validate_headers
validate_headers_lem headers =
    let (split, join) =
      >>_lem (check_kid (get "kid" headers)) (check_crit false headers (get "crit" headers)) in
    let kid = check_kid_lem (get "kid" headers) in
    let crit = check_crit_lem headers (get "crit" headers) in
    (λ h. (kid.0 (split h).0, crit.0 (split h).1), λ (p, q). join (kid.1 p, crit.1 q))
