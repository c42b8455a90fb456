-- ===== src/Jwk/KeySet/Laws.antt =====
-- Which keys a PyJWKSet has, and how they are looked up.
use mathlib.Core.Path.{subst}
use refactoring_pyjwt.Prelude.{
  String, true, false, not, Option, none, some, List, [], ◌∷◌, ◌++◌, All, Bool-cases, Option-cases,
  is_empty, ◌≡◌, ◌↔◌, ◌⊎◌, refl, inl, inr, sym,
}
use refactoring_pyjwt.Exceptions.{
  Exception, Result, ok, err, is_instance, py_jwt_error, missing_cryptography_error, >>=-eq-ok,
  ok-injective, raise_if, py_jwk_set_error, raise_if_lem,
}
use refactoring_pyjwt.Values.{Value, Items, list, elems, truthy}
use refactoring_pyjwt.Algorithms.Keys.{Env}
use refactoring_pyjwt.Jwk.{PyJwk, init, key_id}
use refactoring_pyjwt.Jwk.KeySet.{
  usable, skipped, failed, attempt, push, collect, make, need_list, same_kid, find_by_kid, get_item,
}

-- The usable keys of a list, in order: a key that raises a PyJWTError is left out, unless the
-- error is that the cryptography package is missing.
pub data Collected (env : Env) : List Value → List PyJwk → Type 0 where
  none_left : Collected env [] []
  taken :
      {v : Value} {vs : List Value} {key : PyJwk} {keys : List PyJwk}
      → init env v none ≡ ok key
      → Collected env vs keys
      → Collected env (v ∷ vs) (key ∷ keys)
  left_out :
      {v : Value} {vs : List Value} {e : Exception} {keys : List PyJwk}
      → init env v none ≡ err e
      → is_instance e py_jwt_error ≡ true
      → is_instance e missing_cryptography_error ≡ false
      → Collected env vs keys
      → Collected env (v ∷ vs) keys

some-injective : {a b : PyJwk} → some a ≡ some b → a ≡ b
some-injective h = cc

push-eq-ok :
    (key : PyJwk) (r : Result (List PyJwk)) {keys : List PyJwk}
    → push key r ≡ ok keys
    → (rest : List PyJwk) × (r ≡ ok rest) × ((key ∷ rest) ≡ keys)
push-eq-ok key (ok rest) h = (rest, refl, ok-injective h)
push-eq-ok key (err e) h = cc

attempt-eq :
    (r : Result PyJwk)
    → ((key : PyJwk) × (r ≡ ok key) × (attempt r ≡ usable key))
      ⊎ ((e : Exception) × (r ≡ err e)
          × (is_instance e py_jwt_error ≡ true)
          × (is_instance e missing_cryptography_error ≡ false)
          × (attempt r ≡ skipped))
      ⊎ ((e : Exception) × (r ≡ err e) × (attempt r ≡ failed e))
unfolding attempt
attempt-eq (ok key) = inl (key, refl, refl)
attempt-eq (err e) = elim (Bool-cases (is_instance e py_jwt_error)) [
  | inl ours ↦ elim (Bool-cases (is_instance e missing_cryptography_error)) [
    | inl m ↦ inr (inr (e, refl, rw (ours, m)))
    | inr n ↦ inr (inl (e, refl, ours, n, rw (ours, n)))
  ]
  | inr other ↦ inr (inr (e, refl, rw other))
]

collect_sound :
    (env : Env) (vs : List Value) {keys : List PyJwk}
    → collect env vs ≡ ok keys
    → Collected env vs keys
unfolding collect
collect_sound env [] h = subst (Collected env []) (ok-injective h) none_left
collect_sound env (v ∷ vs) {keys} h = elim (attempt-eq (init env v none)) [
  | inl (key, made, use_it) ↦
      let h' = rw (use_it, collect) at h in
      let (rest, e, same) = push-eq-ok key (collect env vs) h' in
      subst (Collected env (v ∷ vs)) same (taken made (collect_sound env vs e))
  | inr (inl (e, bad, ours, n, skip)) ↦
      left_out bad ours n (collect_sound env vs (rw (skip, collect) at h))
  | inr (inr (e, bad, fail)) ↦ let h' = rw (fail, collect) at h in cc
]

collect_complete :
    (env : Env) {vs : List Value} {keys : List PyJwk}
    → Collected env vs keys
    → collect env vs ≡ ok keys
unfolding collect attempt
collect_complete env none_left = refl
collect_complete env (taken made rest) = rw (made, collect, collect_complete env rest)
collect_complete env (left_out bad ours n rest) =
    rw (bad, collect, ours, n, collect_complete env rest)

given_some :
    {env : Env} {vs : List Value} {keys : List PyJwk}
    → Collected env vs keys
    → is_empty keys ≡ false
    → is_empty vs ≡ false
given_some none_left n = cc
given_some (taken made rest) n = refl
given_some (left_out bad ours m rest) n = refl

-- Making a key set succeeds exactly if some key of the list is usable and no key fails with an
-- error that is not skipped; the set then has the usable keys in their order.
pub make_lem :
    (env : Env) (vs : Items) (keys : List PyJwk)
    → (make env (list vs) ≡ ok keys) ↔ (Collected env (elems vs) keys × (is_empty keys ≡ false))
unfolding make need_list truthy
make_lem env vs keys = (
  λ h.
      let (u, e0, h0) = >>=-eq-ok (raise_if (not (truthy (list vs))) py_jwk_set_error) _ h in
      let (found, e1, h1) = >>=-eq-ok (collect env (elems vs)) _ h0 in
      let (u2, e2, h2) = >>=-eq-ok (raise_if (is_empty found) py_jwk_set_error) _ h1 in
      let same : found ≡ keys = ok-injective h2 in
      (
        collect_sound env (elems vs) (rw (sym same) e1),
        rw (sym same) ((raise_if_lem (is_empty found) py_jwk_set_error).0 e2),
      ),
  λ (c, n). rw (given_some c n, collect_complete env c, n),
)

pub find_by_kid_lem :
    (keys : List PyJwk) (kid : Option String) {key : PyJwk}
    → find_by_kid keys kid ≡ some key
    → (before after : List PyJwk) × (keys ≡ before ++ (key ∷ after))
      × (same_kid (key_id key) kid ≡ true)
      × All (λ k. same_kid (key_id k) kid ≡ false) before
unfolding find_by_kid
find_by_kid_lem [] kid h = cc
find_by_kid_lem (k ∷ keys) kid {key} h = elim (Bool-cases (same_kid (key_id k) kid)) [
  | inl found ↦
      let same : k ≡ key = some-injective (rw (found, find_by_kid) at h) in
      ([], keys, rw same, rw (sym same) found, tt)
  | inr other ↦
      let (before, after, e, same, others) =
        find_by_kid_lem keys kid (rw (other, find_by_kid) at h) in
      (k ∷ before, after, rw e, same, (other, others))
]

-- What `set[kid]` returns is the first key of the set with that kid.
pub get_item_lem :
    (keys : List PyJwk) (kid : Option String) {key : PyJwk}
    → get_item keys kid ≡ ok key
    → (before after : List PyJwk) × (keys ≡ before ++ (key ∷ after))
      × (same_kid (key_id key) kid ≡ true)
      × All (λ k. same_kid (key_id k) kid ≡ false) before
unfolding get_item
get_item_lem keys kid {key} h = elim (Option-cases (find_by_kid keys kid)) [
  | inl missing ↦ let h' = rw (missing, get_item) at h in cc
  | inr (k, found) ↦
      let same : k ≡ key = ok-injective (rw (found, get_item) at h) in
      find_by_kid_lem keys kid (rw (sym same) found)
]
