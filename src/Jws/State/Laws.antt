-- ===== src/Jws/State/Laws.antt =====
-- The registry of algorithms: what follows from the invariant, and registering and unregistering.
use refactoring_pyjwt.Prelude.{
  String, true, false, none, List, [], ◌∷◌, str_eq, elem, All, eq_iff, eq_refl, Bool-cases, ◌≡◌,
  inl, inr, refl, sym, ◌∙◌,
}
use refactoring_pyjwt.Exceptions.{ok}
use refactoring_pyjwt.Values.{str, get, has, set, remove, find}
use refactoring_pyjwt.Values.Dicts.{get-set, get-remove}
use refactoring_pyjwt.Algorithms.Keys.{Env, Algorithm}
use refactoring_pyjwt.Jws.State.{
  PyJws, instance_of_algorithm, add, discard, register_algorithm, unregister_algorithm,
  get_algorithm_by_name, get_algorithms, add_algorithm,
}
use refactoring_pyjwt.Jws.State.Invariant.{
  elem-discard, In, Reachable, with_algorithm, without_algorithm, added, Reachable-IsRegistry,
}

has-In :
    (k : String) (valid : List String) (d : List (String × Algorithm))
    → All (In valid) d
    → has k d ≡ true
    → elem k valid ≡ true
unfolding get
has-In k valid [] h p = cc
has-In k valid ((j, a) ∷ d) (q, h) p = elim (Bool-cases (str_eq j k)) [
  | inl same ↦ rw (sym ((eq_iff j k).0 same)) q
  | inr other ↦ has-In k valid d h (rw (other, has) at p)
]

unregister-held :
    (jws : PyJws) (alg_id : String)
    → has alg_id jws.algorithms ≡ true
    → elem alg_id jws.valid_algs ≡ true
    → unregister_algorithm jws alg_id ≡ ok (without_algorithm jws alg_id)
unfolding unregister_algorithm
unregister-held jws alg_id there valid = rw (there, valid)

module _ {env : Env} (jws : PyJws) (alg_id : String) where
  -- On an object that has come about by the class's own methods, unregister_algorithm never fails
  -- for a name that the object holds: the deletion from the dict and the one from the set of valid
  -- names both succeed. Afterwards neither has the name.
  pub unregister_algorithm-Reachable :
      Reachable env jws
      → has alg_id jws.algorithms ≡ true
      → (unregister_algorithm jws alg_id ≡ ok (without_algorithm jws alg_id))
        × (get alg_id (without_algorithm jws alg_id).algorithms ≡ none)
        × (elem alg_id (get_algorithms (without_algorithm jws alg_id)) ≡ false)
  unfolding get_algorithms
  unregister_algorithm-Reachable r there =
      let valid = has-In alg_id jws.valid_algs jws.algorithms (Reachable-IsRegistry r) there in
      (
        unregister-held jws alg_id there valid,
        rw (get-remove alg_id alg_id jws.algorithms, eq_refl alg_id),
        rw (elem-discard alg_id alg_id jws.valid_algs, eq_refl alg_id),
      )

remove-set :
    (k : String) (a : Algorithm) (d : List (String × Algorithm))
    → has k d ≡ false
    → remove k (set k a d) ≡ d
unfolding remove set get
remove-set k a [] h = rw (eq_refl k)
remove-set k a ((j, b) ∷ d) h = elim (Bool-cases (str_eq j k)) [
  | inl same ↦ let h' = rw (same, has) at h in cc
  | inr other ↦ rw (other, remove-set k a d (rw (other, has) at h), other)
]

discard_missing : (k : String) (xs : List String) → elem k xs ≡ false → discard k xs ≡ xs
unfolding discard
discard_missing k [] h = refl
discard_missing k (x ∷ xs) h = elim (Bool-cases (str_eq k x)) [
  | inl same ↦ let h' = rw same at h in cc
  | inr other ↦ rw (other, discard_missing k xs (rw other at h))
]

discard-add : (k : String) (xs : List String) → elem k xs ≡ false → discard k (add k xs) ≡ xs
unfolding add discard
discard-add k xs h = rw (h, eq_refl k, discard_missing k xs h)

module _ (jws : PyJws) (alg_id : String) (alg : Algorithm) where
  -- Registering an algorithm under a name that is neither held nor valid makes get_algorithm_by_name
  -- find it, changes no other name, and unregistering it gives the object back as it was.
  pub register_algorithm-round_trip :
      has alg_id jws.algorithms ≡ false
      → elem alg_id jws.valid_algs ≡ false
      → (other : String) → str_eq alg_id other ≡ false
      → (jws' : PyJws) × (register_algorithm jws alg_id (instance_of_algorithm alg) ≡ ok jws')
        × (get_algorithm_by_name jws' (str alg_id) ≡ ok alg)
        × (get_algorithm_by_name jws' (str other) ≡ get_algorithm_by_name jws (str other))
        × (unregister_algorithm jws' alg_id ≡ ok jws)
  unfolding register_algorithm get_algorithm_by_name find add_algorithm
  register_algorithm-round_trip free invalid other differ =
      let held : has alg_id (set alg_id alg jws.algorithms) ≡ true =
        rw (get-set alg_id alg_id alg jws.algorithms, has, eq_refl alg_id) in
      let removed = remove-set alg_id alg jws.algorithms free in
      (
        with_algorithm jws alg_id alg,
        rw free,
        rw (get-set alg_id alg_id alg jws.algorithms, eq_refl alg_id),
        rw (get-set alg_id other alg jws.algorithms, differ),
        unregister-held (with_algorithm jws alg_id alg) alg_id held (added alg_id jws.valid_algs)
            ∙ rw (removed, discard-add alg_id jws.valid_algs invalid),
      )
