-- ===== src/Jws/State/Invariant.antt =====
-- The registry of algorithms: what `__init__`, `register_algorithm` and `unregister_algorithm` keep.
use mathlib.Core.Path.{subst}
use refactoring_pyjwt.Prelude.{
  String, true, false, not, ◌||◌, ◌&&◌, Option, List, [], ◌∷◌, str_eq, elem, All, eq_iff, eq_refl,
  Bool-cases, ◌≡◌, inl, inr, refl, arith,
}
use refactoring_pyjwt.Exceptions.{ok, ok-injective}
use refactoring_pyjwt.Values.{has, set, remove}
use refactoring_pyjwt.Algorithms.Keys.{Env, Algorithm}
use refactoring_pyjwt.Algorithms.Registry.{get_default_algorithms}
use refactoring_pyjwt.Jws.State.{
  PyJws, GivenSigOptions, AlgorithmObject, instance_of_algorithm, not_an_algorithm, add, discard,
  restrict, init, register_algorithm, unregister_algorithm, valid_of, add_algorithm,
}

pub elem-add : (k x : String) (xs : List String) → elem k (add x xs) ≡ (str_eq k x || elem k xs)
unfolding add
elem-add k x xs = elim (Bool-cases (elem x xs)) [
  | inl found ↦ elim (Bool-cases (str_eq k x)) [
    | inl e ↦ let same = (eq_iff k x).0 e in rw (same, found, eq_refl x) found
    | inr n ↦ rw (found, n)
  ]
  | inr missing ↦ rw missing
]

pub elem-discard :
    (k x : String) (xs : List String) → elem k (discard x xs) ≡ (not (str_eq x k) && elem k xs)
unfolding discard
elem-discard k x [] = ground arith
elem-discard k x (y ∷ ys) = ground (arith, elem-discard k x ys, eq_iff x y, eq_iff x k, eq_iff k y)

-- Every algorithm that the object holds is also in its set of valid names.
abbrev pub IsRegistry : PyJws → Type 0
IsRegistry jws = All (λ e. elem e.0 jws.valid_algs ≡ true) jws.algorithms

abbrev pub In : List String → String × Algorithm → Type 0
In valid e = elem e.0 valid ≡ true

All-map :
    (P Q : String × Algorithm → Type 0) (xs : List (String × Algorithm))
    → ((e : String × Algorithm) → P e → Q e)
    → All P xs
    → All Q xs
All-map P Q [] f h = tt
All-map P Q (x ∷ xs) f (p, h) = (f x p, All-map P Q xs f h)

pub added : (k : String) (valid : List String) → elem k (add k valid) ≡ true
added k valid = rw (elem-add k k valid, eq_refl k)

still_added :
    (k : String) (valid : List String) (e : String × Algorithm) → In valid e → In (add k valid) e
still_added k valid e h = let member = elem-add e.0 k valid in ground arith

set-In :
    (k : String) (a : Algorithm) (valid : List String) (d : List (String × Algorithm))
    → All (In valid) d
    → All (In (add k valid)) (set k a d)
unfolding set
set-In k a valid [] h = (added k valid, tt)
set-In k a valid ((j, b) ∷ d) (p, h) = elim (Bool-cases (str_eq j k)) [
  | inl same ↦
      rw same (added k valid, All-map (In valid) (In (add k valid)) d (still_added k valid) h)
  | inr other ↦ rw other (still_added k valid (j, b) p, set-In k a valid d h)
]

remove-In :
    (k : String) (valid : List String) (d : List (String × Algorithm))
    → All (In valid) d
    → All (In (discard k valid)) (remove k d)
unfolding remove
remove-In k valid [] h = tt
remove-In k valid ((j, b) ∷ d) (p, h) = elim (Bool-cases (str_eq j k)) [
  | inl same ↦ rw same (remove-In k valid d h)
  | inr other ↦
      let kept : elem j (discard k valid) ≡ true =
        rw (elem-discard j k valid) (ground (arith, eq_iff j k, eq_iff k j)) in
      rw other (kept, remove-In k valid d h)
]

restrict-In :
    (valid : List String) (d : List (String × Algorithm)) → All (In valid) (restrict valid d)
unfolding restrict
restrict-In valid [] = tt
restrict-In valid ((k, a) ∷ d) = elim (Bool-cases (elem k valid)) [
  | inl member ↦ rw member (member, restrict-In valid d)
  | inr other ↦ rw other (restrict-In valid d)
]

-- How an object comes about: it is made, and algorithms are registered and unregistered.
pub data Reachable (env : Env) : PyJws → Type 0 where
  made :
      (names : Option (List String)) (given : Option GivenSigOptions)
      → Reachable env (init env names given)
  registered :
      {jws jws' : PyJws} (alg_id : String) (alg_obj : AlgorithmObject)
      → Reachable env jws
      → register_algorithm jws alg_id alg_obj ≡ ok jws'
      → Reachable env jws'
  unregistered :
      {jws jws' : PyJws} (alg_id : String)
      → Reachable env jws
      → unregister_algorithm jws alg_id ≡ ok jws'
      → Reachable env jws'

init-IsRegistry :
    (env : Env) (names : Option (List String)) (given : Option GivenSigOptions)
    → IsRegistry (init env names given)
unfolding init
init-IsRegistry env names given =
    restrict-In (valid_of (get_default_algorithms env.has_crypto) names)
      (get_default_algorithms env.has_crypto)

abbrev pub with_algorithm : PyJws → String → Algorithm → PyJws
with_algorithm jws alg_id alg = record jws {
  algorithms = set alg_id alg jws.algorithms;
  valid_algs = add alg_id jws.valid_algs;
}

abbrev pub without_algorithm : PyJws → String → PyJws
without_algorithm jws alg_id = record jws {
  algorithms = remove alg_id jws.algorithms;
  valid_algs = discard alg_id jws.valid_algs;
}

module _ (jws : PyJws) (alg_id : String) where
  register-eq-ok :
      (alg_obj : AlgorithmObject) {jws' : PyJws}
      → register_algorithm jws alg_id alg_obj ≡ ok jws'
      → (has alg_id jws.algorithms ≡ false)
        × ((alg : Algorithm) × (alg_obj ≡ instance_of_algorithm alg)
            × (with_algorithm jws alg_id alg ≡ jws'))
  unfolding register_algorithm add_algorithm
  register-eq-ok not_an_algorithm h = elim (Bool-cases (has alg_id jws.algorithms)) [
    | inl there ↦ let h' = rw there at h in cc
    | inr free ↦ let h' = rw free at h in cc
  ]
  register-eq-ok (instance_of_algorithm alg) h = elim (Bool-cases (has alg_id jws.algorithms)) [
    | inl there ↦ let h' = rw there at h in cc
    | inr free ↦ (free, (alg, refl, ok-injective (rw free at h)))
  ]

  unregister-eq-ok :
      {jws' : PyJws}
      → unregister_algorithm jws alg_id ≡ ok jws'
      → without_algorithm jws alg_id ≡ jws'
  unfolding unregister_algorithm
  unregister-eq-ok h = elim (Bool-cases (has alg_id jws.algorithms)) [
    | inl there ↦ elim (Bool-cases (elem alg_id jws.valid_algs)) [
      | inl valid ↦ ok-injective (rw (there, valid) at h)
      | inr invalid ↦ let h' = rw (there, invalid) at h in cc
    ]
    | inr free ↦ let h' = rw free at h in cc
  ]

  register-IsRegistry :
      (alg_obj : AlgorithmObject) {jws' : PyJws}
      → IsRegistry jws
      → register_algorithm jws alg_id alg_obj ≡ ok jws'
      → IsRegistry jws'
  register-IsRegistry alg_obj r h =
      let (free, (alg, e, new)) = register-eq-ok alg_obj h in
      subst IsRegistry new (set-In alg_id alg jws.valid_algs jws.algorithms r)

  unregister-IsRegistry :
      {jws' : PyJws} → IsRegistry jws → unregister_algorithm jws alg_id ≡ ok jws' → IsRegistry jws'
  unregister-IsRegistry r h =
      subst IsRegistry (unregister-eq-ok h) (remove-In alg_id jws.valid_algs jws.algorithms r)

pub Reachable-IsRegistry : {env : Env} {jws : PyJws} → Reachable env jws → IsRegistry jws
Reachable-IsRegistry (made names given) = init-IsRegistry _ names given
Reachable-IsRegistry (registered {jws} alg_id alg_obj r h) =
    register-IsRegistry jws alg_id alg_obj (Reachable-IsRegistry r) h
Reachable-IsRegistry (unregistered {jws} alg_id r h) =
    unregister-IsRegistry jws alg_id (Reachable-IsRegistry r) h
