-- ===== src/Jws/Decode/NoneRefused.antt =====
-- The algorithm "none" in a token, CVE-2015-9235 and its kin.
use refactoring_pyjwt.Prelude.{String, true, Option, some, List, Bytes, ◌≡◌, ◌≢◌, sym, ◌∙◌}
use refactoring_pyjwt.Exceptions.{ok, catching, ok-injective}
use refactoring_pyjwt.Values.{Value, str, get, find}
use refactoring_pyjwt.Utils.Base64.{StrOrBytes}
use refactoring_pyjwt.Algorithms.Keys.{Env, none_algorithm, KeyObject}
use refactoring_pyjwt.Algorithms.Registry
use refactoring_pyjwt.Algorithms.NoneAlgorithm
use refactoring_pyjwt.Jws.State.{PyJws, GivenSigOptions, merge, get_algorithm_by_name}
use refactoring_pyjwt.Jws.Keys.{object}
use refactoring_pyjwt.Jws.Decode.{Decoded, algorithm_for, decode_complete}
use refactoring_pyjwt.Jws.Decode.Verified.{IsVerified, decode_complete-IsChecked}

none_never_accepts :
    (env : Env) (msg sig : Bytes) (key : KeyObject)
    → Registry.verify env none_algorithm msg key sig ≢ ok true
unfolding Registry.verify NoneAlgorithm.verify
none_never_accepts env msg sig key h = cc

module _ (env : Env) (jws : PyJws) where
  none_found :
      (k : KeyObject)
      → get "none" jws.algorithms ≡ some none_algorithm
      → algorithm_for jws (object k) (str "none") ≡ ok none_algorithm
  unfolding get_algorithm_by_name find catching
  none_found k h = rw h

  IsVerified-ne-none :
      {k : KeyObject} {input : Bytes} {header : List (String × Value)} {sig : Bytes}
      {algorithms : Option (List String)}
      → get "none" jws.algorithms ≡ some none_algorithm
      → get "alg" header ≡ some (str "none")
      → IsVerified env jws input header sig (object k) algorithms
      → ⊥
  IsVerified-ne-none {k} {input} {sig} known named v =
      let same_alg : v.alg ≡ str "none" = cc in
      let same_algorithm : v.algorithm ≡ none_algorithm =
        ok-injective (sym v.by_name ∙ rw same_alg (none_found k known)) in
      none_never_accepts env input sig v.prepared (rw (sym same_algorithm) v.accepts)

  -- With verification on, a token whose header names the algorithm "none" is never accepted with a
  -- key that is no PyJWK, whatever algorithms the caller allows, as long as the name stands for
  -- NoneAlgorithm.
  pub none_token_refused :
      (token : StrOrBytes) (k : KeyObject) (algorithms : Option (List String))
      (options : Option GivenSigOptions) (detached_payload : Option Bytes) (kwargs : List String)
      (d : Decoded)
      → (merge jws.options options).verify_signature ≡ true
      → get "none" jws.algorithms ≡ some none_algorithm
      → get "alg" d.header ≡ some (str "none")
      → (decode_complete env jws token (object k) algorithms options detached_payload kwargs).0
        ≢ ok d
  none_token_refused token k algorithms options detached_payload kwargs d on known named h =
      IsVerified-ne-none known named
        (decode_complete-IsChecked env jws token (object k) algorithms options detached_payload
          kwargs on h).verified
