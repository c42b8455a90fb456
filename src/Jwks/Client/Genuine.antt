-- ===== src/Jwks/Client/Genuine.antt =====
-- Where the signing keys that a client gives out come from.
pub mod Cached
use mathlib.Core.Path.{subst}
use mathlib.Core.Option
use text.Mathlib.TextEquality.{eq_iff}
use refactoring_pyjwt.Prelude.{
  ℕ, zero, suc, ◌+◌, Bool, ◌||◌, true, false, String, Option, none, some, List, [], ◌∷◌, ◌++◌, take,
  All, All-take, Memᴰ, ◌≡◌, refl, sym, ap, ◌∙◌, inl, inr, arith, Bool-cases, Option-cases,
  if◌then◌else◌,
}
use refactoring_pyjwt.Exceptions.{
  Exception, Result, ok, err, raise, >>=-eq-ok, ok-injective, catching, catching-eq-ok, url_error,
  timeout_error, py_jwk_client_connection_error,
}
use refactoring_pyjwt.Exceptions as Exceptions
use refactoring_pyjwt.Values.{Value, null}
use refactoring_pyjwt.Algorithms.Keys.{Env}
use refactoring_pyjwt.Jwk.{PyJwk, key_id}
use refactoring_pyjwt.Jwk.KeySet.{same_kid, find_by_kid}
use refactoring_pyjwt.Jwk.KeySet.Laws.{find_by_kid_lem}
use refactoring_pyjwt.Jwks.Cache as Cache
use refactoring_pyjwt.Jwks.Cache.{JwkSetCache}
use refactoring_pyjwt.Jwks.Lru as Lru
use refactoring_pyjwt.Jwks.Lru.{Lru}
use refactoring_pyjwt.Jwks.Calls.{Web, Request, World, now}
use refactoring_pyjwt.Jwks.Calls.Rules.{Keeps}
use refactoring_pyjwt.Jwks.Client.{PyJwkClient, request_of, same_name}
use refactoring_pyjwt.Jwks.Client.Fetch.{read_response, failure, key_set, fetch_data}
use refactoring_pyjwt.Jwks.Client.Lookup.{
  for_signing, kept, need_some, match_kid, or_unknown, find_signing_key, get_signing_key,
}
use refactoring_pyjwt.Jwks.Client.Sets.{keys_in, signing_keys_in, document, downloads, held}
use refactoring_pyjwt.Jwks.Client.Served.{IsHonest, IsHonestCache}
use refactoring_pyjwt.Jwks.Client.Agreement.{answer, found_or_next, key_for, find_signing_key_lem}

module _ (env : Env) (web : Web) where
  -- The key has the kid, is for signing, and is a key of a key set that the endpoint has given.
  pub record IsGenuine (asked : Request) (kid : Option String) (key : PyJwk) : Type 0 where
    pub named : same_kid (key_id key) kid ≡ true
    pub signing : for_signing env web key ≡ true
    pub number : ℕ
    pub doc : Value
    pub response : read_response env web (web.respond asked number) ≡ ok doc
    pub keys : List PyJwk
    pub key_set : keys_in env web doc ≡ ok keys
    pub listed : Memᴰ key keys

  -- A document that the endpoint has given.
  abbrev IsAnswer : Request → Value → Type 0
  IsAnswer asked doc = (number : ℕ) × (read_response env web (web.respond asked number) ≡ ok doc)

  mem_middle :
      (before : List PyJwk) (key : PyJwk) (after : List PyJwk) → Memᴰ key (before ++ (key ∷ after))
  mem_middle [] key after = Memᴰ.head refl
  mem_middle (k ∷ before) key after = Memᴰ.tail (mem_middle before key after)

  mem_kept :
      (key : PyJwk) (keys : List PyJwk)
      → Memᴰ key (kept env web keys)
      → (for_signing env web key ≡ true) × Memᴰ key keys
  mem_kept key [] m = elim m [ ]
  mem_kept key (k ∷ keys) m = elim (Bool-cases (for_signing env web k)) [
    | inl good ↦ mem_front key k keys good (mem_kept key keys) (rw (good, kept) at m)
    | inr bad ↦ let (s, i) = mem_kept key keys (rw (bad, kept) at m) in (s, Memᴰ.tail i)
  ]
    where
      mem_front :
          (key k : PyJwk) (keys : List PyJwk)
          → for_signing env web k ≡ true
          → (Memᴰ key (kept env web keys) → (for_signing env web key ≡ true) × Memᴰ key keys)
          → Memᴰ key (k ∷ kept env web keys)
          → (for_signing env web key ≡ true) × Memᴰ key (k ∷ keys)
      mem_front key k keys good rest (Memᴰ.head e) = (rw e good, Memᴰ.head e)
      mem_front key k keys good rest (Memᴰ.tail m) = let (s, i) = rest m in (s, Memᴰ.tail i)

  need_some-eq-ok : (keys l : List PyJwk) → need_some env web keys ≡ ok l → keys ≡ l
  need_some-eq-ok [] l h = cc
  need_some-eq-ok (key ∷ keys) l h = ok-injective h

  -- A key found in an answer is genuine.
  matched-IsGenuine :
      (asked : Request) (kid : Option String) (key : PyJwk) (doc : Value) (keys : List PyJwk)
      → IsAnswer asked doc
      → signing_keys_in env web doc ≡ ok keys
      → match_kid env web keys kid ≡ some key
      → IsGenuine asked kid key
  matched-IsGenuine asked kid key doc keys (number, response) listed found =
      let (set, made, filtered) = >>=-eq-ok (keys_in env web doc) _ listed in
      let same : kept env web set ≡ keys = need_some-eq-ok (kept env web set) keys filtered in
      let (before, after, e, named, others) = find_by_kid_lem keys kid found in
      let m : Memᴰ key (kept env web set) =
        subst (λ l. Memᴰ key l) (sym (same ∙ e)) (mem_middle before key after) in
      let (signing, listed) = mem_kept key set m in
      record {
        named = named;
        signing = signing;
        number = number;
        doc = doc;
        response = response;
        keys = set;
        key_set = made;
        listed = listed;
      }

  download-IsAnswer :
      (asked : Request) (number : ℕ) (doc : Value)
      → failure env web (read_response env web (web.respond asked number)) ≡ ok doc
      → IsAnswer asked doc
  download-IsAnswer asked number doc h =
      let r = read_response env web (web.respond asked number) in
      (
        number,
        catching-eq-ok url_error py_jwk_client_connection_error r (
            catching-eq-ok timeout_error py_jwk_client_connection_error
              (catching url_error py_jwk_client_connection_error r) h),
      )

  held-IsAnswer :
      (cache : Option JwkSetCache) (w : World PyJwkClient) (asked : Request) (requests readings : ℕ)
      → IsHonestCache env web asked requests readings cache
      → Cache.is_none (held env web cache false w) ≡ false
      → IsAnswer asked (held env web cache false w)
  unfolding Cache.get
  held-IsAnswer none w asked requests readings h full = cc
  held-IsAnswer (some cache) w asked requests readings (inl empty) full =
      let full' = rw (empty, Cache.get) at full in cc
  held-IsAnswer (some cache) w asked requests readings (inr s) full =
      elim (Bool-cases
        (Cache.is_none cache.jwk_set || Cache.is_expired (web.monotonic w.readings) cache)) [
          | inl gone ↦ let full' = rw (gone, Cache.get) at full in cc
          | inr here ↦ (s.number, rw (here, Cache.get) s.response)
        ]

  document-IsAnswer :
      (w : World PyJwkClient) (doc : Value)
      → IsHonest env web w
      → document env web false w ≡ ok doc
      → IsAnswer (request_of w.object) doc
  document-IsAnswer w doc h e =
      let d = held env web w.object.jwk_set_cache false w in
      elim (Bool-cases (Cache.is_none d)) [
        | inl empty ↦
            download-IsAnswer (request_of w.object) w.requests doc (rw (empty, document) at e)
        | inr full ↦
            let same : d ≡ doc = ok-injective (rw (full, document) at e) in
            subst (IsAnswer (request_of w.object)) same (
              held-IsAnswer w.object.jwk_set_cache w (request_of w.object) w.requests w.readings h
                full)
      ]

  next_IsGenuine :
      (w : World PyJwkClient) (kid : Option String) (key : PyJwk) (number : ℕ) (doc : Value)
      (keys : List PyJwk) (o : Option PyJwk)
      → match_kid env web keys kid ≡ o
      → IsAnswer (request_of w.object) doc
      → signing_keys_in env web doc ≡ ok keys
      → found_or_next env web w kid number o ≡ ok key
      → IsGenuine (request_of w.object) kid key
  next_IsGenuine w kid key number doc keys (some k) found a listed h =
      matched-IsGenuine (request_of w.object) kid key doc keys a listed
        (found ∙ ap some (ok-injective h))
  next_IsGenuine w kid key number doc keys none found a listed h =
      let (keys2, h1, h2) =
        >>=-eq-ok (Exceptions.◌>>=◌ (answer env web w number) (signing_keys_in env web)) _ h in
      let (doc2, h3, h4) = >>=-eq-ok (answer env web w number) (signing_keys_in env web) h1 in
      matched-IsGenuine (request_of w.object) kid key doc2 keys2
        (download-IsAnswer (request_of w.object) number doc2 h3) h4
        (known (match_kid env web keys2 kid) h2)
    where
      known : (o : Option PyJwk) → or_unknown env web o ≡ ok key → o ≡ some key
      known (some k) h = ap some (ok-injective h)
      known none h = cc

  -- What is found in the sets is genuine.
  pub find_signing_key-IsGenuine :
      (w v : World PyJwkClient) (kid : Option String) (key : PyJwk)
      → IsHonest env web w
      → find_signing_key env web kid w ≡ (ok key, v)
      → IsGenuine (request_of w.object) kid key
  find_signing_key-IsGenuine w v kid key h e =
      let result : key_for env web w kid ≡ ok key =
        sym (find_signing_key_lem env web w kid) ∙ ap (λ p. p.0) e in
      let (keys, h1, h2) =
        >>=-eq-ok (Exceptions.◌>>=◌ (document env web false w) (signing_keys_in env web)) _
          result in
      let (doc, h3, h4) = >>=-eq-ok (document env web false w) (signing_keys_in env web) h1 in
      next_IsGenuine w kid key (w.requests + downloads env web false w) doc keys
        (match_kid env web keys kid) refl (document-IsAnswer w doc h h3) h4 h2
