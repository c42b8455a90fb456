-- ===== src/Values.antt =====
-- The Python values that stand in headers, payloads and JWKs: those of JSON, and `datetime`. A
-- `dict` with text keys is the list of its items, in insertion order.
pub mod Dicts
use refactoring_pyjwt.Prelude.{
  ℕ, zero, suc, ◌+◌, ◌-◌, ◌*◌, ◌/◌, ◌^◌, String, Bool, true, false, not, ◌&&◌, Option, none, some,
  List, [], ◌∷◌, ◌++◌, ◌≡◌, refl, ltb, ◌==◌, str_eq, if◌then◌else◌, is_empty,
}
use refactoring_pyjwt.Prelude.Int.{ℤ, pos, negsuc}
use refactoring_pyjwt.Exceptions.{Result, ok, raise, type_error, value_error, overflow_error}

-- A `float` is m / 2 ^ k, an infinity (true for the positive one) or NaN.
pub data Float : Type 0 where
  finite : (m : ℤ) (k : ℕ) → Float
  infinity : Bool → Float
  nan : Float

mutual
  pub data Value : Type 0 where
    null : Value
    bool : Bool → Value
    int : ℤ → Value
    float : Float → Value
    str : String → Value
    -- microseconds from the epoch, UTC
    datetime : ℤ → Value
    list : Items → Value
    dict : Fields → Value

  pub data Items : Type 0 where
    nil : Items
    cons : Value → Items → Items

  pub data Fields : Type 0 where
    end : Fields
    field : String → Value → Fields → Fields

abbrev pub Dict : Type 0
Dict = List (String × Value)

abbrev pub elems : Items → List Value
elems nil = []
elems (cons v vs) = v ∷ elems vs

abbrev pub items : Fields → Dict
items end = []
items (field k v fs) = (k, v) ∷ items fs

abbrev pub fields : Dict → Fields
fields [] = end
fields ((k, v) ∷ d) = field k v (fields d)

pub items-fields : (d : Dict) → items (fields d) ≡ d
items-fields [] = refl
items-fields ((k, v) ∷ d) = rw (items-fields d)

-- `isinstance(v, dict)`
abbrev pub as_dict : Value → Option Dict
as_dict (dict fs) = some (items fs)
as_dict _ = none

-- `isinstance(v, str)`
abbrev pub as_str : Value → Option String
as_str (str s) = some s
as_str _ = none

abbrev pub is_str : Value → Bool
is_str (str s) = true
is_str _ = false

-- `v == s`, for a text `s`
abbrev pub equals_str : Value → String → Bool
equals_str (str t) s = str_eq t s
equals_str _ s = false

-- `v is False`
abbrev pub is_false : Value → Bool
is_false (bool false) = true
is_false _ = false

abbrev is_zero : ℤ → Bool
is_zero (pos n) = n == 0
is_zero (negsuc n) = false

-- `bool(v)`
unfoldable pub truthy : Value → Bool
truthy null = false
truthy (bool b) = b
truthy (int n) = not (is_zero n)
truthy (float (finite m k)) = not (is_zero m)
truthy (float x) = true
truthy (str s) = not (str_eq s "")
truthy (datetime t) = true
truthy (list vs) = not (is_empty (elems vs))
truthy (dict fs) = not (is_empty (items fs))

-- Division towards zero.
abbrev pub quotient : ℤ → ℕ → ℤ
quotient (pos n) d = pos (n / d)
quotient (negsuc n) d = if suc n / d == 0 then pos 0 else negsuc (suc n / d - 1)

-- `int(v)`. How it reads a text, `none` for a ValueError, is a parameter.
unfoldable pub int_of : (String → Option ℤ) → Value → Result ℤ
int_of int_of_str (int n) = ok n
int_of int_of_str (bool true) = ok (pos 1)
int_of int_of_str (bool false) = ok (pos 0)
int_of int_of_str (float (finite m k)) = ok (quotient m (2 ^ k))
int_of int_of_str (float (infinity s)) = raise overflow_error
int_of int_of_str (float nan) = raise value_error
int_of int_of_str (str s) = elim (int_of_str s) [ some n ↦ ok n | none ↦ raise value_error ]
int_of int_of_str _ = raise type_error

module _ {ℓ} {A : Type ℓ} where
  -- `d.get(k)`
  unfoldable pub get : String → List (String × A) → Option A
  get k [] = none
  get k ((j, v) ∷ d) = if str_eq j k then some v else get k d

  -- `k in d`
  abbrev pub has : String → List (String × A) → Bool
  has k d = elim (get k d) [ none ↦ false | some v ↦ true ]

  -- `d[k] = v`: a key that is there keeps its place.
  unfoldable pub set : String → A → List (String × A) → List (String × A)
  set k v [] = (k, v) ∷ []
  set k v ((j, w) ∷ d) = if str_eq j k then (k, v) ∷ d else (j, w) ∷ set k v d

  -- `del d[k]`, for a key that is there
  unfoldable pub remove : String → List (String × A) → List (String × A)
  remove k [] = []
  remove k ((j, v) ∷ d) = let rest = remove k d in if str_eq j k then rest else (j, v) ∷ rest

  -- `d.update(e)`
  unfoldable pub update : List (String × A) → List (String × A) → List (String × A)
  update d [] = d
  update d ((k, v) ∷ e) = update (set k v d) e

-- `d.get(k)`, with None for a key that is not there
abbrev pub or_null : Option Value → Value
or_null none = null
or_null (some v) = v

-- `table[v]` and `v in table`, for a table with text keys: no other value is a key, and a list or
-- a dict cannot be looked up at all.
unfoldable pub find {ℓ} : {A : Type ℓ} → Value → List (String × A) → Result (Option A)
unfolding get
find (str s) table = ok (get s table)
find (list vs) table = raise type_error
find (dict fs) table = raise type_error
find _ table = ok none
