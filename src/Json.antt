-- ===== src/Json.antt =====
-- JSON as `json.loads` gives it: the values of a dynamic language that cross a file or the network.
-- An object's keys are distinct, as in a Python dict. The text of a float is not modelled.
pub mod Int
pub mod Laws
use technocore_safe_agent.Base.{
  ℕ, String, Bool, true, false, ◌&&◌, Option, none, some, List, [], ◌∷◌, ◌==◌, string_eq, every,
  contains, nat_eq, if◌then◌else◌, Error, Result, ok, err, type_error,
}
use Int.{ℤ, pos, negsuc}

mutual
  pub data Value : Type 0 where
    null : Value
    bool : Bool → Value
    int : ℤ → Value
    -- the int that it equals, if there is one
    float : Option ℤ → Value
    str : String → Value
    list : Items → Value
    obj : Fields → Value

  pub data Items : Type 0 where
    nil : Items
    cons : Value → Items → Items

  pub data Fields : Type 0 where
    end : Fields
    field : String → Value → Fields → Fields

-- payload.get(key), which is None where the key is missing
unfoldable pub get : String → Fields → Value
get key end = null
get key (field k v rest) = if k == key then v else get key rest

-- key in payload
unfoldable pub has : Fields → String → Bool
has end key = false
has (field k v rest) key = if k == key then true else has rest key

abbrev pub keys : Fields → List String
keys end = []
keys (field k v rest) = k ∷ keys rest

-- set(payload) == expected
unfoldable pub keys_are : List String → Fields → Bool
unfolding has
keys_are expected fs = every (has fs) expected && every (contains expected) (keys fs)

abbrev pub items : Items → List Value
items nil = []
items (cons v rest) = v ∷ items rest

-- A Python int that is not negative.
abbrev pub nat : ℕ → Value
nat n = int (pos n)

-- not isinstance(value, bool) and isinstance(value, int) and value >= 0
unfoldable pub nonnegative : Value → Option ℕ
nonnegative (int (pos n)) = some n
nonnegative _ = none

-- The same with value > 0.
unfoldable pub positive : Value → Option ℕ
positive (int (pos n)) = if n == 0 then none else some n
positive _ = none

abbrev pub optional {ℓ} : {A : Type ℓ} → (A → Value) → Option A → Value
optional f none = null
optional f (some a) = f a

-- if value not in texts: raise e, for a set of strings. A list and a dict have no hash.
unfoldable pub member_of : Error → List String → Value → Result String
member_of e texts (str s) = if contains texts s then ok s else err e
member_of e texts (list _) = err type_error
member_of e texts (obj _) = err type_error
member_of e texts _ = err e

-- value == text
abbrev pub is_text : String → Value → Bool
is_text text (str s) = s == text
is_text text _ = false
