-- ===== src/Wamp/Value.antt =====
-- The values that the object serializers give and take, and their dictionaries.
pub mod Lookup
pub use mathlib.Core.Option.{map}
use autobahn_python.Base.{
  ℕ, Octets, List, [], ◌∷◌, Bool, true, false, ◌&&◌, Option, none, some, ◌==◌, if◌then◌else◌, ascii,
  Error, Result, ok, err,
}

-- The code points of a `str`.
abbrev pub Text : Type 0
Text = List ℕ

-- `negsuc n` is -1 - n.
pub data ℤ : Type 0 where
  pos negsuc : ℕ → ℤ

-- A float is given by its 64 bits.
mutual
  pub data Value : Type 0 where
    null : Value
    bool : Bool → Value
    int : ℤ → Value
    float : ℕ → Value
    str : Text → Value
    bytes : Octets → Value
    list : Items → Value
    dict : Fields → Value

  pub data Items : Type 0 where
    nil : Items
    cons : Value → Items → Items

  pub data Fields : Type 0 where
    end : Fields
    field : Value → Value → Fields → Fields

infixl 10 ◌>>=◌
abbrev pub ◌>>=◌ : {A B : Type 0} → Result A → (A → Result B) → Result B
ok a >>= f = f a
err e >>= f = err e

infixl 10 ◌>>◌
abbrev pub ◌>>◌ : {B : Type 0} → Result (Unit {0}) → Result B → Result B
m >> n = m >>= λ _. n

-- `assert`
abbrev pub assert : Bool → Result (Unit {0})
assert b = if b then ok tt else err Error.assertion_failed

abbrev pub require : Bool → Error → Result (Unit {0})
require b e = if b then ok tt else err e

unfoldable pub same_text : Text → Text → Bool
same_text [] [] = true
same_text (a ∷ s) (b ∷ t) = a == b && same_text s t
same_text _ _ = false

-- Whether a key of a dictionary is that text.
unfoldable pub is_key : Text → Value → Bool
is_key k (str s) = same_text k s
is_key k _ = false

-- `k in d` and `d[k]`
unfoldable pub get : Text → Fields → Option Value
get k end = none
get k (field key v rest) = if is_key k key then some v else get k rest

-- An entry that is written only if there is a value for it.
abbrev pub Entry : Type 0
Entry = Text × Option Value

-- The dictionary that a `marshal` fills key after key.
unfoldable pub dict_with : List Entry → Fields
dict_with [] = end
dict_with ((k, none) ∷ rest) = dict_with rest
dict_with ((k, some v) ∷ rest) = field (str k) v (dict_with rest)

-- What a `parse` makes of an optional entry: `None` if it is missing.
unfoldable pub read : {A : Type 0} → (Value → Result A) → Option Value → Result (Option A)
read check none = ok none
read check (some v) = check v >>= λ a. ok (some a)

unfoldable pub optional : {A : Type 0} → (Value → Result A) → Text → Fields → Result (Option A)
optional check k d = read check (get k d)

unfoldable pub or_default : {A : Type 0} → A → Option A → A
or_default a none = a
or_default a (some b) = b
