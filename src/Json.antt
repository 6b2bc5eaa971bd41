-- ===== src/Json.antt =====
-- Values of type `unknown`: what `JSON.parse` returns and what `JSON.stringify` is given. A number
-- is kept as far as the program tests it: a natural number, a negative integer, or no integer.
use verify_agent.Prelude.{
  ℕ, String, Bool, true, false, List, [], ◌∷◌, Option, none, some, ◌==◌, if◌then◌else◌,
}

pub data Number : Type 0 where
  nat : ℕ → Number
  negative : ℕ → Number
  non_integer : String → Number

mutual
  pub data Json : Type 0 where
    null : Json
    bool : Bool → Json
    num : Number → Json
    str : String → Json
    arr : Items → Json
    obj : Fields → Json

  pub data Items : Type 0 where
    nil : Items
    cons : Json → Items → Items

  pub data Fields : Type 0 where
    end : Fields
    field : String → Json → Fields → Fields

abbrev lookup_field : String → Fields → Option Json
lookup_field k end = none
lookup_field k (field j v fs) = if j == k then some v else lookup_field k fs

-- `record[key]`; a value that is no object has none of the keys that the program reads.
abbrev pub prop : String → Json → Option Json
prop k (obj fs) = lookup_field k fs
prop k _ = none

-- `typeof value === "object" && value !== null && !Array.isArray(value)`
abbrev pub is_object : Option Json → Bool
is_object (some (obj fs)) = true
is_object _ = false

-- `typeof value === "string"`, with the string
abbrev pub as_string : Option Json → Option String
as_string (some (str s)) = some s
as_string _ = none

-- `typeof value === "number" && Number.isInteger(value) && value > 0`, with the number
abbrev pub as_positive : Option Json → Option ℕ
as_positive (some (num (nat ℕ.zero))) = none
as_positive (some (num (nat (ℕ.suc n)))) = some (ℕ.suc n)
as_positive _ = none

abbrev fields : List (String × Json) → Fields
fields [] = end
fields ((k, v) ∷ ps) = field k v (fields ps)

abbrev items : List Json → Items
items [] = nil
items (v ∷ vs) = cons v (items vs)

-- Object and array literals.
abbrev pub object : List (String × Json) → Json
object ps = obj (fields ps)

abbrev pub array : List Json → Json
array vs = arr (items vs)

abbrev pub strings : List String → Json
strings ss = array (strs ss)
  where
    strs : List String → List Json
    strs [] = []
    strs (s ∷ rest) = str s ∷ strs rest

-- A property that is left out of the text when it is `undefined`.
abbrev pub optional : String → Option Json → List (String × Json)
optional k none = []
optional k (some v) = (k, v) ∷ []
