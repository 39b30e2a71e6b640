-- ===== src/Json.antt =====
-- The values that Python's json module reads and writes, and their typed access.
-- A float is a finite binary fraction, `num / 2 ^ exp`; NaN and the infinities, which the JSON
-- grammar lacks, are not modelled.
pub mod Equal
use mcp_session_router.Base.{
  ℕ, String, ◌≡◌, refl, Bool, true, false, not, zero, Option, none, some, List, [], ◌∷◌, map, ap,
}
use mcp_session_router.Base.{Result, ok, err, Error, key_error, bad_type, ◌==◌, if◌then◌else◌}
use mcp_session_router.Base.Int.{ℤ, pos}
use mcp_session_router.Base.Dict.{Dict}

mutual
  pub data Json : Type 0 where
    null : Json
    bool : Bool → Json
    int : ℤ → Json
    float : ℤ → ℕ → Json
    str : String → Json
    arr : Items → Json
    obj : Fields → Json

  pub data Items : Type 0 where
    nil : Items
    cons : Json → Items → Items

  pub data Fields : Type 0 where
    end : Fields
    field : String → Json → Fields → Fields

-- data.get(key)
abbrev pub get : String → Fields → Option Json
get k end = none
get k (field j v d) = if j == k then some v else get k d

-- data[key]
abbrev pub require : String → Fields → Result Json
require k d = elim (get k d) [ none ↦ err (key_error k) | some v ↦ ok v ]

-- data.get(key, default)
abbrev pub get_or : String → Json → Fields → Json
get_or k default d = elim (get k d) [ none ↦ default | some v ↦ v ]

abbrev pub items : List Json → Items
items [] = nil
items (x ∷ xs) = cons x (items xs)

abbrev pub items_list : Items → List Json
items_list nil = []
items_list (cons x xs) = x ∷ items_list xs

abbrev pub entries : Fields → Dict Json
entries end = []
entries (field k v d) = (k, v) ∷ entries d

abbrev pub fields : Dict Json → Fields
fields [] = end
fields ((k, v) ∷ d) = field k v (fields d)

pub items_list-items : (xs : List Json) → items_list (items xs) ≡ xs
items_list-items [] = refl
items_list-items (x ∷ xs) = rw (items_list-items xs)

pub entries-fields : (d : Dict Json) → entries (fields d) ≡ d
entries-fields [] = refl
entries-fields ((k, v) ∷ d) = rw (entries-fields d)

-- The typed reads: a value of another type is a `bad_type` error.
abbrev pub as_str : Json → Result String
as_str (str s) = ok s
as_str _ = err bad_type

abbrev pub as_optional_str : Json → Result (Option String)
as_optional_str null = ok none
as_optional_str (str s) = ok (some s)
as_optional_str _ = err bad_type

abbrev pub as_int : Json → Result ℤ
as_int (int n) = ok n
as_int _ = err bad_type

abbrev pub as_list : Json → Result (List Json)
as_list (arr xs) = ok (items_list xs)
as_list _ = err bad_type

abbrev pub as_object : Json → Result Fields
as_object (obj d) = ok d
as_object _ = err bad_type

-- The encodings of an optional string and of a list of strings.
abbrev pub optional_str : Option String → Json
optional_str none = null
optional_str (some s) = str s

abbrev pub strings : List String → Json
strings xs = arr (items (map str xs))

pub as_optional_str-optional_str : (o : Option String) → as_optional_str (optional_str o) ≡ ok o
as_optional_str-optional_str none = refl
as_optional_str-optional_str (some s) = refl

-- bool(v)
abbrev pub truthy : Json → Bool
truthy null = false
truthy (bool b) = b
truthy (int (pos zero)) = false
truthy (int n) = true
truthy (float (pos zero) k) = false
truthy (float n k) = true
truthy (str s) = not (s == "")
truthy (arr nil) = false
truthy (arr xs) = true
truthy (obj end) = false
truthy (obj d) = true
