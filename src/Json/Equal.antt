-- ===== src/Json/Equal.antt =====
-- Python's `==` on JSON values: numbers by value (True == 1 == 1.0), dicts without their order.
use mcp_session_router.Base.{ℕ, suc, ◌*◌, ◌^◌, ◌≡◌, refl, Bool, true, false, ◌&&◌, none, some}
use mcp_session_router.Base.{nat_eq, ◌==◌}
use mcp_session_router.Base.Int.{ℤ, pos, negsuc}
use mcp_session_router.Json.{Json, null, bool, int, float, str, arr, obj, Items, nil, cons}
use mcp_session_router.Json.{Fields, end, field, get}

abbrev size : Fields → ℕ
size end = 0
size (field k v d) = suc (size d)

-- m / 2 ^ j == n / 2 ^ k
abbrev number_eq : ℤ → ℕ → ℤ → ℕ → Bool
number_eq (pos m) j (pos n) k = nat_eq (m * 2 ^ k) (n * 2 ^ j)
number_eq (negsuc m) j (negsuc n) k = nat_eq (suc m * 2 ^ k) (suc n * 2 ^ j)
number_eq _ j _ k = false

abbrev bool_int : Bool → ℤ
bool_int true = pos 1
bool_int false = pos 0

-- Whether a value is the number m / 2 ^ j.
abbrev is_number : ℤ → ℕ → Json → Bool
is_number m j (bool b) = number_eq m j (bool_int b) 0
is_number m j (int n) = number_eq m j n 0
is_number m j (float n k) = number_eq m j n k
is_number m j _ = false

unfoldable mutual
  pub json_eq : Json → Json → Bool
  json_eq null null = true
  json_eq (bool b) w = is_number (bool_int b) 0 w
  json_eq (int m) w = is_number m 0 w
  json_eq (float m j) w = is_number m j w
  json_eq (str s) (str t) = s == t
  json_eq (arr xs) (arr ys) = items_eq xs ys
  json_eq (obj d) (obj e) = nat_eq (size d) (size e) && fields_in d e
  json_eq v w = false

  items_eq : Items → Items → Bool
  items_eq nil nil = true
  items_eq (cons x xs) (cons y ys) = json_eq x y && items_eq xs ys
  items_eq xs ys = false

  -- Every entry of the first dict is one of the second.
  fields_in : Fields → Fields → Bool
  fields_in end e = true
  fields_in (field k v d) e =
      elim (get k e) [ none ↦ false | some w ↦ json_eq v w ] && fields_in d e

true_is_one : json_eq (bool true) (float (pos 4) 2) ≡ true
unfolding json_eq
true_is_one = refl

order_is_free :
    json_eq
      (obj (field "a" null (field "b" (str "x") end)))
      (obj (field "b" (str "x") (field "a" null end)))
    ≡ true
unfolding json_eq
order_is_free = refl
