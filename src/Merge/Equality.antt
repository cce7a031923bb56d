-- ===== src/Merge/Equality.antt =====
-- Equality of Python values, as reviewer/merge_descriptor.py uses it.
use dohwa_hermes_stack.Base.{
  ℕ, suc, Bool, true, false, not, ◌&&◌, ◌==◌, ◌=t◌, ℤ, pos, negsuc, Value, null, bool, int, str,
  datetime, array, object, Items, nil, cons, Fields, end, field, get_field,
}
use dohwa_hermes_stack.Merge.Checks.{has_field}

-- Python's `==` of two values: a truth value equals the number 0 or 1, and the order of the fields
-- of a mapping does not count. Numbers with a fraction are not values of this model.
abbrev same_bool : Bool → Bool → Bool
same_bool true b = b
same_bool false b = not b

abbrev is_number : Bool → ℤ → Bool
is_number true (pos n) = n == 1
is_number false (pos n) = n == 0
is_number b (negsuc n) = false

abbrev same_integer : ℤ → ℤ → Bool
same_integer (pos m) (pos n) = m == n
same_integer (pos m) (negsuc n) = false
same_integer (negsuc m) (pos n) = false
same_integer (negsuc m) (negsuc n) = m == n

abbrev pub count_fields : Fields → ℕ
count_fields end = 0
count_fields (field k v rest) = suc (count_fields rest)

unfoldable mutual
  pub same_value : Value → Value → Bool
  same_value null null = true
  same_value (bool a) (bool b) = same_bool a b
  same_value (bool a) (int n) = is_number a n
  same_value (int m) (bool b) = is_number b m
  same_value (int m) (int n) = same_integer m n
  same_value (str s) (str t) = s =t t
  same_value (datetime a s) (datetime b t) = same_bool a b && s == t
  same_value (array vs) (array ws) = same_items vs ws
  same_value (object f) (object g) = count_fields f == count_fields g && same_fields f g
  same_value _ _ = false

  same_items : Items → Items → Bool
  same_items nil nil = true
  same_items (cons v vs) (cons w ws) = same_value v w && same_items vs ws
  same_items _ _ = false

  same_fields : Fields → Fields → Bool
  same_fields end g = true
  same_fields (field k v rest) g =
      has_field k g && (same_value v (get_field k g) && same_fields rest g)
