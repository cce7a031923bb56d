-- ===== src/Base/Values.antt =====
-- Python values of unknown type, as JSON documents and callers hand them over, and the parts of
-- the language that the checks use on them.
use Prim.Native.Nat.{ℕ, zero, suc}
use Prim.Native.Char.{code}
use Prim.Native.String.{String, count}
use mathlib.Core.Bool.{Bool, true, false, not}
use mathlib.Core.List.{List, [], ◌∷◌}
use dohwa_hermes_stack.Base.Tests.{◌==◌, ◌=t◌, if◌then◌else◌}

-- `negsuc n` is -(n + 1).
pub data ℤ : Type 0 where
  pos : ℕ → ℤ
  negsuc : ℕ → ℤ

mutual
  pub data Value : Type 0 where
    null : Value
    bool : Bool → Value
    int : ℤ → Value
    str : String → Value
    -- whether the time is aware with offset zero, and its microseconds
    datetime : Bool → ℕ → Value
    array : Items → Value
    object : Fields → Value

  pub data Items : Type 0 where
    nil : Items
    cons : Value → Items → Items

  pub data Fields : Type 0 where
    end : Fields
    field : String → Value → Fields → Fields

-- The code points of a text.
abbrev pub codes : String → List ℕ
codes String.[] = []
codes (String.◌∷◌ c s) = code c ∷ codes s

-- `d.get(key)` of a parsed document. A decoder keeps the last of two fields with one name, so a
-- document has each name once; on a document with a repeated name this is the first.
unfoldable pub get_field : String → Fields → Value
get_field key end = null
get_field key (field k v rest) = let later = get_field key rest in if k =t key then v else later

-- `value.get(key)`, where the value is an object; anything else has no such field.
unfoldable pub get : String → Value → Value
unfolding get_field
get key (object fields) = get_field key fields
get key _ = null

-- The items of `value`, where it is an array.
abbrev pub items_list : Items → List Value
items_list nil = []
items_list (cons v vs) = v ∷ items_list vs

abbrev pub is_text : Value → Bool
is_text (str s) = true
is_text _ = false

abbrev pub is_object : Value → Bool
is_object (object f) = true
is_object _ = false

-- `value == "literal"`.
abbrev pub is_literal : String → Value → Bool
is_literal s (str t) = t =t s
is_literal s _ = false

-- `bool(value)`.
abbrev pub truth : Value → Bool
truth null = false
truth (bool b) = b
truth (int (pos n)) = not (n == 0)
truth (int (negsuc n)) = true
truth (str s) = not (s =t "")
truth (datetime u t) = true
truth (array nil) = false
truth (array (cons v vs)) = true
truth (object end) = false
truth (object (field k v f)) = true

-- `text[:n]` and `len(text)`, in characters.
unfoldable pub take_text : ℕ → String → String
take_text zero s = String.[]
take_text (suc n) String.[] = String.[]
take_text (suc n) (String.◌∷◌ c s) = String.◌∷◌ c (take_text n s)

abbrev pub text_length : String → ℕ
text_length s = count s
