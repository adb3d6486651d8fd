-- ===== src/Json.antt =====
-- The values of `dict[str, Any]`: what `json.loads` returns, and what the program puts into one.
-- A dict keeps its insertion order. A float is counted in millionths: the program's own floats are
-- decimals of at most six places, which `round(x, 6)` returns too.
pub mod Dict
pub mod Lists
pub mod Equal
pub mod Sort
pub mod Order
pub mod Sorted
pub mod Entries
pub mod Text
pub mod Unordered
use simulation_ai.Prelude.{Bool, true, false, not, String, List, [], ◌∷◌}
use simulation_ai.Prelude.Int.{ℤ, pos, eqb_ℤ}
use simulation_ai.Prelude.Texts.{is_empty}

mutual
  pub data Value : Type 0 where
    null : Value
    bool : Bool → Value
    int : ℤ → Value
    float : ℤ → Value
    str : String → Value
    obj : Fields → Value
    arr : Items → Value

  pub data Items : Type 0 where
    nil : Items
    cons : Value → Items → Items

  pub data Fields : Type 0 where
    end : Fields
    field : String → Value → Fields → Fields

-- A list of texts, of values.
unfoldable pub texts : List String → Items
texts [] = nil
texts (s ∷ l) = cons (str s) (texts l)

unfoldable pub items : List Value → Items
items [] = nil
items (v ∷ l) = cons v (items l)

abbrev pub empty_list : Value
empty_list = arr nil

abbrev pub empty_dict : Value
empty_dict = obj end

-- `bool(v)`
unfoldable pub truthy : Value → Bool
truthy null = false
truthy (bool b) = b
truthy (int n) = not (eqb_ℤ n (pos 0))
truthy (float m) = not (eqb_ℤ m (pos 0))
truthy (str s) = not (is_empty s)
truthy (arr nil) = false
truthy (arr (cons x xs)) = true
truthy (obj end) = false
truthy (obj (field k v d)) = true
