-- ===== src/Value.antt =====
-- The Python values that pass through the client: those that psycopg adapts or returns, and the
-- dataclass `Event` of clients/python/pgque/types.py, which a caller may pass as a payload.
pub mod Json
use pg_que.Base.{ℕ, String, Bool, true, false, Option, none, some, List, [], ◌∷◌}

-- `negsuc n` is -(n + 1).
pub data ℤ : Type 0 where
  pos : ℕ → ℤ
  negsuc : ℕ → ℤ

-- `arr` is a list, `obj` a dict with text keys. `opaque k` is any other object, such as a datetime.
mutual
  pub data Value : Type 0 where
    null : Value
    bool : Bool → Value
    int : ℤ → Value
    str : String → Value
    arr : Items → Value
    obj : Fields → Value
    event : Value → String → Value
    opaque : ℕ → Value

  pub data Items : Type 0 where
    nil : Items
    cons : Value → Items → Items

  pub data Fields : Type 0 where
    end : Fields
    field : String → Value → Fields → Fields

abbrev pub nat : ℕ → Value
nat n = int (ℤ.pos n)

-- `isinstance(v, (dict, list))`
unfoldable pub is_container : Value → Bool
is_container (arr xs) = true
is_container (obj fs) = true
is_container _ = false

-- `hash(v)` raises for a list, a dict, and a dataclass that compares by value.
unfoldable pub is_hashable : Value → Bool
is_hashable (arr xs) = false
is_hashable (obj fs) = false
is_hashable (event v t) = false
is_hashable _ = true

abbrev pub optional_text : Option String → Value
optional_text none = null
optional_text (some s) = str s

unfoldable pub to_items : List Value → Items
to_items [] = nil
to_items (v ∷ vs) = cons v (to_items vs)

unfoldable pub of_items : Items → List Value
of_items nil = []
of_items (cons v xs) = v ∷ of_items xs
