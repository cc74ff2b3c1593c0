-- ===== src/Context/Document.antt =====
-- JSON values as Python reads them, and what app/batch/models.py writes in a checkpoint. An object
-- is its keys in order.
use stockapp.Prelude.{
  ℕ, Bool, true, false, Option, none, some, List, [], ◌∷◌, String, if◌then◌else◌, str_eq,
}
use stockapp.Outcome.{Tally}

mutual
  pub data Json : Type 0 where
    null : Json
    bool : Bool → Json
    int : ℕ → Json
    -- The integer below 0 with this absolute value.
    negative : ℕ → Json
    -- A number that is not an integer.
    number : String → Json
    string : String → Json
    list : Items → Json
    object : Fields → Json

  pub data Items : Type 0 where
    no_items : Items
    item : Json → Items → Items

  pub data Fields : Type 0 where
    no_fields : Fields
    field : String → Json → Fields → Fields

-- payload.get(key); a missing key reads as None.
abbrev pub get : Fields → String → Json
get no_fields key = null
get (field name value rest) key = if str_eq name key then value else get rest key

-- `isinstance(value, int) and value >= 0`: a bool is an int to Python.
abbrev pub as_count : Json → Option ℕ
as_count (int n) = some n
as_count (bool true) = some 1
as_count (bool false) = some 0
as_count _ = none

abbrev pub of_option {ℓ} : {A : Type ℓ} → (A → Json) → Option A → Json
of_option write none = null
of_option write (some a) = write a

abbrev pub items_of : List String → Items
items_of [] = no_items
items_of (s ∷ strings) = item (string s) (items_of strings)

abbrev pub of_strings : List String → Json
of_strings strings = list (items_of strings)

abbrev pub fields_of : Tally → Fields
fields_of [] = no_fields
fields_of ((name, n) ∷ counts) = field name (int n) (fields_of counts)

abbrev pub of_tally : Tally → Json
of_tally counts = object (fields_of counts)
