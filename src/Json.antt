-- ===== src/Json.antt =====
-- The values that `json.loads` gives and `json.dumps` takes, with Python's truth and iteration.
use logvine.Prelude.{
  ℕ, zero, suc, Bool, true, false, Option, none, some, List, [], ◌∷◌, if◌then◌else◌, ◌==◌,
}
use logvine.Prelude.Bytes.{bytes_eq}
use logvine.Prelude.Text.{Text}
use logvine.Prelude.Result.{Result, ok, raise, type_error}

-- Integers below 0 and floats occur as nothing but their truth value.
mutual
  pub data Json : Type 0 where
    null : Json
    boolean : Bool → Json
    number : ℕ → Json
    other_number : Bool → Json
    string : Text → Json
    array : JsonItems → Json
    object : JsonFields → Json

  pub data JsonItems : Type 0 where
    no_items : JsonItems
    item : Json → JsonItems → JsonItems

  -- A dictionary, whose keys differ from each other.
  pub data JsonFields : Type 0 where
    no_fields : JsonFields
    field : Text → Json → JsonFields → JsonFields

-- data.get(name)
unfoldable pub get_field : Text → JsonFields → Option Json
get_field name no_fields = none
get_field name (field n v rest) =
    let later = get_field name rest in if name == n then some v else later

-- `if value`
unfoldable pub truthy : Json → Bool
truthy null = false
truthy (boolean b) = b
truthy (number zero) = false
truthy (number (suc n)) = true
truthy (other_number b) = b
truthy (string []) = false
truthy (string (c ∷ cs)) = true
truthy (array no_items) = false
truthy (array (item v rest)) = true
truthy (object no_fields) = false
truthy (object (field n v rest)) = true

abbrev pub characters : Text → List Json
characters [] = []
characters (c ∷ cs) = string (c ∷ []) ∷ characters cs

abbrev pub item_list : JsonItems → List Json
item_list no_items = []
item_list (item v rest) = v ∷ item_list rest

abbrev pub names : JsonFields → List Json
names no_fields = []
names (field n v rest) = string n ∷ names rest

-- What `for x in value` and `len(value)` go over: a number, a Boolean and None have no items.
unfoldable pub iterate : Json → Result (List Json)
iterate null = raise type_error
iterate (boolean b) = raise type_error
iterate (number n) = raise type_error
iterate (other_number b) = raise type_error
iterate (string text) = ok (characters text)
iterate (array items) = ok (item_list items)
iterate (object fields) = ok (names fields)

abbrev pub from_list : List Json → JsonItems
from_list [] = no_items
from_list (v ∷ vs) = item v (from_list vs)
