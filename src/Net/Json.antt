-- ===== src/Net/Json.antt =====
-- The JSON of a trust file: what serde reads and writes of a record's fields. Of the values, those
-- that the records have; `other` is any other one.
use Prim.Native.String.{String}
use text.Mathlib.Text as Text
use p2p_distributed_inferenc.Prelude.{ℕ, List, [], ◌∷◌, if◌then◌else◌}

pub data Json : Type 0 where
  null other : Json
  number : ℕ → Json
  string : String → Json
  numbers : List ℕ → Json

abbrev pub Object : Type 0
Object = List (String × Json)

-- What a record's derived `Deserialize` finds of a field: a key may not stand there twice.
pub data Found : Type 0 where
  missing repeated : Found
  value : Json → Found

abbrev pub found_also : Json → Found → Found
found_also v missing = value v
found_also v repeated = repeated
found_also v (value w) = repeated

-- Keys that name no field are passed over.
unfoldable pub field : String → Object → Found
field name [] = missing
field name ((key, v) ∷ rest) =
    let found = field name rest in if Text.◌==◌ key name then found_also v found else found
