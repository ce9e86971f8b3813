-- ===== src/Prelude/Json.antt =====
-- The values of JSON that the database and the requests carry.
use mathlib.Core.Bool.{Bool}
use gemone.Prelude.Lists.{Text}

-- A value of JSON; a number is kept as its text.
mutual
  pub data Json : Type 0 where
    null : Json
    boolean : Bool → Json
    number : Text → Json
    string : Text → Json
    array : JsonList → Json
    object : JsonFields → Json

  pub data JsonList : Type 0 where
    no_item : JsonList
    item : Json → JsonList → JsonList

  pub data JsonFields : Type 0 where
    no_field : JsonFields
    field : Text → Json → JsonFields → JsonFields
