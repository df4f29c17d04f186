-- ===== src/Engine/Json.antt =====
-- What encoding/json makes of a text: interface{} holds one of these. Its numbers are float64 values, which are a
-- parameter.
use shipmates_oss.Prelude.{ℕ, Bool, Option, none, some, if◌then◌else◌}
use shipmates_oss.Prelude.Bytes.{Bytes, bytes_eq}

-- The tests that the code makes of a number, against whole numbers.
pub record Numbers : Type 1 where
  pub Number : Type 0
  pub at_least : ℕ → Number → Bool
  pub at_most : ℕ → Number → Bool
  pub is_positive : Number → Bool
  -- int(x), of a number that is not negative
  pub to_int : Number → ℕ

module _ (n : Numbers) where
  mutual
    pub data Json : Type 0 where
      null : Json
      boolean : Bool → Json
      number : n.Number → Json
      text : Bytes → Json
      array : Items → Json
      object : Fields → Json

    pub data Items : Type 0 where
      nil : Items
      cons : Json → Items → Items

    -- A map holds a key once; of a list of fields the first with the key counts.
    pub data Fields : Type 0 where
      end : Fields
      field : Bytes → Json → Fields → Fields

  -- m[key]; none is nil
  abbrev pub get : Bytes → Fields → Option Json
  get key end = none
  get key (field k v rest) = let later = get key rest in if bytes_eq k key then some v else later

  -- m[key].(string)
  abbrev pub text_of : Option Json → Option Bytes
  text_of (some (text s)) = some s
  text_of _ = none

  abbrev pub number_of : Option Json → Option n.Number
  number_of (some (number x)) = some x
  number_of _ = none
