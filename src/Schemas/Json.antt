-- ===== src/Schemas/Json.antt =====
-- The values of `dict[str, Any]` fields (metadata, provenance, resolution): JSON data.
-- Only a text under a known key is ever read.
use nesy_reasoning_mcp.Prelude.{
  ℕ, String, Bool, false, Option, none, some, ◌==◌, text_key, if◌then◌else◌,
}

mutual
  -- A dictionary's entries, in order.
  pub data Fields : Type 0 where
    field : String → Value → Fields → Fields
    end : Fields

  pub data Value : Type 0 where
    obj : Fields → Value
    arr : Items → Value
    text : String → Value
    num : ℕ → Value
    bool : Bool → Value
    null : Value

  -- An array's values, in order.
  pub data Items : Type 0 where
    item : Value → Items → Items
    no_items : Items

-- A dictionary's `get(name)`.
unfoldable pub get : String → Fields → Option Value
get name end = none
get name (field j v rest) = if j == name then some v else get name rest

abbrev is_text : Option Value → String → Bool
is_text (some (text s)) wanted = s == wanted
is_text _ wanted = false

-- `metadata.get("domain") == wanted`
unfoldable pub in_domain : Fields → String → Bool
unfolding get
in_domain metadata wanted = is_text (get "domain" metadata) wanted
