-- ===== src/Json.antt =====
-- JSON values, as `JSON.parse` and `request.json()` give them, and the `typeof` reads of the source.
-- `undefined` is `none`. A number is an integer, where `negative n` is -(n + 1), or the text of another
-- one.
use ai_base.Common.{
  ℕ, String, List, [], ◌∷◌, Bool, true, false, Option, none, some, ◌===◌, if◌then◌else◌,
}
use ai_base.Text.{trim}

mutual
  pub data Json : Type 0 where
    null : Json
    bool : Bool → Json
    int : ℕ → Json
    negative : ℕ → Json
    fraction : String → Json
    str : String → Json
    arr : Items → Json
    obj : Fields → Json

  pub data Items : Type 0 where
    nil : Items
    cons : Json → Items → Items

  pub data Fields : Type 0 where
    end : Fields
    field : String → Json → Fields → Fields

abbrev pub items : Items → List Json
items nil = []
items (cons v vs) = v ∷ items vs

abbrev pub array : List Json → Items
array [] = nil
array (v ∷ vs) = cons v (array vs)

-- A parsed object has each key once.
unfoldable pub get_field : Fields → String → Option Json
get_field end key = none
get_field (field k v rest) key = if k === key then some v else get_field rest key

-- `isObject(value)`, with the object.
abbrev pub object? : Json → Option Fields
object? (obj fields) = some fields
object? _ = none

-- `Array.isArray(value)`, with the entries.
abbrev pub array? : Option Json → Option (List Json)
array? (some (arr vs)) = some (items vs)
array? _ = none

-- `typeof value === "string" ? value.trim() : fallback`
abbrev pub trimmed_or : String → Option Json → String
trimmed_or fallback (some (str s)) = trim s
trimmed_or fallback _ = fallback

-- `typeof value === "string" ? value.trim() : undefined`
abbrev pub trimmed? : Option Json → Option String
trimmed? (some (str s)) = some (trim s)
trimmed? _ = none

-- `typeof value === "boolean"`, with the Boolean.
abbrev pub bool? : Option Json → Option Bool
bool? (some (bool b)) = some b
bool? _ = none

-- `value === true`
abbrev pub is_true : Option Json → Bool
is_true (some (bool true)) = true
is_true _ = false

-- `Object.keys(value)`
unfoldable pub keys : Fields → List String
keys end = []
keys (field k v rest) = k ∷ keys rest

-- `typeof value === "string"`, with the text.
abbrev pub string? : Option Json → Option String
string? (some (str s)) = some s
string? _ = none
