-- ===== src/Access/Texts.antt =====
-- The readers of texts, lists of texts and timestamps.
use ai_base.Common.{
  ℕ, String, List, [], ◌∷◌, ◌++◌, Option, none, some, ltb, ◌<>◌, includes, if◌then◌else◌,
}
use ai_base.Text.{text_length, is_empty, decimal}
use ai_base.Json.{Json, null, str, trimmed_or, items, arr}
use ai_base.Access.{Accessed, returned, store_error, Outside}

unfoldable pub required_text : Option Json → String → ℕ → Accessed String
required_text value label max_length =
    let normalized = trimmed_or "" value in
    if is_empty normalized
    then store_error (label <> "不能为空") 400
    else if ltb max_length (text_length normalized)
    then store_error (label <> "不能超过 " <> decimal max_length <> " 个字符") 400
    else returned normalized

unfoldable pub dated : Option String → String → Accessed (Option String)
dated none label = store_error (label <> "格式无效") 400
dated (some iso) label = returned (some iso)

unfoldable pub optional_timestamp : Outside → Option Json → String → Accessed (Option String)
optional_timestamp outside none label = returned none
optional_timestamp outside (some null) label = returned none
optional_timestamp outside (some (str s)) label =
    if is_empty s then returned none else dated (outside.iso_date s) label
optional_timestamp outside (some value) label = store_error (label <> "格式无效") 400

-- The texts of a list that are not blank, trimmed.
unfoldable pub texts_of : List Json → List String
texts_of [] = []
texts_of (v ∷ vs) =
    let rest = texts_of vs in
    let s = trimmed_or "" (some v) in if is_empty s then rest else s ∷ rest

unfoldable pub string_array : Option Json → List String
string_array (some (arr vs)) = texts_of (items vs)
string_array _ = []

-- `Array.from(new Set(texts))`, after the texts that the set already has.
unfoldable pub add_unique : List String → List String → List String
add_unique seen [] = seen
add_unique seen (s ∷ ss) = add_unique (if includes seen s then seen else seen ++ s ∷ []) ss

unfoldable pub unique_texts : Option Json → List String
unique_texts value = add_unique [] (string_array value)
