-- ===== src/Resolve/Visibility.antt =====
-- Which bots of an organization an employee sees: the users that a bot lists, kept for a minute.
use ai_base.Common.{
  ℕ, zero, ◌+◌, String, List, [], ◌∷◌, Bool, true, false, not, ◌&&◌, ◌||◌, Option, none, some,
  ◌===◌, ◌==◌, leb, ltb, keep, if◌then◌else◌,
}
use ai_base.Common.Attempt.{Attempt, returned, failed}
use ai_base.Text.{is_empty, text_length, all_chars, is_digit}
use ai_base.Json.{Json, int, str, get_field, object?, array?}
use ai_base.Integrations.{StoreError, store_error, Outside}
use ai_base.Resolve.{World}

-- A digit of `[a-f0-9]`.
abbrev pub is_low_hex : ℕ → Bool
is_low_hex c = is_digit c || (leb b'a' c && leb c b'f')

-- `WECOM_USER_ID_HASH_PATTERN`
unfoldable pub is_user_id_hash : String → Bool
is_user_id_hash s = text_length s == 64 && all_chars is_low_hex s

unfoldable pub hash_we_com_user_id : Outside → String → String
hash_we_com_user_id outside id = outside.hex (outside.sha256 id)

-- `errcode === 0`
unfoldable pub is_success : Option Json → Bool
is_success (some (int zero)) = true
is_success value = false

-- `userid` of an entry, if it is a text that is not empty.
unfoldable pub user_id_of : Json → Option String
user_id_of value = elim (object? value) [
  | none ↦ none
  | some fields ↦ elim (get_field fields "userid") [
    | none ↦ none
    | some (str s) ↦ if is_empty s then none else some s
    | some other ↦ none
  ]
]

-- The hashes of the users.
unfoldable pub user_hashes : Outside → List Json → List String
user_hashes outside [] = []
user_hashes outside (value ∷ values) =
    let rest = user_hashes outside values in
    elim (user_id_of value) [ none ↦ rest | some id ↦ hash_we_com_user_id outside id ∷ rest ]

-- The list of users of an answer.
unfoldable pub user_list : Json → Option (List Json)
user_list value = elim (object? value) [
  | none ↦ none
  | some fields ↦
      if is_success (get_field fields "errcode") then array? (get_field fields "userlist") else none
]

unfoldable pub parse_we_com_visible_user_id_hashes :
    Outside → Json → Attempt StoreError (List String)
parse_we_com_visible_user_id_hashes outside value = elim (user_list value) [
  | none ↦ failed (store_error "企微机器人可见范围查询失败" 502)
  | some users ↦ returned (user_hashes outside users)
]

-- `aiBaseWeComVisibilityCache`: a connection, when its entry expires, and the hashes.
pub record CacheEntry : Type 0 where
  pub connection_name : String
  pub expires_at : ℕ
  pub user_id_hashes : List String

abbrev pub cache_ttl : ℕ
cache_ttl = 60000

unfoldable pub cached : String → List CacheEntry → Option CacheEntry
cached name [] = none
cached name (entry ∷ entries) =
    let rest = cached name entries in if entry.connection_name === name then some entry else rest

unfoldable pub drop_entry : String → List CacheEntry → List CacheEntry
drop_entry name entries = keep (λ entry. not (entry.connection_name === name)) entries

-- What the bot lists now, `none` where the query fails.
unfoldable pub listed_hashes : World → String → Option (List String)
listed_hashes world name = elim (world.run_connector_action "wecom_bot.get_userlist" name) [
  | none ↦ none
  | some value ↦ elim (parse_we_com_visible_user_id_hashes world.outside value) [
    | failed error ↦ none
    | returned hashes ↦ some hashes
  ]
]

-- A query, whose answer is kept.
unfoldable pub refresh_hashes :
    World → ℕ → List CacheEntry → String → Option (List String) × List CacheEntry
refresh_hashes world now cache name = elim (listed_hashes world name) [
  | none ↦ (none, drop_entry name cache)
  | some hashes ↦ (
    some hashes,
    record { connection_name = name; expires_at = now + cache_ttl; user_id_hashes = hashes }
        ∷ drop_entry name cache,
  )
]

-- `none` where it throws.
unfoldable pub read_we_com_visible_user_id_hashes :
    World → ℕ → List CacheEntry → String → Option (List String) × List CacheEntry
read_we_com_visible_user_id_hashes world now cache name = elim (cached name cache) [
  | none ↦ refresh_hashes world now cache name
  | some entry ↦
      if ltb now entry.expires_at
      then (some entry.user_id_hashes, cache)
      else refresh_hashes world now cache name
]
