-- ===== src/Access/Actions.antt =====
-- The checks of a list of action ids, which grants and shared bots have in common.
use Prim.Native.Char.{Char, code}
use Prim.Native.String.{[], ◌∷◌}
use ai_base.Common.{
  ℕ, String, List, [], ◌∷◌, Bool, false, not, ◌&&◌, ◌||◌, Option, none, some, ◌==◌, ◌<>◌, ltb,
  length, includes, if◌then◌else◌,
}
use ai_base.Text.{is_lower, is_upper, is_digit, matches}
use ai_base.Json.{Json}
use ai_base.Access.{Accessed, returned, refuse_if, Outside, ◌>>=◌}
use ai_base.Access.Texts.{unique_texts}

abbrev pub max_actions : ℕ
max_actions = 1000

abbrev pub hard_denied_connector_action_ids : List String
hard_denied_connector_action_ids =
    "wecom_bot.call_tool" ∷ "wecom_bot.send_text_message" ∷ "wecom_bot.send_markdown_message"
    ∷ "wecom_bot.send_markdown_v2_message" ∷ "wecom_bot.send_image_message"
    ∷ "wecom_bot.send_news_message" ∷ []

abbrev pub service_first : ℕ → Bool
service_first c = is_lower c || is_digit c

abbrev pub service_rest : ℕ → Bool
service_rest c = is_lower c || is_digit c || c == b'_' || c == b'-'

abbrev pub name_first : ℕ → Bool
name_first c = is_lower c || is_upper c || is_digit c

abbrev pub name_rest : ℕ → Bool
name_rest c = is_lower c || is_upper c || is_digit c || c == b'_' || c == b'-'

abbrev pub action_rest : ℕ → Bool
action_rest c = name_rest c || c == b'.'

abbrev onto : Char → Option (String × String) → Option (String × String)
onto c none = none
onto c (some parts) = some (c ∷ parts.0, parts.1)

-- The texts before and after the first dot.
unfoldable pub cut_at_dot : String → Option (String × String)
cut_at_dot [] = none
cut_at_dot (c ∷ s) = let rest = cut_at_dot s in if code c == b'.' then some ("", s) else onto c rest

-- `ACTION_PATTERN`: its first part has no dot.
unfoldable pub is_action_id : String → Bool
is_action_id s = elim (cut_at_dot s) [
  | none ↦ false
  | some parts ↦
      matches service_first service_rest 127 parts.0 && matches name_first action_rest 255 parts.1
]

-- The loop over the action ids.
unfoldable pub check_actions {ℓ} :
    {A : Type ℓ} → List String → List String → Accessed A → Accessed A
check_actions known [] next = next
check_actions known (id ∷ ids) next =
    refuse_if (not (is_action_id id) || not (includes known id)) ("Action " <> id <> " 不存在") 400 (
      refuse_if (includes hard_denied_connector_action_ids id) ("Action " <> id <> " 属于系统禁止项") 409
        (check_actions known ids next))

-- The checks of the number of actions.
unfoldable pub check_count {ℓ} : {A : Type ℓ} → String → List String → Accessed A → Accessed A
check_count nothing ids next =
    refuse_if (length ids == 0) nothing 400
      (refuse_if (ltb max_actions (length ids)) "Action 不能超过 1000 个" 400 next)

unfoldable pub validate_shared_connector_action_ids :
    Outside → String → Option Json → Accessed (List String)
validate_shared_connector_action_ids outside service value =
    let ids = unique_texts value in
    check_count "企微机器人至少选择一个可用 Action" ids
      (outside.provider service >>= λ known. check_actions known ids (returned ids))
