-- ===== src/Access/Tests.antt =====
-- Grants for one action of a small connector, and the theorems about them there.
use ai_base.Common.{
  ◌≤◌, String, ◌≡◌, refl, List, [], ◌∷◌, All, includes, length, none, some, true, false,
}
use ai_base.Text.{is_space, trim_start, trim_end, trim, text_length, is_empty, all_chars, matches}
use ai_base.Json.{Json, str, arr, obj, nil, cons, end, field, get_field}
use ai_base.Access.{returned, refuse_if, Outside}
use ai_base.Access.Texts.{
  required_text, optional_timestamp, texts_of, string_array, add_unique, unique_texts,
}
use ai_base.Access.Actions.{
  cut_at_dot, is_action_id, check_actions, check_count, validate_shared_connector_action_ids,
}
use ai_base.Access.Grants.{
  max_grants, user, SharedConnectorGrant, is_given, is_filled, grant_fields, principal_type_of,
  is_enabled, given_text, lowered, is_reversed, read_principal, is_anonymous, finish_grant,
  read_grant, normalize_grant, normalize_each, normalize_grants,
}
use ai_base.Common.{ℕ, find, keep, any}
use ai_base.Json.{Fields}
use ai_base.Access.Save.{
  Tables, manual, SharedConnectorResource, is_service, is_connection, is_usable,
  validate_connection, text_or, lower_or, mode_of, is_manual, read_organization, read_actions,
  normalize_given, read_grants, check_mode, prepare_resource, upsert, replace_grants,
  save_shared_connector_resource,
}
use ai_base.Access.Removed.{
  has_id, remove_where, forget, delete_shared_connector_resource, save_with_cache,
}
use ai_base.Access.Sane.{IsSane}
use ai_base.Access.Reached.{
  IsRemoved, Reachable, start, saves, Reachable-IsSane, delete_shared_connector_resource-IsRemoved,
}
use ai_base.Access.Replaced.{IsReplaced, save_shared_connector_resource-IsReplaced}
use ai_base.Access.Sound.{
  ArePermitted, IsGrant, validate_shared_connector_action_ids-ArePermitted,
  normalize_grants-IsGrant,
}

abbrev outside : Outside
outside = record {
  lower = λ s. s;
  iso_date = λ s. some s;
  not_before = λ a b. false;
  provider = λ service. returned ("demo.run" ∷ []);
  connections = returned (
      record {
        service = "demo";
        connection_name = "main";
        configured = true;
        auth_type = "api_key";
        display_name = "Demo";
      }
      ∷ []);
  has_binding = λ service name. false;
  has_organization = λ id. true;
}

abbrev actions : Json
actions = arr (cons (str " demo.run ") (cons (str "demo.run") nil))

permits :
    validate_shared_connector_action_ids outside "demo" (some actions) ≡ returned ("demo.run" ∷ [])
unfolding validate_shared_connector_action_ids unique_texts string_array texts_of add_unique
    includes check_count check_actions refuse_if is_action_id cut_at_dot matches all_chars
    text_length is_empty is_space trim_start trim_end trim
permits = refl

validate_shared_connector_action_ids-ArePermitted_example :
    (known : List String) × (outside.provider "demo" ≡ returned known)
    × ArePermitted known ("demo.run" ∷ [])
validate_shared_connector_action_ids-ArePermitted_example =
    validate_shared_connector_action_ids-ArePermitted outside "demo" (some actions)
      ("demo.run" ∷ []) permits

abbrev grant : Json
grant = obj (
    field "principalType" (str "user")
      (field "principalEmail" (str "a@example.com") (field "actionIds" actions end)))

abbrev granted : SharedConnectorGrant
granted = record {
  id = "g";
  principal_type = user;
  principal_issuer = "issuer";
  principal_subject = none;
  principal_email = some "a@example.com";
  group_name = none;
  action_ids = "demo.run" ∷ [];
  starts_at = none;
  expires_at = none;
  enabled = true;
}

grants :
    normalize_grants outside "issuer" "demo" (λ index. "g") (grant ∷ []) ≡ returned (granted ∷ [])
unfolding normalize_grants normalize_each normalize_grant grant_fields principal_type_of get_field
    read_grant unique_texts string_array texts_of add_unique includes check_count check_actions
    refuse_if is_action_id cut_at_dot matches all_chars text_length is_empty is_space trim_start
    trim_end trim optional_timestamp finish_grant is_reversed read_principal given_text is_given
    required_text lowered is_anonymous is_filled is_enabled
grants = refl

normalize_grants-IsGrant_example :
    (known : List String) × (outside.provider "demo" ≡ returned known)
    × All (IsGrant outside "issuer" known) (granted ∷ [])
    × (length (granted ∷ []) ≡ length (grant ∷ []))
    × (length (granted ∷ []) ≤ max_grants)
normalize_grants-IsGrant_example =
    normalize_grants-IsGrant outside "issuer" "demo" (λ index. "g") (grant ∷ []) (granted ∷ [])
      grants

abbrev input : Fields
input =
    field "service" (str "demo")
      (field "connectionName" (str "main") (field "grants" (arr (cons grant nil)) end))

abbrev empty : Tables
empty = record { resources = []; grants = [] }

abbrev filled : Tables
filled = record {
  resources =
      record {
        id = "r";
        service = "demo";
        connection_name = "main";
        display_name = "Demo";
        security_domain = "general";
        authorization_mode = manual;
        wecom_organization_id = none;
        action_ids = [];
        enabled = true;
      }
      ∷ [];
  grants = ("r", granted) ∷ [];
}

saves_grant :
    save_shared_connector_resource outside empty "issuer" "r" (λ index. "g") input
    ≡ returned (filled, "r")
unfolding save_shared_connector_resource prepare_resource validate_connection is_service
    is_connection is_usable text_or lower_or mode_of is_manual check_mode read_organization
    read_actions normalize_given read_grants upsert replace_grants find keep normalize_grants
    normalize_each normalize_grant grant_fields principal_type_of get_field read_grant unique_texts
    string_array texts_of add_unique includes check_count check_actions refuse_if is_action_id
    cut_at_dot matches all_chars text_length is_empty is_space trim_start trim_end trim
    optional_timestamp finish_grant is_reversed read_principal given_text is_given required_text
    lowered is_anonymous is_filled is_enabled
saves_grant = refl

save_shared_connector_resource-IsReplaced_example :
    (ready : SharedConnectorResource × List SharedConnectorGrant) × (prepare_resource outside
        "issuer" "r"
        (λ index. "g")
        input
      ≡ returned ready)
    × IsReplaced empty filled "r" ready.0 ready.1
save_shared_connector_resource-IsReplaced_example =
    save_shared_connector_resource-IsReplaced outside empty "issuer" "r" (λ index. "g") input filled
      "r" saves_grant

saves_with_cache :
    save_with_cache {C = ℕ} outside empty (1 ∷ []) "issuer" "r" (λ index. "g") input
    ≡ returned (filled, 1 ∷ [])
unfolding save_with_cache forget save_shared_connector_resource prepare_resource validate_connection
    is_service is_connection is_usable text_or lower_or mode_of is_manual check_mode
    read_organization read_actions normalize_given read_grants upsert replace_grants find keep
    normalize_grants normalize_each normalize_grant grant_fields principal_type_of get_field
    read_grant unique_texts string_array texts_of add_unique includes check_count check_actions
    refuse_if is_action_id cut_at_dot matches all_chars text_length is_empty is_space trim_start
    trim_end trim optional_timestamp finish_grant is_reversed read_principal given_text is_given
    required_text lowered is_anonymous is_filled is_enabled
saves_with_cache = refl

unused : has_id "r" empty.resources ≡ false
unfolding has_id any
unused = refl

reached : Reachable ℕ outside filled
reached =
    saves empty filled (1 ∷ []) (1 ∷ []) "issuer" "r" (λ index. "g") input start unused
      saves_with_cache

Reachable-IsSane_example : IsSane filled
Reachable-IsSane_example = Reachable-IsSane ℕ outside filled reached

deletes_first :
    delete_shared_connector_resource {C = ℕ} filled (1 ∷ []) " r " ≡ returned (empty, [])
unfolding delete_shared_connector_resource remove_where has_id any keep refuse_if required_text
    text_length is_empty is_space trim_start trim_end trim
deletes_first = refl

delete_shared_connector_resource-IsRemoved_example :
    (key : String) × (required_text (some (str " r ")) "共享连接 ID" 64 ≡ returned key)
    × IsRemoved filled empty key
    × (◌≡◌ {A = List ℕ} [] [])
delete_shared_connector_resource-IsRemoved_example =
    delete_shared_connector_resource-IsRemoved {C = ℕ} filled empty (1 ∷ []) [] " r " deletes_first
