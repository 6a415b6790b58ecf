-- ===== src/Resolve/Input.antt =====
-- The values of a request, and the WeCom identities that it has.
use ai_base.Common.{
  ℕ, String, List, [], ◌∷◌, Bool, not, ◌&&◌, Option, none, some, ◌===◌, ◌<>◌, ◌==◌, find, keep, map,
  take, if◌then◌else◌,
}
use ai_base.Common.Attempt.{Attempt, returned, fail_if, ◌>>=◌}
use ai_base.Text.{trim, is_empty, text_length, all_chars, starts_with, drop_chars}
use ai_base.Text.Cut.{take_chars}
use ai_base.Json.{str}
use ai_base.Access.Texts.{add_unique}
use ai_base.Integrations.{StoreError, coded_error, Outside}
use ai_base.Integrations.Catalog.{required_value}
use ai_base.Resolve.{WeComIdentityLinkRow, OrganizationRow, Directory, WeComIdentity}
use ai_base.Resolve.Visibility.{is_low_hex, is_user_id_hash}

pub record ResolutionInput : Type 0 where
  pub issuer : String
  pub subject : String
  pub email : Option String
  pub groups : List String
  pub wecom_user_id_hash : Option String
  pub service : Option String
  pub requested_connection_name : Option String
  pub action_id : Option String

-- The values that are checked.
pub record Query : Type 0 where
  pub issuer : String
  pub subject : String
  pub email : Option String
  pub groups : List String
  pub service : Option String
  pub requested_connection_name : Option String
  pub action_id : Option String

-- A value that is checked if it is there and not empty.
unfoldable pub optional_query : Option String → String → ℕ → Attempt StoreError (Option String)
optional_query none label max_length = returned none
optional_query (some s) label max_length =
    if is_empty s
    then returned none
    else required_value (some (str s)) label max_length >>= λ value. returned (some value)

-- `WECOM_CORP_GROUP_PATTERN`
unfoldable pub is_corp_group : String → Bool
is_corp_group group =
    starts_with group "wecom:"
    && text_length (drop_chars 6 group) == 12
    && all_chars is_low_hex (drop_chars 6 group)

module _ (outside : Outside) where
  -- The email in lower case, if there is one.
  unfoldable pub lowered_email : Option String → Option String
  lowered_email none = none
  lowered_email (some s) = some (outside.lower (trim s))

  -- "default" is no name.
  unfoldable pub given_name : Option String → Option String
  given_name none = none
  given_name (some s) = if outside.lower s === "default" then none else some s

  unfoldable pub query_groups : List String → List String
  query_groups groups = add_unique [] (
      take 256 (
        map (λ group. outside.lower (trim group))
          (keep (λ group. not (is_empty (trim group))) groups)))

  unfoldable pub read_query : ResolutionInput → Attempt StoreError Query
  read_query input = do
    issuer ← required_value (some (str input.issuer)) "Issuer" 2048
    subject ← required_value (some (str input.subject)) "Subject" 512
    email ← optional_query (lowered_email input.email) "Email" 320
    service ← optional_query input.service "Service" 128
    name ← optional_query input.requested_connection_name "Connection name" 128
    action_id ← optional_query input.action_id "Action ID" 384
    returned (record {
      issuer = issuer;
      subject = subject;
      email = email;
      groups = query_groups input.groups;
      service = service;
      requested_connection_name = given_name name;
      action_id = action_id;
    })

  unfoldable pub linked_identity_of : WeComIdentityLinkRow → WeComIdentity
  linked_identity_of row = record {
    organization_id = row.organization_id;
    user_id_hash = row.wecom_user_id_hash;
  }

  unfoldable pub get_linked_we_com_identity_claims : Directory → Query → List WeComIdentity
  get_linked_we_com_identity_claims directory query = map linked_identity_of (
      keep (λ row. row.principal_issuer === query.issuer && row.principal_subject === query.subject)
        directory.links)

  -- An active organization with the group.
  unfoldable pub has_corp_group : String → OrganizationRow → Bool
  has_corp_group group organization =
      organization.active
      && ("wecom:" <> take_chars 12 (outside.hex (outside.sha256 organization.corp_id))) === group

  -- The identity of the only group of an organization.
  unfoldable pub grouped_identities : Directory → List String → String → List WeComIdentity
  grouped_identities directory (group ∷ []) hash =
      elim (find (has_corp_group group) directory.organizations) [
        | none ↦ []
        | some organization ↦ record { organization_id = organization.id; user_id_hash = hash } ∷ []
      ]
  grouped_identities directory groups hash = []

  -- A hash that is given replaces the links.
  unfoldable pub we_com_identities :
      Directory → Query → Option String → Attempt StoreError (List WeComIdentity)
  we_com_identities directory query none =
      returned (get_linked_we_com_identity_claims directory query)
  we_com_identities directory query (some hash) =
      if is_empty hash
      then returned (get_linked_we_com_identity_claims directory query)
      else fail_if (not (is_user_id_hash hash))
          (coded_error "企微用户身份摘要格式无效" 400 "invalid_wecom_identity" [])
          (returned (grouped_identities directory (keep is_corp_group query.groups) hash))
