-- ===== src/Resolve/Tests.antt =====
-- An employee with one grant, and the theorems about the selection there.
use ai_base.Common.{
  String, ◌≡◌, ◌↔◌, refl, List, [], ◌∷◌, true, false, some, none, any, keep, includes, take,
  sort_by, insert_by,
}
use ai_base.Common.Attempt.{returned, fail_if}
use ai_base.Text.{is_space, trim_start, trim_end, trim, text_length, is_empty}
use ai_base.Json.{str}
use ai_base.Access.Texts.{add_unique}
use ai_base.Access.Grants.{user}
use ai_base.Access.Save.{manual, is_manual}
use ai_base.Integrations.{ConnectorConnection, Outside}
use ai_base.Integrations.Catalog.{required_value}
use ai_base.Integrations.Bindings.{configured_connection}
use ai_base.Resolve.{Directory, World, WeComIdentity, controlled_shared, ResolvedConnection}
use ai_base.Resolve.Visibility.{CacheEntry}
use ai_base.Text.Cut.{trimmed_parts}
use ai_base.Resolve.Input.{
  ResolutionInput, Query, read_query, optional_query, lowered_email, given_name, query_groups,
  get_linked_we_com_identity_claims, we_com_identities,
}
use ai_base.Resolve.Rows.{
  is_asked, name_or, is_personal, comes_before, bound_rows, names_user, names_principal, is_current,
  is_granted, resource_before, granted_rows, shared_rows, granted_connection, add_granted,
  merge_granted, sort_allowed, granted_connections, is_public,
}
use ai_base.Resolve.Select.{
  asks_bots, resolve_we_com_visibility_resources, resolved_connections, allows, narrow, only,
  select_connection, conclude, resolve_employee_connector_bindings,
}
use ai_base.Resolve.Resolved.{IsAuthorized}
use ai_base.Resolve.Selected.{Answers, resolve_employee_connector_bindings-IsAuthorized}
use ai_base.Resolve.Only.{is_match, select_connection-only}

abbrev connection : ConnectorConnection
connection = record {
  service = "github";
  connection_name = "main";
  configured = true;
  virtual_connection = false;
  auth_type = "oauth2";
  display_name = "GitHub";
  account_id = "1";
}

abbrev outside : Outside
outside = record {
  sha256 = λ text. [];
  hex = λ bytes. "";
  encrypt = λ key nonce text. ([], []);
  decrypt = λ key nonce body tag. none;
  decode = λ text. [];
  encode = λ bytes. "";
  iso = λ time. "";
  lower = λ text. text;
  sorts_before = λ a b. true;
  get_connector_provider = λ service. returned (record { actions = []; oauth_scopes = none });
  list_connector_connections = returned (connection ∷ []);
  save_connector_oauth_config = λ service config. none;
  start_connector_oauth_authorization = λ service name ids. returned (str "started");
  delete_connector_connection = λ service name. none;
}

abbrev world : World
world = record {
  outside = outside;
  collates = λ a b. true;
  unit_before = λ a b. true;
  run_connector_action = λ id name. none;
  has_started = λ time. true;
  has_expired = λ time. false;
}

abbrev directory : Directory
directory = record {
  links = [];
  organizations = [];
  accounts = record { applications = []; bindings = []; oauth_clients = [] };
  shared = record {
    resources =
        record {
          id = "r1";
          service = "github";
          connection_name = "main";
          display_name = "Main";
          security_domain = "dev";
          authorization_mode = manual;
          wecom_organization_id = none;
          action_ids = "github.get_repo" ∷ "github.list_repos" ∷ [];
          enabled = true;
        }
        ∷ [];
    grants =
        (
          "r1",
          record {
            id = "g1";
            principal_type = user;
            principal_issuer = "https://issuer";
            principal_subject = some "usr_1";
            principal_email = none;
            group_name = none;
            action_ids = "github.get_repo" ∷ [];
            starts_at = none;
            expires_at = some "2030-01-01T00:00:00.000Z";
            enabled = true;
          },
        )
        ∷ [];
  };
}

abbrev input : ResolutionInput
input = record {
  issuer = "https://issuer";
  subject = "usr_1";
  email = none;
  groups = [];
  wecom_user_id_hash = none;
  service = some "github";
  requested_connection_name = none;
  action_id = some "github.get_repo";
}

abbrev query : Query
query = record {
  issuer = "https://issuer";
  subject = "usr_1";
  email = none;
  groups = [];
  service = some "github";
  requested_connection_name = none;
  action_id = some "github.get_repo";
}

abbrev chosen : ResolvedConnection
chosen = record {
  service = "github";
  connection_name = "main";
  display_name = "Main";
  access_mode = controlled_shared;
  action_restricted = true;
  allowed_action_ids = "github.get_repo" ∷ [];
  policy_ids = "g1" ∷ [];
  wecom_organization_id = none;
}

resolve_employee_connector_bindings-IsAuthorized_example :
    (query : Query) × (identities : List WeComIdentity) × (connections : List ConnectorConnection)
    × (service : String) × (read_query outside input ≡ returned query)
    × (we_com_identities outside directory query none ≡ returned identities)
    × (outside.list_connector_connections ≡ returned connections)
    × (query.service ≡ some service)
    × ((found : List ResolvedConnection × List CacheEntry) × (resolved_connections world directory
            query identities 0 []
          ≡ returned found)
        × IsAuthorized world directory query connections identities 0 [] found.0 chosen)
    × Answers world directory query service chosen
unfolding trimmed_parts any keep includes take sort_by insert_by fail_if is_space trim_start
    trim_end trim text_length is_empty add_unique is_manual required_value configured_connection
    read_query optional_query lowered_email given_name query_groups
    get_linked_we_com_identity_claims we_com_identities is_asked name_or is_personal comes_before
    bound_rows names_user names_principal is_current is_granted resource_before granted_rows
    shared_rows granted_connection add_granted merge_granted sort_allowed granted_connections
    is_public asks_bots resolve_we_com_visibility_resources resolved_connections allows narrow only
    select_connection conclude resolve_employee_connector_bindings
resolve_employee_connector_bindings-IsAuthorized_example =
    resolve_employee_connector_bindings-IsAuthorized world directory input 0 [] [] chosen refl

select_connection-only_example :
    (select_connection world query "github" (chosen ∷ []) ≡ returned chosen)
    ↔ (keep (is_match world query "github") (chosen ∷ []) ≡ chosen ∷ [])
select_connection-only_example = select_connection-only world query "github" (chosen ∷ []) chosen
