-- ===== src/Access/Removed.antt =====
-- `deleteSharedConnectorResource`, `deleteSharedConnectorResourceByConnection`, and what they and a save do
-- to the cache of visibility.
use ai_base.Common.{ℕ, String, List, [], any, keep, Bool, not, ◌&&◌, some, ◌===◌, if◌then◌else◌}
use ai_base.Json.{str, Fields, get_field}
use ai_base.Access.{Accessed, returned, refuse_if, Outside, ◌>>=◌}
use ai_base.Access.Texts.{required_text}
use ai_base.Access.Save.{SharedConnectorResource, Tables, save_shared_connector_resource}

unfoldable pub has_id : String → List SharedConnectorResource → Bool
has_id id resources = any (λ resource. resource.id === id) resources

-- `DELETE FROM shared_connector_resources WHERE …`: the grants of a resource go with it.
unfoldable pub remove_where : (SharedConnectorResource → Bool) → Tables → Tables
remove_where test tables = record {
  resources = keep (λ resource. not (test resource)) tables.resources;
  grants = keep (λ g. not (has_id g.0 (keep test tables.resources))) tables.grants;
}

unfoldable pub is_connection_of : String → String → SharedConnectorResource → Bool
is_connection_of service name resource =
    resource.service === service && resource.connection_name === name

module _ {C : Type 0} where
  -- `if (service === "wecom_bot") globalThis.aiBaseWeComVisibilityCache = undefined`
  unfoldable pub forget : String → List C → List C
  forget service cache = if service === "wecom_bot" then [] else cache

  -- An id that is not a UUID, which the database refuses, is here the id of no row, which fails too.
  unfoldable pub delete_shared_connector_resource :
      Tables → List C → String → Accessed (Tables × List C)
  delete_shared_connector_resource tables cache id =
      required_text (some (str id)) "共享连接 ID" 64 >>= λ resource_id.
      refuse_if (not (has_id resource_id tables.resources)) "共享连接授权不存在" 404
        (returned (remove_where (λ resource. resource.id === resource_id) tables, []))

  unfoldable pub delete_shared_connector_resource_by_connection :
      Tables → List C → String → String → Tables × List C
  delete_shared_connector_resource_by_connection tables cache service name =
      (remove_where (is_connection_of service name) tables, forget service cache)

  -- A save, with the cache after it.
  unfoldable pub save_with_cache :
      Outside
      → Tables
      → List C
      → String
      → String
      → (ℕ → String)
      → Fields
      → Accessed (Tables × List C)
  save_with_cache outside tables cache issuer id uuid input =
      required_text (get_field input "service") "Connector Service ID" 128 >>= λ service.
      save_shared_connector_resource outside tables issuer id uuid input >>= λ saved.
      returned (saved.0, forget service cache)
