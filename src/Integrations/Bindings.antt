-- ===== src/Integrations/Bindings.antt =====
-- The accounts that employees bind to the applications: start, disconnect, and the reconciliation with the
-- connector service.
use ai_base.Common.{
  ℕ, String, List, [], ◌∷◌, Bool, true, false, not, ◌&&◌, ◌||◌, Option, none, some, ◌===◌, any,
  any_pair, keep, map, if◌then◌else◌,
}
use ai_base.Text.{is_empty}
use ai_base.Console.Identity.{ConsoleIdentity}
use ai_base.Integrations.{StoreError, store_error, coded_error, other_error, ConnectorConnection}
use ai_base.Integrations.Tables.{
  BindingStatus, pending, connected, errored, revoked, EmployeeConnectorBindingRow, Tables,
}

pub record EmployeeConnectorBinding : Type 0 where
  pub id : String
  pub application_id : Option String
  pub platform : String
  pub service : String
  pub connection_name : String
  pub status : BindingStatus
  pub display_name : Option String
  pub account_id : Option String
  pub error_message : Option String
  pub connected_at : Option String
  pub updated_at : String

-- `value || undefined`
unfoldable pub given_or_none : Option String → Option String
given_or_none none = none
given_or_none (some s) = if is_empty s then none else some s

unfoldable pub is_revoked : BindingStatus → Bool
is_revoked revoked = true
is_revoked status = false

unfoldable pub is_connected : BindingStatus → Bool
is_connected connected = true
is_connected status = false

unfoldable pub is_owned : String → String → EmployeeConnectorBindingRow → Bool
is_owned issuer subject binding =
    binding.principal_issuer === issuer && binding.principal_subject === subject

-- The binding of an application.
unfoldable pub is_of : String → String → String → EmployeeConnectorBindingRow → Bool
is_of issuer subject service binding =
    is_owned issuer subject binding
    && binding.service === service
    && elim binding.application_id [ none ↦ false | some id ↦ true ]

-- `SELECT … WHERE principal_issuer = $1 AND principal_subject = $2 AND status <> 'revoked'`
unfoldable pub owned_bindings :
    String → String → List EmployeeConnectorBindingRow → List EmployeeConnectorBindingRow
owned_bindings issuer subject bindings =
    keep (λ binding. is_owned issuer subject binding && not (is_revoked binding.status)) bindings

-- What a conflict sets of the row that is there.
unfoldable pub restart_binding :
    EmployeeConnectorBindingRow → EmployeeConnectorBindingRow → EmployeeConnectorBindingRow
restart_binding new old = record old {
  application_id = new.application_id;
  principal_email = new.principal_email;
  principal_name = new.principal_name;
  platform = new.platform;
  connection_name = new.connection_name;
  status = pending;
  display_name = none;
  account_id = none;
  error_message = none;
  connected_at = none;
  updated_at = new.updated_at;
}

unfoldable pub restart_if :
    EmployeeConnectorBindingRow → EmployeeConnectorBindingRow → EmployeeConnectorBindingRow
restart_if new old =
    if is_of new.principal_issuer new.principal_subject new.service old
    then restart_binding new old
    else old

-- The insert, or the update of the row in conflict.
unfoldable pub upsert_binding :
    EmployeeConnectorBindingRow
    → List EmployeeConnectorBindingRow
    → List EmployeeConnectorBindingRow
upsert_binding new bindings =
    if any (is_of new.principal_issuer new.principal_subject new.service) bindings
    then map (restart_if new) bindings
    else new ∷ bindings

-- Two bindings of one id, of one connection, or of one employee and service.
unfoldable pub binding_clash : EmployeeConnectorBindingRow → EmployeeConnectorBindingRow → Bool
binding_clash a b =
    a.id === b.id
    || (a.service === b.service
        && (a.connection_name === b.connection_name
            || (is_of a.principal_issuer a.principal_subject a.service a
                && is_of a.principal_issuer a.principal_subject a.service b)))

unfoldable pub is_binding_violated : List EmployeeConnectorBindingRow → Bool
is_binding_violated bindings = any_pair binding_clash bindings

-- `error instanceof Error ? error.message : …`: all of them are.
unfoldable pub message_of : StoreError → String
message_of (store_error message status) = message
message_of (coded_error message status code names) = message
message_of (other_error message) = message

unfoldable pub fail_binding :
    ConsoleIdentity
    → String
    → String
    → ℕ
    → EmployeeConnectorBindingRow
    → EmployeeConnectorBindingRow
fail_binding identity service message now binding =
    if is_owned identity.principal_issuer identity.principal_subject binding
      && binding.service === service
    then record binding { status = errored; error_message = some message; updated_at = now }
    else binding

unfoldable pub revoke_binding :
    String → Option String → ℕ → EmployeeConnectorBindingRow → EmployeeConnectorBindingRow
revoke_binding id message now binding =
    if binding.id === id
    then record binding { status = revoked; error_message = message; updated_at = now }
    else binding

-- `COALESCE(connected_at, NOW())`
unfoldable pub connected_since : Option ℕ → ℕ → Option ℕ
connected_since none now = some now
connected_since (some time) now = some time

unfoldable pub connect_binding :
    String → ConnectorConnection → ℕ → EmployeeConnectorBindingRow → EmployeeConnectorBindingRow
connect_binding id connection now binding =
    if binding.id === id
    then record binding {
      status = connected;
      display_name = some connection.display_name;
      account_id = some connection.account_id;
      error_message = none;
      connected_at = connected_since binding.connected_at now;
      updated_at = now;
    }
    else binding

-- `new Map(connections.filter(configured).map(…)).get(key)`: the last one of a key.
unfoldable pub configured_connection :
    String → String → List ConnectorConnection → Option ConnectorConnection
configured_connection service name [] = none
configured_connection service name (connection ∷ connections) =
    elim (configured_connection service name connections) [
      | some later ↦ some later
      | none ↦
          if connection.configured
            && connection.service === service
            && connection.connection_name === name
          then some connection
          else none
    ]

unfoldable pub set_bindings : Tables → List EmployeeConnectorBindingRow → Tables
set_bindings tables bindings = record tables { bindings = bindings }

-- The change, unless the test holds.
unfoldable pub map_unless :
    Bool
    → (EmployeeConnectorBindingRow → EmployeeConnectorBindingRow)
    → List EmployeeConnectorBindingRow
    → List EmployeeConnectorBindingRow
map_unless true f bindings = bindings
map_unless false f bindings = map f bindings

-- The loop over the rows.
unfoldable pub reconcile_rows :
    List ConnectorConnection
    → ℕ
    → List EmployeeConnectorBindingRow
    → List EmployeeConnectorBindingRow
    → List EmployeeConnectorBindingRow
reconcile_rows connections now [] bindings = bindings
reconcile_rows connections now (row ∷ rows) bindings =
    elim (configured_connection row.service row.connection_name connections) [
      | some connection ↦
          reconcile_rows connections now rows
            (map_unless (is_connected row.status) (connect_binding row.id connection now) bindings)
      | none ↦ reconcile_rows connections now rows (
          map_unless (not (is_connected row.status))
            (revoke_binding row.id (some "OpenConnector 中的个人连接已不存在") now) bindings)
    ]
