-- ===== src/Gateway/Probe/Mcp.antt =====
-- `testGatewayMcpServer`: the handshake, the list of the tools, and the result.
use ai_base.Common.{
  ℕ, String, List, [], ◌∷◌, ◌++◌, map, Bool, true, false, Option, none, some, ◌<>◌, length,
  if◌then◌else◌,
}
use ai_base.Common.Results.{Result, thrown}
use ai_base.Text.{lowers_to, decimal}
use ai_base.Json.{Json, int, str, obj, Fields, end, field, get_field, object?}
use ai_base.Gateway.Types.{GatewayMcpServerDraft}
use ai_base.Gateway.Store.{Store}
use ai_base.Gateway.Managed.{Env}
use ai_base.Gateway.Probe.{Headers, Remote, is_success, resolve_mcp_test_key, usable_key}
use ai_base.Gateway.Probe.Tools.{
  reply, lost, GatewayMcpTool, listed, refused, interrupted, Ending, list_pages, post_mcp_request,
}

pub record GatewayMcpServerTestResult : Type 0 where
  pub ok : Bool
  pub status : Option ℕ
  pub latency_ms : ℕ
  pub message : String
  pub discovered_tools : List String
  pub tools : List GatewayMcpTool

abbrev pub failure : ℕ → Option ℕ → String → GatewayMcpServerTestResult
failure elapsed status message = record {
  ok = false;
  status = status;
  latency_ms = elapsed;
  message = message;
  discovered_tools = [];
  tools = [];
}

-- The `catch` block.
unfoldable pub lost_result : ℕ → Bool → GatewayMcpServerTestResult
lost_result elapsed timed_out =
    failure elapsed none (if timed_out then "连接测试超时（8 秒）" else "无法连接 MCP 服务")

-- From the end of the loop on.
unfoldable pub result_of_ending : ℕ → Ending → GatewayMcpServerTestResult
result_of_ending elapsed (refused status message) = failure elapsed status message
result_of_ending elapsed (interrupted timed_out) = lost_result elapsed timed_out
result_of_ending elapsed (listed status tools) = record {
  ok = true;
  status = some status;
  latency_ms = elapsed;
  message = "连接成功，发现 " <> decimal (length tools) <> " 个工具";
  discovered_tools = map (λ tool. tool.name) tools;
  tools = tools;
}

abbrev pub initialize_request : Json
initialize_request = obj (
    field "jsonrpc" (str "2.0") (
      field "id" (int 1) (
        field "method" (str "initialize") (
          field "params"
            (obj (
              field "protocolVersion" (str "2025-06-18") (
                field "capabilities" (obj end) (
                  field "clientInfo"
                    (obj (field "name" (str "ai-base-console") (field "version" (str "0.1.0") end)))
                    end))))
            end))))

abbrev pub initialized_request : Json
initialized_request =
    obj (field "jsonrpc" (str "2.0") (field "method" (str "notifications/initialized") end))

abbrev base_headers : Headers
base_headers =
    ("Accept", "application/json, text/event-stream")
    ∷ ("Content-Type", "application/json")
    ∷ ("X-AI-Base-Traffic-Origin", "management_probe")
    ∷ []

-- `isObject(payload?.error)`, with the message of the error.
unfoldable pub initialize_error : Option Fields → Option String
initialize_error none = none
initialize_error (some payload) = elim (get_field payload "error") [
  | none ↦ none
  | some value ↦ elim (object? value) [
    | none ↦ none
    | some error ↦ some (elim (get_field error "message") [
      | some (str message) ↦ message
      | _ ↦ "MCP initialize 失败"
    ])
  ]
]

-- The value of the header that carries the key.
unfoldable pub key_value : GatewayMcpServerDraft → String → String
key_value draft key = if lowers_to draft.auth_header "authorization" then "Bearer " <> key else key

module _ (remote : Remote) where
  -- `none` where `headers.set` throws, with a message of the platform.
  unfoldable pub set_header : Headers → String → String → Option Headers
  set_header headers name value =
      if remote.accepts name value then some (headers ++ (name, value) ∷ []) else none

  -- The headers before the `try` block.
  unfoldable pub key_headers : GatewayMcpServerDraft → Option String → Option Headers
  key_headers draft none = some base_headers
  key_headers draft (some key) = set_header base_headers draft.auth_header (key_value draft key)

  -- The headers after the handshake's first answer.
  unfoldable pub session_headers : Headers → Option String → Option Headers
  session_headers headers session = elim (usable_key session) [
    | none ↦ some (headers ++ ("MCP-Protocol-Version", "2025-06-18") ∷ [])
    | some id ↦ elim (set_header headers "MCP-Session-Id" id) [
      | none ↦ none
      | some longer ↦ some (longer ++ ("MCP-Protocol-Version", "2025-06-18") ∷ [])
    ]
  ]

  -- From the declaration of `discoveredToolMap` on, on the fuel of the loop.
  unfoldable pub test_tools :
      ℕ → GatewayMcpServerDraft → Headers → ℕ → Option GatewayMcpServerTestResult
  test_tools fuel draft headers elapsed =
      elim (list_pages (post_mcp_request remote draft.url headers) fuel 0 none [] []) [
        | none ↦ none
        | some listing ↦ some (result_of_ending elapsed listing.ending)
      ]

  -- From the notification on.
  unfoldable pub test_initialized :
      ℕ → GatewayMcpServerDraft → Headers → ℕ → Option GatewayMcpServerTestResult
  test_initialized fuel draft headers elapsed =
      elim (post_mcp_request remote draft.url headers initialized_request) [
        | lost timed_out ↦ some (lost_result elapsed timed_out)
        | reply status session payload ↦
            if is_success status
            then test_tools fuel draft headers elapsed
            else some (failure elapsed (some status) ("MCP 初始化确认返回 HTTP " <> decimal status))
      ]

  -- From the check of the first answer on.
  unfoldable pub test_session :
      ℕ
      → GatewayMcpServerDraft
      → Headers
      → ℕ
      → Option String
      → Option Fields
      → Option GatewayMcpServerTestResult
  test_session fuel draft headers elapsed session payload = elim (initialize_error payload) [
    | some message ↦ some (failure elapsed none message)
    | none ↦ elim (session_headers headers session) [
      | none ↦ some (lost_result elapsed false)
      | some longer ↦ test_initialized fuel draft longer elapsed
    ]
  ]

  -- The `try` block.
  unfoldable pub test_server :
      ℕ → GatewayMcpServerDraft → Headers → ℕ → Option GatewayMcpServerTestResult
  test_server fuel draft headers elapsed =
      elim (post_mcp_request remote draft.url headers initialize_request) [
        | lost timed_out ↦ some (lost_result elapsed timed_out)
        | reply status session payload ↦
            if is_success status
            then test_session fuel draft headers elapsed session payload
            else some (failure elapsed (some status) ("MCP 服务返回 HTTP " <> decimal status))
      ]

  -- On fuel for the loop: `none` where it runs out. `elapsed` is `Date.now() - startedAt`.
  unfoldable pub test_gateway_mcp_server :
      ℕ → Env → Store → GatewayMcpServerDraft → ℕ → Option (Result GatewayMcpServerTestResult)
  test_gateway_mcp_server fuel env s draft elapsed =
      elim (key_headers draft (usable_key (resolve_mcp_test_key env s draft))) [
        | none ↦ some (thrown "Invalid header value")
        | some headers ↦ elim (test_server fuel draft headers elapsed) [
          | none ↦ none
          | some result ↦ some (Result.ok result)
        ]
      ]
