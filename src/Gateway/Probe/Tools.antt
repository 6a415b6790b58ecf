-- ===== src/Gateway/Probe/Tools.antt =====
-- `parseMcpPayload`, `postMcpRequest`, and the loop of `testGatewayMcpServer` over the pages of the tool
-- list.
use ai_base.Common.{
  ℕ, zero, suc, String, List, [], ◌∷◌, map, keep, Bool, false, not, ◌===◌, leb, Option, none, some,
  ◌<>◌, includes, if◌then◌else◌,
}
use ai_base.Text.{trim, is_empty, starts_with, contains, split_lines, drop_chars, decimal}
use ai_base.Json.{Json, int, str, obj, Fields, end, field, get_field, object?, array?}
use ai_base.Gateway.Types.{max_mcp_tool_pages}
use ai_base.Gateway.Probe.{Headers, Fetched, answered, failed, Remote, is_success, text?}

-- The first of the candidates that parses as an object.
unfoldable pub first_object : (String → Option Json) → List String → Option Fields
first_object parse [] = none
first_object parse (candidate ∷ candidates) = elim (parse candidate) [
  | none ↦ first_object parse candidates
  | some payload ↦ elim (object? payload) [
    | none ↦ first_object parse candidates
    | some fields ↦ some fields
  ]
]

-- The candidates of a body.
unfoldable pub payload_candidates : String → Option String → List String
payload_candidates value content_type =
    if elim content_type [ none ↦ false | some t ↦ contains t "text/event-stream" ]
    then map (λ line. trim (drop_chars 5 line))
        (keep (λ line. starts_with line "data:") (split_lines value))
    else value ∷ []

unfoldable pub parse_mcp_payload : (String → Option Json) → String → Option String → Option Fields
parse_mcp_payload parse value content_type =
    if is_empty (trim value)
    then none
    else first_object parse (payload_candidates value content_type)

-- What a request gives: the status, the session header and the payload, or a rejection with whether it
-- is a timeout.
pub data Reply : Type 0 where
  reply : ℕ → Option String → Option Fields → Reply
  lost : Bool → Reply

unfoldable pub reply_of : (String → Option Json) → Fetched → Reply
reply_of parse (failed timed_out) = lost timed_out
reply_of parse (answered r) =
    reply r.status r.session_id (parse_mcp_payload parse r.text r.content_type)

unfoldable pub post_mcp_request : Remote → String → Headers → Json → Reply
post_mcp_request remote url headers body = reply_of remote.parse_json (remote.post url headers body)

pub record GatewayMcpTool : Type 0 where
  pub name : String
  pub description : Option String

-- `discoveredToolMap.set(name, …)`: a key keeps its first place.
unfoldable pub put_tool : List GatewayMcpTool → GatewayMcpTool → List GatewayMcpTool
put_tool [] tool = tool ∷ []
put_tool (t ∷ ts) tool =
    let rest = put_tool ts tool in if t.name === tool.name then tool ∷ ts else t ∷ rest

-- An entry of a page, `none` where the loop continues with the next.
unfoldable pub read_tool : Json → Option GatewayMcpTool
read_tool value = elim (object? value) [
  | none ↦ none
  | some fields ↦ elim (text? (get_field fields "name")) [
    | none ↦ none
    | some name ↦
        some (record { name = name; description = text? (get_field fields "description") })
  ]
]

unfoldable pub add_tools : List Json → List GatewayMcpTool → List GatewayMcpTool
add_tools [] found = found
add_tools (v ∷ vs) found =
    add_tools vs (elim (read_tool v) [ none ↦ found | some tool ↦ put_tool found tool ])

-- How the loop ends: at the last page, by a refusal with its status and message, or by a rejection.
pub data Ending : Type 0 where
  listed : ℕ → List GatewayMcpTool → Ending
  refused : Option ℕ → String → Ending
  interrupted : Bool → Ending

-- What a turn of the loop decides: the end, or the next cursor, with the visited ones and the tools.
pub data Turn : Type 0 where
  stop : Ending → Turn
  go : String → List String → List GatewayMcpTool → Turn

-- The tools of a page.
unfoldable pub page_tools : Option Fields → List GatewayMcpTool → List GatewayMcpTool
page_tools none found = found
page_tools (some result) found = elim (array? (get_field result "tools")) [
  | none ↦ found
  | some entries ↦ add_tools entries found
]

-- `isObject(payload?.result) ? payload.result : undefined`
unfoldable pub result_of : Option Fields → Option Fields
result_of none = none
result_of (some payload) = elim (get_field payload "result") [
  | none ↦ none
  | some value ↦ object? value
]

unfoldable pub next_cursor : Option Fields → Option String
next_cursor none = none
next_cursor (some result) = text? (get_field result "nextCursor")

-- The end of a turn, on the next cursor.
unfoldable pub follow : ℕ → ℕ → List String → List GatewayMcpTool → Option String → Turn
follow page status visited found none = stop (listed status found)
follow page status visited found (some cursor) =
    if includes visited cursor
    then stop (refused none "MCP 工具列表返回了重复的分页游标")
    else if leb max_mcp_tool_pages page
    then stop (refused none ("MCP 工具列表超过 " <> decimal max_mcp_tool_pages <> " 页"))
    else go cursor (cursor ∷ visited) found

-- A turn of the loop after its request.
unfoldable pub take_page : ℕ → List String → List GatewayMcpTool → Reply → Turn
take_page page visited found (lost timed_out) = stop (interrupted timed_out)
take_page page visited found (reply status session payload) =
    if not (is_success status)
    then stop (refused (some status) ("工具列表返回 HTTP " <> decimal status))
    else follow page status visited (page_tools (result_of payload) found)
        (next_cursor (result_of payload))

unfoldable pub list_request : ℕ → Option String → Json
list_request page cursor = obj (
    field "jsonrpc" (str "2.0") (
      field "id" (int (suc page)) (
        field "method" (str "tools/list") (
          field "params" (obj (elim cursor [ none ↦ end | some c ↦ field "cursor" (str c) end ]))
            end))))

-- The cursors of the requests that the loop made, in order, and its end.
pub record Listing : Type 0 where
  pub asked : List (Option String)
  pub ending : Ending

-- The `do … while (cursor)` loop, after `page` pages, on fuel: `none` where the fuel runs out.
unfoldable pub list_pages :
    (Json → Reply) → ℕ → ℕ → Option String → List String → List GatewayMcpTool → Option Listing
list_pages ask zero page cursor visited found = none
list_pages ask (suc fuel) page cursor visited found =
    elim (take_page (suc page) visited found (ask (list_request (suc page) cursor))) [
      | stop ending ↦ some (record { asked = cursor ∷ []; ending = ending })
      | go next seen more ↦ elim (list_pages ask fuel (suc page) (some next) seen more) [
        | none ↦ none
        | some rest ↦ some (record { asked = cursor ∷ rest.asked; ending = rest.ending })
      ]
    ]
