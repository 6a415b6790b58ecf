-- ===== src/Gateway/Tests/Probing.antt =====
-- Connection tests against small services, and the theorems about them there.
use ai_base.Common.{◌≡◌, [], true, none, some}
use ai_base.Common.Results.{Result}
use ai_base.Json.{Json, str, arr, obj, nil, cons, end, field}
use ai_base.Gateway.Types.{max_mcp_tool_pages}
use ai_base.Gateway.Probe.{Remote, answered, failed}
use ai_base.Gateway.Probe.Tools.{list_pages, Listing, post_mcp_request}
use ai_base.Gateway.Probe.Mcp.{GatewayMcpServerTestResult, test_gateway_mcp_server}
use ai_base.Gateway.Probe.Paging.{IsPaged, list_pages-IsPaged}
use ai_base.Gateway.Probe.Reports.{IsReported, test_gateway_mcp_server-IsReported}
use ai_base.Gateway.Tests.{wiki_draft}
use ai_base.Gateway.Tests.Saving.{no_env, fresh}

-- Every page has one tool and names the same next cursor.
abbrev page : Json
page = obj (
    field "result"
      (obj (
        field "tools" (arr (cons (obj (field "name" (str " search ") end)) nil))
          (field "nextCursor" (str "more") end)))
      end)

abbrev looping : Remote
looping = record {
  get = λ url headers. failed true;
  post = λ url headers body.
      answered (record { status = 200; content_type = none; session_id = none; text = "page" });
  parse_json = λ text. some page;
  accepts = λ name value. true;
}

list_pages-IsPaged_example :
    (l : Listing) × (list_pages
        (post_mcp_request looping "https://api.example.com/v1" [])
        max_mcp_tool_pages
        0
        none
        []
        []
      ≡ some l)
    × IsPaged (post_mcp_request looping "https://api.example.com/v1" []) l
list_pages-IsPaged_example =
    list_pages-IsPaged (post_mcp_request looping "https://api.example.com/v1" [])

test_gateway_mcp_server-IsReported_example :
    (r : Result GatewayMcpServerTestResult) × (test_gateway_mcp_server looping max_mcp_tool_pages
        no_env fresh wiki_draft 12
      ≡ some r)
    × IsReported r
test_gateway_mcp_server-IsReported_example =
    test_gateway_mcp_server-IsReported 12 looping wiki_draft no_env fresh
