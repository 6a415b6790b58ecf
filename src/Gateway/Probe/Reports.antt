-- ===== src/Gateway/Probe/Reports.antt =====
-- The result of the connection test of an MCP server.
use ai_base.Common.{
  ℕ, String, ◌≡◌, refl, [], Bool, true, false, Option, none, some, inl, inr, ◌⊎◌, Bool-cases,
  Option-cases,
}
use ai_base.Common.Results.{Result, thrown}
use ai_base.Json.{Fields}
use ai_base.Gateway.Types.{GatewayMcpServerDraft, max_mcp_tool_pages}
use ai_base.Gateway.Store.{Store}
use ai_base.Gateway.Managed.{Env}
use ai_base.Gateway.Probe.{Headers, Remote, is_success, usable_key, resolve_mcp_test_key}
use ai_base.Gateway.Probe.Tools.{
  Ending, listed, refused, interrupted, Reply, reply, lost, post_mcp_request,
}
use ai_base.Gateway.Probe.Mcp.{
  GatewayMcpServerTestResult, result_of_ending, lost_result, test_tools, test_initialized,
  test_session, test_server, test_gateway_mcp_server, initialize_error, session_headers,
  key_headers, initialize_request, initialized_request,
}
use ai_base.Gateway.Probe.Paging.{IsEnding, list_pages-IsPaged}
use ai_base.Gateway.Probe.Found.{tool_names, IsToolList}

-- The names are those of the tools, each once; a failure gives no tools, and a success has the status
-- of one.
pub record IsReport (t : GatewayMcpServerTestResult) : Type 0 where
  pub names : t.discovered_tools ≡ tool_names t.tools
  pub tools : IsToolList t.tools
  pub failed : t.ok ≡ false → t.tools ≡ []
  pub succeeded : t.ok ≡ true → (status : ℕ) × (t.status ≡ some status) × (is_success status ≡ true)

-- A test returns a report or throws.
abbrev pub IsReported : Result GatewayMcpServerTestResult → Type 0
IsReported (Result.ok t) = IsReport t
IsReported (thrown message) = Unit

Reports : Option GatewayMcpServerTestResult → Type 0
Reports o = (t : GatewayMcpServerTestResult) × (o ≡ some t) × IsReport t

ending-IsReport : (elapsed : ℕ) (e : Ending) → IsEnding e → IsReport (result_of_ending elapsed e)
unfolding result_of_ending lost_result
ending-IsReport elapsed (listed status tools) (h, l) = record {
  names = refl;
  tools = l;
  failed = λ e. cc;
  succeeded = λ e. (status, refl, h);
}
ending-IsReport elapsed (refused status message) h = record {
  names = refl;
  tools = record { distinct = tt; named = tt };
  failed = λ e. refl;
  succeeded = λ e. cc;
}
ending-IsReport elapsed (interrupted timed_out) h = record {
  names = refl;
  tools = record { distinct = tt; named = tt };
  failed = λ e. refl;
  succeeded = λ e. cc;
}

Reply-cases :
    (r : Reply)
    → ((timed_out : Bool) × (r ≡ lost timed_out))
      ⊎ ((status : ℕ) × (session : Option String) × (payload : Option Fields) × (r
            ≡ reply status session payload))
Reply-cases (lost timed_out) = inl (timed_out, refl)
Reply-cases (reply status session payload) = inr (status, session, payload, refl)

module _ (elapsed : ℕ) where
  lost-Reports : (timed_out : Bool) → Reports (some (lost_result elapsed timed_out))
  unfolding Reports result_of_ending
  lost-Reports timed_out = (_, refl, ending-IsReport elapsed (interrupted timed_out) tt)

  refused-Reports :
      (status : Option ℕ) (message : String)
      → Reports (some (result_of_ending elapsed (refused status message)))
  unfolding Reports
  refused-Reports status message = (_, refl, ending-IsReport elapsed (refused status message) tt)

  module _ (remote : Remote) (draft : GatewayMcpServerDraft) where
    tools-Reports :
        (headers : Headers) → Reports (test_tools remote max_mcp_tool_pages draft headers elapsed)
    unfolding Reports test_tools
    tools-Reports headers =
        let (l, eq, paged) = list_pages-IsPaged (post_mcp_request remote draft.url headers) in
        (_, rw (eq, test_tools) refl, ending-IsReport elapsed l.ending paged.ending)

    initialized-Reports :
        (headers : Headers)
        → Reports (test_initialized remote max_mcp_tool_pages draft headers elapsed)
    unfolding test_initialized result_of_ending
    initialized-Reports headers =
        elim (Reply-cases (post_mcp_request remote draft.url headers initialized_request)) [
          | inl (timed_out, e) ↦ rw (e, test_initialized) (lost-Reports timed_out)
          | inr (status, session, payload, e) ↦ elim (Bool-cases (is_success status)) [
            | inl h ↦ rw (e, test_initialized, h) (tools-Reports headers)
            | inr h ↦ rw (e, test_initialized, h) (refused-Reports (some status) _)
          ]
        ]

    session-Reports :
        (headers : Headers) (session : Option String) (payload : Option Fields)
        → Reports (test_session remote max_mcp_tool_pages draft headers elapsed session payload)
    unfolding test_session result_of_ending
    session-Reports headers session payload = elim (Option-cases (initialize_error payload)) [
      | inr (message, e) ↦ rw (e, test_session) (refused-Reports none message)
      | inl e ↦ elim (Option-cases (session_headers remote headers session)) [
        | inl h ↦ rw (e, test_session, h) (lost-Reports false)
        | inr (longer, h) ↦ rw (e, test_session, h) (initialized-Reports longer)
      ]
    ]

    server-Reports :
        (headers : Headers) → Reports (test_server remote max_mcp_tool_pages draft headers elapsed)
    unfolding test_server result_of_ending
    server-Reports headers =
        elim (Reply-cases (post_mcp_request remote draft.url headers initialize_request)) [
          | inl (timed_out, e) ↦ rw (e, test_server) (lost-Reports timed_out)
          | inr (status, session, payload, e) ↦ elim (Bool-cases (is_success status)) [
            | inl h ↦ rw (e, test_server, h) (session-Reports headers session payload)
            | inr h ↦ rw (e, test_server, h) (refused-Reports (some status) _)
          ]
        ]

    -- Whatever a service answers, a test of an MCP server ends on a fuel of 100 pages, with a report or
    -- by throwing. In a report the discovered names are those of its tools, distinct and not empty; a
    -- failure has no tools, and a success has a status between 200 and 299.
    pub test_gateway_mcp_server-IsReported :
        (env : Env) (s : Store)
        → (r : Result GatewayMcpServerTestResult) × (test_gateway_mcp_server remote
              max_mcp_tool_pages env s draft elapsed
            ≡ some r)
          × IsReported r
    unfolding test_gateway_mcp_server Reports
    test_gateway_mcp_server-IsReported env s =
        elim (Option-cases
          (key_headers remote draft (usable_key (resolve_mcp_test_key env s draft)))) [
            | inl e ↦ (thrown "Invalid header value", rw (e, test_gateway_mcp_server) refl, tt)
            | inr (headers, e) ↦
                let (t, eq, report) = server-Reports headers in
                (Result.ok t, rw (e, test_gateway_mcp_server, eq) refl, report)
          ]
