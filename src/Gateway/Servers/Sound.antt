-- ===== src/Gateway/Servers/Sound.antt =====
-- What an accepted list of MCP server drafts satisfies.
use ai_base.Common.{
  ℕ, suc, ◌≤◌, String, ◌≡◌, ◌≢◌, Option-cases, Bool-cases, ltb, false, ltb-false→le, List, [], ◌∷◌,
  map, inl, inr, arith, length, All, AllFresh, AllDistinct, AllFresh-AllDistinct, eq_iff,
}
use ai_base.Common.Results.{report-eq-nil, split-append-nil}
use ai_base.Text.{starts_with}
use ai_base.Json.{Json}
use ai_base.Url.{UrlApi}
use ai_base.Gateway.Types.{GatewayMcpServerDraft, valid, max_mcp_servers}
use ai_base.Gateway.Channels.{verdict-valid, entries_of}
use ai_base.Gateway.Servers.{
  open_connector_mcp_id, open_connector_mcp_namespace, rag_mcp_id, rag_mcp_namespace,
  is_system_managed_mcp_server_id, is_managed_namespace, is_public_namespace, check_servers,
  accept_servers, validate_gateway_mcp_servers_input,
}
use ai_base.Gateway.Servers.Drafts.{IsValidServer, drafts-IsValidServer}

-- Neither the id nor the namespace is one that the console keeps for itself.
pub record IsUnreserved (d : GatewayMcpServerDraft) : Type 0 where
  pub not_connector : d.id ≢ open_connector_mcp_id
  pub not_rag : d.id ≢ rag_mcp_id
  pub not_connector_namespace : d.namespace ≢ open_connector_mcp_namespace
  pub not_rag_namespace : d.namespace ≢ rag_mcp_namespace
  pub not_public_connector : d.namespace ≢ "connector"
  pub not_public_kb : d.namespace ≢ "kb"
  pub no_prefix : starts_with d.namespace "mcp-" ≡ false

-- What holds of an accepted list of drafts.
pub record IsAcceptedServers (api : UrlApi) (ds : List GatewayMcpServerDraft) : Type 0 where
  pub drafts : All (IsValidServer api) ds
  pub few : length ds ≤ max_mcp_servers
  pub unreserved : All IsUnreserved ds
  pub ids : AllDistinct (map (λ d. d.id) ds)
  pub namespaces : AllDistinct (map (λ d. d.namespace) ds)

server-IsUnreserved :
    (d : GatewayMcpServerDraft)
    → is_system_managed_mcp_server_id d.id ≡ false
    → is_managed_namespace d.namespace ≡ false
    → is_public_namespace d.namespace ≡ false
    → IsUnreserved d
unfolding is_system_managed_mcp_server_id is_managed_namespace is_public_namespace
server-IsUnreserved d a b c = record {
  not_connector = λ e. ground (arith, eq_iff d.id open_connector_mcp_id);
  not_rag = λ e. ground (arith, eq_iff d.id rag_mcp_id);
  not_connector_namespace = λ e. ground (arith, eq_iff d.namespace open_connector_mcp_namespace);
  not_rag_namespace = λ e. ground (arith, eq_iff d.namespace rag_mcp_namespace);
  not_public_connector = λ e. ground (arith, eq_iff d.namespace "connector");
  not_public_kb = λ e. ground (arith, eq_iff d.namespace "kb");
  no_prefix = ground arith;
}

servers-AllFresh :
    (i : ℕ) (ids namespaces : List String) (ds : List GatewayMcpServerDraft)
    → check_servers i ids namespaces ds ≡ []
    → All IsUnreserved ds
      × AllFresh ids (map (λ d. d.id) ds)
      × AllFresh namespaces (map (λ d. d.namespace) ds)
unfolding check_servers
servers-AllFresh i ids namespaces [] h = (tt, tt, tt)
servers-AllFresh i ids namespaces (d ∷ ds) h =
    let (own_id, h₁) = report-eq-nil _ _ h in
    let (own_namespace, h₂) = report-eq-nil _ _ h₁ in
    let (private_namespace, h₃) = report-eq-nil _ _ h₂ in
    let (new_id, h₄) = report-eq-nil _ _ h₃ in
    let (new_namespace, later) = report-eq-nil _ _ h₄ in
    let (unreserved, ids_fresh, namespaces_fresh) = servers-AllFresh (suc i) _ _ ds later in
    (
      (server-IsUnreserved d own_id own_namespace private_namespace, unreserved),
      (new_id, ids_fresh),
      (new_namespace, namespaces_fresh),
    )

servers-IsAccepted :
    (api : UrlApi) (servers : List Json) (ds : List GatewayMcpServerDraft)
    → accept_servers api servers ≡ valid ds
    → IsAcceptedServers api ds
unfolding accept_servers
servers-IsAccepted api servers ds h = elim (Bool-cases (ltb max_mcp_servers (length servers))) [
  | inl many ↦ absurd (cc (rw (many, accept_servers) at h))
  | inr fits ↦
      let (no_errors, same) = verdict-valid _ _ (rw (fits, accept_servers) at h) in
      let (reading, checking) = split-append-nil _ _ no_errors in
      let (drafts, short) = drafts-IsValidServer api 0 servers reading in
      let (unreserved, ids, namespaces) = servers-AllFresh 0 [] [] _ checking in
      rw (← same) (record {
        drafts = drafts;
        few = omega (arith, ltb-false→le _ _ fits);
        unreserved = unreserved;
        ids = AllFresh-AllDistinct [] _ ids;
        namespaces = AllFresh-AllDistinct [] _ namespaces;
      })
]

-- Whatever the request body: if it is accepted, there are at most 40 drafts with distinct ids and
-- distinct namespaces; none takes an id or a namespace of a system-managed service, a namespace of the
-- public tool proxy or one that starts with `mcp-`; and each has a well-formed id and namespace, a name
-- of 1 to 100 code units, a URL that is the normal form of an HTTP(S) URL without credentials, query or
-- fragment, a header that is an HTTP token, a key of at most 10,000 code units, and two filter lists of
-- at most 32 distinct names each.
pub validate_gateway_mcp_servers_input-IsAcceptedServers :
    (api : UrlApi) (input : Json) (ds : List GatewayMcpServerDraft)
    → validate_gateway_mcp_servers_input api input ≡ valid ds
    → IsAcceptedServers api ds
unfolding validate_gateway_mcp_servers_input
validate_gateway_mcp_servers_input-IsAcceptedServers api input ds h =
    elim (Option-cases (entries_of "servers" input)) [
      | inl absent ↦ absurd (cc (rw (absent, validate_gateway_mcp_servers_input) at h))
      | inr (servers, given) ↦
          servers-IsAccepted api servers ds (rw (given, validate_gateway_mcp_servers_input) at h)
    ]
