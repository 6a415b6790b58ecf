-- ===== src/Gateway/Tests.antt =====
-- Runs of the functions of gateway-config.ts, and the theorems at concrete inputs.
mod Saving
mod Probing
use ai_base.Common.{
  String, ◌≡◌, refl, [], ◌∷◌, true, false, Option, none, some, ◌<>◌, ◌||◌, if◌then◌else◌, includes,
}
use ai_base.Common.Results.{push_if}
use ai_base.Text.{
  trim, text_length, has_space, is_empty, starts_with, all_chars, matches, strip_slashes,
  strip_slash, decimal,
}
use ai_base.Json.{Json, bool, str, arr, obj, nil, cons, end, field, get_field}
use ai_base.Url.{Url, UrlApi, is_http, has_extras, endpoint}
use ai_base.Gateway.Types.{openai, GatewayChannelDraft, GatewayMcpServerDraft, valid, invalid}
use ai_base.Gateway.Channels.{
  is_channel_id, is_bad_model_name, read_route_fields, read_model_route, read_model_routes,
  read_models, read_endpoint, is_long_key, is_bad_name, channel_draft, read_channel_fields,
  read_channel_draft, read_channel_drafts, publish, publish_channel, check_channels, verdict,
  entries_of, accept_channels, validate_gateway_channels_input,
}
use ai_base.Gateway.Channels.Sound.{IsAccepted, validate_gateway_channels_input-IsAccepted}
use ai_base.Gateway.Servers.{
  is_system_managed_mcp_server_id, is_bad_header, is_bad_tool, push_new, read_tools,
  read_string_list, server_draft, read_server_fields, read_mcp_server_draft, read_mcp_server_drafts,
  is_managed_namespace, is_public_namespace, check_servers, accept_servers,
  validate_gateway_mcp_servers_input,
}
use ai_base.Gateway.Servers.Sound.{
  IsAcceptedServers, validate_gateway_mcp_servers_input-IsAcceptedServers,
}

-- A stand-in for the platform's `URL`: every HTTP(S) text names one host.
abbrev pub test_url : String → Option Url
unfolding starts_with
test_url text =
    if starts_with text "https://" || starts_with text "http://"
    then some (record {
      protocol = "https:";
      username = "";
      password = "";
      hostname = "api.example.com";
      port = "";
      pathname = "/v1/";
      search = "";
      hash = "";
      origin = "https://api.example.com";
    })
    else none

abbrev pub test_api : UrlApi
test_api = record {
  parse = test_url;
  parse_from = λ relative base. test_url base;
  with_pathname = λ url path. record url { pathname = path };
  print = λ url. url.protocol <> "//" <> url.hostname <> url.pathname;
  is_ip = λ host. false;
}

abbrev gpt : Json
gpt = obj (field "publicName" (str "gpt") (field "upstreamName" (str " gpt-4o ") end))

abbrev channel_body : Json
channel_body = obj (
    field "id" (str "main") (
      field "name" (str " Main ") (
        field "provider" (str "openai") (
          field "baseUrl" (str "https://api.example.com/v1/") (
            field "enabled" (bool true)
              (field "models" (arr (cons gpt nil)) (field "apiKey" (str "sk-1") end)))))))

abbrev channels_body : Json
channels_body = obj (field "channels" (arr (cons channel_body nil)) end)

abbrev pub main_draft : GatewayChannelDraft
main_draft = record {
  id = "main";
  name = "Main";
  provider = openai;
  base_url = "https://api.example.com/v1";
  enabled = true;
  models = record { public_name = "gpt"; upstream_name = "gpt-4o" } ∷ [];
  api_key = some "sk-1";
  remove_api_key = false;
}

channels_accepted : validate_gateway_channels_input test_api channels_body ≡ valid (main_draft ∷ [])
unfolding validate_gateway_channels_input accept_channels entries_of verdict check_channels
    publish_channel publish read_channel_drafts read_channel_draft read_channel_fields channel_draft
    is_bad_name is_long_key read_endpoint read_models read_model_routes read_model_route
    read_route_fields is_bad_model_name is_channel_id get_field push_if includes endpoint is_http
    has_extras matches strip_slash strip_slashes trim text_length has_space is_empty starts_with
    decimal
channels_accepted = refl

-- Two channels of one id are refused with the message of the second.
twice_refused :
    validate_gateway_channels_input test_api
      (obj (field "channels" (arr (cons channel_body (cons channel_body nil))) end))
    ≡ invalid (
        "channels[1].id is duplicated"
        ∷ "published model gpt is configured by more than one enabled channel" ∷ [])
unfolding validate_gateway_channels_input accept_channels entries_of verdict check_channels
    publish_channel publish read_channel_drafts read_channel_draft read_channel_fields channel_draft
    is_bad_name is_long_key read_endpoint read_models read_model_routes read_model_route
    read_route_fields is_bad_model_name is_channel_id get_field push_if includes endpoint is_http
    has_extras matches strip_slash strip_slashes trim text_length has_space is_empty starts_with
    decimal
twice_refused = refl

validate_gateway_channels_input-IsAccepted_example : IsAccepted test_api (main_draft ∷ [])
validate_gateway_channels_input-IsAccepted_example =
    validate_gateway_channels_input-IsAccepted test_api channels_body (main_draft ∷ [])
      channels_accepted

abbrev server_body : Json
server_body = obj (
    field "id" (str "wiki") (
      field "name" (str "Wiki") (
        field "namespace" (str "wiki") (
          field "url" (str "http://wiki/v1") (
            field "enabled" (bool true) (
              field "toolIncludes" (arr (cons (str "find") (cons (str " find ") nil)))
                (field "toolExcludes" (arr nil) end)))))))

abbrev servers_body : Json
servers_body = obj (field "servers" (arr (cons server_body nil)) end)

abbrev pub wiki_draft : GatewayMcpServerDraft
wiki_draft = record {
  id = "wiki";
  name = "Wiki";
  namespace = "wiki";
  url = "https://api.example.com/v1";
  enabled = true;
  auth_header = "Authorization";
  tool_includes = "find" ∷ [];
  tool_excludes = [];
  api_key = none;
  remove_api_key = false;
}

servers_accepted :
    validate_gateway_mcp_servers_input test_api servers_body ≡ valid (wiki_draft ∷ [])
unfolding validate_gateway_mcp_servers_input accept_servers check_servers is_public_namespace
    is_managed_namespace is_system_managed_mcp_server_id read_mcp_server_drafts
    read_mcp_server_draft read_server_fields server_draft read_string_list read_tools push_new
    is_bad_tool is_bad_header entries_of verdict is_bad_name is_long_key read_endpoint is_channel_id
    get_field push_if includes endpoint is_http has_extras matches all_chars strip_slash
    strip_slashes trim text_length is_empty starts_with decimal
servers_accepted = refl

validate_gateway_mcp_servers_input-IsAcceptedServers_example :
    IsAcceptedServers test_api (wiki_draft ∷ [])
validate_gateway_mcp_servers_input-IsAcceptedServers_example =
    validate_gateway_mcp_servers_input-IsAcceptedServers test_api servers_body (wiki_draft ∷ [])
      servers_accepted
