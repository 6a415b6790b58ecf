-- ===== src/Gateway/Generate/Names.antt =====
-- What the generated configuration contains: its version, and the backend of every enabled MCP server.
use text.Mathlib.TextLemmas
use ai_base.Common.{
  String, ◌≡◌, refl, sym, ◌∙◌, ap, subst, List, [], ◌∷◌, true, false, ◌&&◌, ◌<>◌, ◌⊎◌, arith, inl,
  inr, Bool-cases, All, All-mono,
}
use ai_base.Common.Results.{ok}
use ai_base.Common.Throwing.{each, >>=-returned, ok-injective}
use ai_base.Text.{contains, starts_with, is_empty, lines, concat_texts}
use ai_base.Text.Contains.{
  contains-append_left, contains-append_right, contains-middle, is_empty-append,
}
use ai_base.Url.{UrlApi}
use ai_base.Gateway.Types.{GatewayChannel, GatewayMcpServer}
use ai_base.Gateway.Generate.{
  gateway_config_version_marker, base_gateway_config, traffic_policy, is_nil, enabled_channels,
  enabled_servers, config_text, generate_gateway_config,
}
use ai_base.Gateway.Generate.Models.{backend_head, channel_backend}
use ai_base.Gateway.Generate.Mcp.{
  mcp_backend_name, with_url-ok, backend, mcp_backend, mcp_backend_ref,
}

-- The line by which `ensureSystemManagedMcpRegistration` looks for a server.
abbrev pub name_line : GatewayMcpServer → String
name_line s = "name: " <> mcp_backend_name s.stored.namespace <> "\n"

name_line-contained :
    (name rest : String)
    → contains (("  name: " <> name) <> ("\n" <> rest)) ("name: " <> name <> "\n") ≡ true
name_line-contained name rest =
    subst (λ t. contains t ("name: " <> name <> "\n") ≡ true) (regroup name rest)
      (contains-middle "  " ("name: " <> name <> "\n") rest)
  where
    regroup :
        (n r : String) → "  " <> (("name: " <> n <> "\n") <> r) ≡ ("  name: " <> n) <> ("\n" <> r)
    regroup n r =
        ap (λ t. "  " <> t) (TextLemmas.append_assoc "name: " (n <> "\n") r)
        ∙ ap (λ t. "  " <> ("name: " <> t)) (TextLemmas.append_assoc n "\n" r)
        ∙ sym (TextLemmas.append_assoc "  " "name: " (n <> ("\n" <> r)))
        ∙ sym (TextLemmas.append_assoc "  name: " n ("\n" <> r))

later_line :
    (line rest p : String) → contains rest p ≡ true → contains (line <> ("\n" <> rest)) p ≡ true
later_line line rest p h =
    contains-append_right line ("\n" <> rest) p (contains-append_right "\n" rest p h)

backend_head-name :
    (name address port : String)
    → contains (backend_head name address port) ("name: " <> name <> "\n") ≡ true
unfolding backend_head lines
backend_head-name name address port =
    later_line "apiVersion: gateway.envoyproxy.io/v1alpha1" _ _
      (later_line "kind: Backend" _ _ (later_line "metadata:" _ _ (name_line-contained name _)))

mcp_backend-name :
    (api : UrlApi) (s : GatewayMcpServer) (text : String)
    → mcp_backend api s ≡ ok text
    → contains text (name_line s) ≡ true
unfolding mcp_backend backend
mcp_backend-name api s text h =
    let (url, same) = with_url-ok (api.parse s.stored.url) (backend api s) h in
    subst (λ t. contains t (name_line s) ≡ true) same
      (contains-append_left (backend_head _ _ _) _ (name_line s)
        (backend_head-name (mcp_backend_name s.stored.namespace) _ _))

-- A block of a list of texts is contained in their concatenation.
concat_texts-name :
    (api : UrlApi) (servers : List GatewayMcpServer) (texts : List String)
    → each (mcp_backend api) servers ≡ ok texts
    → All (λ s. contains (concat_texts texts) (name_line s) ≡ true) servers
unfolding each concat_texts
concat_texts-name api [] texts h = tt
concat_texts-name api (s ∷ ss) texts h =
    let (text, here, h₁) = >>=-returned (mcp_backend api s) _ h in
    let (rest, later, h₂) = >>=-returned (each (mcp_backend api) ss) _ h₁ in
    let same : text ∷ rest ≡ texts = cc h₂ in
    subst (λ ts. All (λ x. contains (concat_texts ts) (name_line x) ≡ true) (s ∷ ss)) same
      (
        contains-append_left text (concat_texts rest) (name_line s)
            (mcp_backend-name api s text here),
        All-mono (λ x. contains (concat_texts rest) (name_line x) ≡ true) ss
            (λ x k. contains-append_right text (concat_texts rest) (name_line x) k)
            (concat_texts-name api ss rest later),
      )

is_nil→≡ {ℓ} : {A : Type ℓ} (xs : List A) → is_nil xs ≡ true → xs ≡ []
is_nil→≡ [] h = refl
is_nil→≡ (x ∷ xs) h = cc

-- Where the marker and the name lines stand in the text.
pub record IsComplete (text : String) (servers : List GatewayMcpServer) : Type 0 where
  pub marked : contains text gateway_config_version_marker ≡ true
  pub given : is_empty text ≡ false
  pub named : All (λ s. contains text (name_line s) ≡ true) servers

base-marked : contains base_gateway_config gateway_config_version_marker ≡ true
unfolding contains starts_with base_gateway_config gateway_config_version_marker lines
base-marked = refl

base-given : is_empty base_gateway_config ≡ false
unfolding is_empty base_gateway_config lines gateway_config_version_marker
base-given = refl

config_text-IsComplete :
    (api : UrlApi) (channels : List GatewayChannel) (servers : List GatewayMcpServer)
    (text : String)
    → config_text api channels servers ≡ ok text
    → IsComplete text servers
unfolding config_text
config_text-IsComplete api channels servers text h =
    let (backends, _, h₁) = >>=-returned (each (channel_backend api) channels) _ h in
    let (refs, _, h₂) = >>=-returned (each (mcp_backend_ref api) servers) _ h₁ in
    let (blocks, made, h₃) = >>=-returned (each (mcp_backend api) servers) _ h₂ in
    subst (λ t. IsComplete t servers) (ok-injective h₃)
      (record {
        marked = contains-append_left base_gateway_config _ _ base-marked;
        given = is_empty-append base_gateway_config _ base-given;
        named =
            All-mono (λ s. contains (concat_texts blocks) (name_line s) ≡ true) servers
              (λ s k. contains-append_right base_gateway_config _ (name_line s) (
                contains-append_right _ _ (name_line s) (
                  contains-append_right (concat_texts backends) _ (name_line s) (
                    contains-append_right _ _ (name_line s) (
                      contains-append_left (concat_texts blocks) traffic_policy (name_line s) k)))))
              (concat_texts-name api servers blocks made);
      })

-- A configuration that is generated is empty, and then no server is enabled, or it carries the version
-- marker and the name of the backend of every enabled MCP server.
pub generate_gateway_config-IsComplete :
    (api : UrlApi) (channels : List GatewayChannel) (servers : List GatewayMcpServer)
    (text : String)
    → generate_gateway_config api channels servers ≡ ok text
    → ((text ≡ "") × (enabled_channels channels ≡ []) × (enabled_servers servers ≡ []))
      ⊎ IsComplete text (enabled_servers servers)
unfolding generate_gateway_config
generate_gateway_config-IsComplete api channels servers text h =
    elim (Bool-cases (is_nil (enabled_channels channels) && is_nil (enabled_servers servers))) [
      | inl nothing ↦ inl (
        sym (ok-injective (rw (nothing, generate_gateway_config) at h)),
        is_nil→≡ (enabled_channels channels) (ground arith),
        is_nil→≡ (enabled_servers servers) (ground arith),
      )
      | inr something ↦ inr (
          config_text-IsComplete api (enabled_channels channels) (enabled_servers servers) text
            (rw (something, generate_gateway_config) at h))
    ]
