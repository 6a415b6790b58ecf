-- ===== src/Gateway/Servers/Drafts.antt =====
-- What one accepted MCP server draft satisfies.
use ai_base.Common.{
  ℕ, suc, ◌+◌, ◌≤◌, length-append, String, ◌≡◌, Bool, true, false, ◌||◌, Option, none, some, List,
  [], ◌∷◌, arith, inl, inr, Bool-cases, ltb-false→le, length, length-present, All, All-append,
  All-present, IfSome, AllDistinct, AllDistinct-push, includes, ltb,
}
use ai_base.Common.Results.{report-eq-nil, split-append-nil}
use ai_base.Text.{is_empty}
use ai_base.Text.Patterns.{Matches, AllCodes, all_chars_sound}
use ai_base.Json.{Json, obj, Fields, trimmed_or}
use ai_base.Url.{UrlApi, endpoint}
use ai_base.Gateway.Types.{GatewayMcpServerDraft, max_mcp_tool_filters}
use ai_base.Gateway.Channels.{id_first, id_rest}
use ai_base.Gateway.Channels.Drafts.{
  IsShort, KeyFits, id-Matches, name-IsShort, key-KeyFits, endpoint-given,
}
use ai_base.Gateway.Servers.{
  header_char, is_bad_header, is_bad_tool, push_new, read_tools, read_string_list, server_draft,
  read_server_fields, read_mcp_server_draft, read_mcp_server_drafts,
}

-- A filter list: at most 32 distinct tool names of 1 to 200 code units.
pub record IsFilter (tools : List String) : Type 0 where
  pub names : All (IsShort 200) tools
  pub distinct : AllDistinct tools
  pub few : length tools ≤ max_mcp_tool_filters

pub record IsHeader (s : String) : Type 0 where
  pub short : IsShort 100 s
  pub token : AllCodes (λ c. header_char c ≡ true) s

-- What holds of one accepted draft.
pub record IsValidServer (api : UrlApi) (d : GatewayMcpServerDraft) : Type 0 where
  pub id : Matches id_first id_rest 47 d.id
  pub name : IsShort 100 d.name
  pub namespace : Matches id_first id_rest 47 d.namespace
  pub url : (given : String) × (endpoint api given ≡ some d.url)
  pub header : IsHeader d.auth_header
  pub includes : IsFilter d.tool_includes
  pub excludes : IsFilter d.tool_excludes
  pub key : KeyFits d.api_key

tool-IsShort : (s : String) → is_bad_tool s ≡ false → IsShort 200 s
unfolding is_bad_tool
tool-IsShort s h = record { given = ground arith; within = ground arith }

is_bad_header-IsHeader : (s : String) → is_bad_header s ≡ false → IsHeader s
unfolding is_bad_header
is_bad_header-IsHeader s h = record {
  short = record { given = ground arith; within = ground arith };
  token = all_chars_sound header_char s (ground arith);
}

push_new-IsShort :
    (values : List String) (tool : String)
    → All (IsShort 200) values
    → IsShort 200 tool
    → All (IsShort 200) (push_new values tool)
unfolding push_new
push_new-IsShort values tool s p = elim (Bool-cases (includes values tool)) [
  | inl old ↦ rw old s
  | inr new ↦ rw new (All-append (IsShort 200) values (tool ∷ []) s (p, tt))
]

push_new-AllDistinct :
    (values : List String) (tool : String) → AllDistinct values → AllDistinct (push_new values tool)
unfolding push_new
push_new-AllDistinct values tool d = elim (Bool-cases (includes values tool)) [
  | inl old ↦ rw old d
  | inr new ↦ rw new (AllDistinct-push values tool d new)
]

length-push_new :
    (values : List String) (tool : String) → length (push_new values tool) ≤ suc (length values)
unfolding push_new
length-push_new values tool = ground (arith, length-append values (tool ∷ []))

tools-IsFilter :
    (at : String) (i : ℕ) (values : List String) (vs : List Json)
    → All (IsShort 200) values
    → AllDistinct values
    → (read_tools at i values vs).errors ≡ []
    → All (IsShort 200) (read_tools at i values vs).value
      × AllDistinct (read_tools at i values vs).value
      × (length (read_tools at i values vs).value ≤ length values + length vs)
unfolding read_tools
tools-IsFilter at i values [] s d h = (s, d, omega arith)
tools-IsFilter at i values (v ∷ vs) s d h =
    let tool = trimmed_or "" (some v) in
    let (fits, later) = report-eq-nil _ _ h in
    let (short, distinct, few) =
      tools-IsFilter at (suc i) (push_new values tool) vs
        (push_new-IsShort values tool s (tool-IsShort tool fits))
        (push_new-AllDistinct values tool d) (rw fits at later) in
    rw fits (short, distinct, omega (arith, few, length-push_new values tool))

list-IsFilter :
    (at : String) (vs : Option (List Json))
    → (read_string_list at vs).errors ≡ []
    → IsFilter (read_string_list at vs).value
unfolding read_string_list
list-IsFilter at none h = cc
list-IsFilter at (some vs) h = elim (Bool-cases (ltb max_mcp_tool_filters (length vs))) [
  | inl many ↦ absurd (cc (rw (many, read_string_list) at h))
  | inr fits ↦
      let (names, distinct, few) =
        tools-IsFilter at 0 [] vs tt tt (rw (fits, read_string_list) at h) in
      rw fits
        (record { names = names; distinct = distinct; few = omega (arith, ltb-false→le _ _ fits) })
]

draft-IsValidServer :
    (api : UrlApi) (id name namespace given url : String) (enabled : Option Bool) (header : String)
    (includes excludes : List String) (key : Option String) (remove : Bool)
    → Matches id_first id_rest 47 id
    → IsShort 100 name
    → Matches id_first id_rest 47 namespace
    → endpoint api given ≡ some url
    → IsHeader header
    → IsFilter includes
    → IsFilter excludes
    → KeyFits key
    → IfSome
        (IsValidServer api)
        (server_draft id name namespace url enabled header includes excludes key remove)
unfolding server_draft
draft-IsValidServer api id name namespace given url none header ins outs key remove i n s u h a b
      k =
    tt
draft-IsValidServer api id name namespace given url (some e) header ins outs key remove i n s u h a
      b k =
    elim (Bool-cases
      (is_empty id || is_empty name || is_empty namespace || is_empty url || is_empty header)) [
        | inl missing ↦ rw missing tt
        | inr complete ↦ rw complete (record {
          id = i;
          name = n;
          namespace = s;
          url = (given, u);
          header = h;
          includes = a;
          excludes = b;
          key = k;
        })
      ]

module _ (api : UrlApi) where
  fields-IsValidServer :
      (at : String) (fields : Fields)
      → (read_server_fields api at fields).errors ≡ []
      → IfSome (IsValidServer api) (read_server_fields api at fields).value
  unfolding read_server_fields
  fields-IsValidServer at fields h =
      let (id_ok, h₁) = report-eq-nil _ _ h in
      let (name_ok, h₂) = report-eq-nil _ _ h₁ in
      let (namespace_ok, h₃) = report-eq-nil _ _ h₂ in
      let (enabled_ok, h₄) = report-eq-nil _ _ h₃ in
      let (header_ok, h₅) = report-eq-nil _ _ h₄ in
      let (key_ok, h₆) = report-eq-nil _ _ h₅ in
      let (url_ok, h₇) = split-append-nil _ _ h₆ in
      let (includes_ok, h₈) = split-append-nil _ _ h₇ in
      let (excludes_ok, _) = split-append-nil _ _ h₈ in
      draft-IsValidServer api _ _ _ _ _ _ _ _ _ _ _ (id-Matches _ id_ok) (name-IsShort _ name_ok)
        (id-Matches _ namespace_ok) (endpoint-given api _ _ _ url_ok)
        (is_bad_header-IsHeader _ header_ok) (list-IsFilter _ _ includes_ok)
        (list-IsFilter _ _ excludes_ok) (key-KeyFits _ key_ok)

  draft_of-IsValidServer :
      (i : ℕ) (v : Json)
      → (read_mcp_server_draft api i v).errors ≡ []
      → IfSome (IsValidServer api) (read_mcp_server_draft api i v).value
  unfolding read_mcp_server_draft
  draft_of-IsValidServer i (obj fields) h = fields-IsValidServer _ fields h
  draft_of-IsValidServer i _ h = cc

  pub drafts-IsValidServer :
      (i : ℕ) (vs : List Json)
      → (read_mcp_server_drafts api i vs).errors ≡ []
      → All (IsValidServer api) (read_mcp_server_drafts api i vs).value
        × (length (read_mcp_server_drafts api i vs).value ≤ length vs)
  unfolding read_mcp_server_drafts
  drafts-IsValidServer i [] h = (tt, omega arith)
  drafts-IsValidServer i (v ∷ vs) h =
      let (here, h₁) = split-append-nil _ _ h in
      let (later, _) = split-append-nil _ _ h₁ in
      let (valid_rest, short_rest) = drafts-IsValidServer (suc i) vs later in
      (
        All-present (IsValidServer api) _ _ (draft_of-IsValidServer i v here) valid_rest,
        omega (arith, length-present {0}, short_rest),
      )
