-- ===== src/Gateway/Probe/Found.antt =====
-- The list of tools that `discoveredToolMap` holds: one entry for each name.
use ai_base.Common.{
  String, ◌≡◌, ◌≢◌, List, [], ◌∷◌, map, false, Option, none, some, inl, inr, subst, sym, Bool-cases,
  All, AllDistinct, IfSome, Option-cases, ◌===◌, ===→≡, ===-false→≢,
}
use ai_base.Text.{is_empty}
use ai_base.Json.{Json, Fields, trimmed?, array?, get_field, object?}
use ai_base.Gateway.Probe.{text?}
use ai_base.Gateway.Probe.Tools.{GatewayMcpTool, put_tool, read_tool, add_tools, page_tools}

abbrev pub tool_names : List GatewayMcpTool → List String
tool_names = map (λ t. t.name)

-- The tools have distinct names, none of them empty.
pub record IsToolList (ts : List GatewayMcpTool) : Type 0 where
  pub distinct : AllDistinct (tool_names ts)
  pub named : All (λ name. is_empty name ≡ false) (tool_names ts)

put_tool-named :
    (ts : List GatewayMcpTool) (tool : GatewayMcpTool)
    → is_empty tool.name ≡ false
    → All (λ name. is_empty name ≡ false) (tool_names ts)
    → All (λ name. is_empty name ≡ false) (tool_names (put_tool ts tool))
unfolding put_tool
put_tool-named [] tool h k = (h, tt)
put_tool-named (t ∷ ts) tool h (p, k) = elim (Bool-cases (t.name === tool.name)) [
  | inl e ↦ rw e (h, k)
  | inr e ↦ rw e (p, put_tool-named ts tool h k)
]

-- A name that is not among them and not the new one is not among them afterwards.
put_tool-ne :
    (ts : List GatewayMcpTool) (tool : GatewayMcpTool) (x : String)
    → tool.name ≢ x
    → All (λ name. name ≢ x) (tool_names ts)
    → All (λ name. name ≢ x) (tool_names (put_tool ts tool))
unfolding put_tool
put_tool-ne [] tool x h k = (h, tt)
put_tool-ne (t ∷ ts) tool x h (p, k) = elim (Bool-cases (t.name === tool.name)) [
  | inl e ↦ rw e (h, k)
  | inr e ↦ rw e (p, put_tool-ne ts tool x h k)
]

put_tool-distinct :
    (ts : List GatewayMcpTool) (tool : GatewayMcpTool)
    → AllDistinct (tool_names ts)
    → AllDistinct (tool_names (put_tool ts tool))
unfolding put_tool
put_tool-distinct [] tool d = (tt, tt)
put_tool-distinct (t ∷ ts) tool (fresh, d) = elim (Bool-cases (t.name === tool.name)) [
  | inl e ↦ rw e (subst (λ x. All (λ name. name ≢ x) (tool_names ts)) (===→≡ _ _ e) fresh, d)
  | inr e ↦ rw e (
    put_tool-ne ts tool t.name (λ same. ===-false→≢ _ _ e (sym same)) fresh,
    put_tool-distinct ts tool d,
  )
]

put_tool-IsToolList :
    (ts : List GatewayMcpTool) (tool : GatewayMcpTool)
    → is_empty tool.name ≡ false
    → IsToolList ts
    → IsToolList (put_tool ts tool)
put_tool-IsToolList ts tool h l = record {
  distinct = put_tool-distinct ts tool l.distinct;
  named = put_tool-named ts tool h l.named;
}

text?-given : (value : Option Json) → IfSome (λ s. is_empty s ≡ false) (text? value)
unfolding text?
text?-given value = elim (Option-cases (trimmed? value)) [
  | inl e ↦ rw (e, text?) tt
  | inr (s, e) ↦ rw (e, text?) (elim (Bool-cases (is_empty s)) [ inl k ↦ rw k tt | inr k ↦ rw k k ])
]

read_tool-given : (value : Json) → IfSome (λ t. is_empty t.name ≡ false) (read_tool value)
unfolding read_tool
read_tool-given value = elim (Option-cases (object? value)) [
  | inl h ↦ rw (h, read_tool) tt
  | inr (fields, h) ↦ elim (Option-cases (text? (get_field fields "name"))) [
    | inl e ↦ rw (h, e, read_tool) tt
    | inr (name, e) ↦ rw (h, e, read_tool) (rw e at (text?-given (get_field fields "name")))
  ]
]

add_tools-IsToolList :
    (vs : List Json) (found : List GatewayMcpTool)
    → IsToolList found
    → IsToolList (add_tools vs found)
unfolding add_tools
add_tools-IsToolList [] found l = l
add_tools-IsToolList (v ∷ vs) found l = elim (Option-cases (read_tool v)) [
  | inl e ↦ rw e (add_tools-IsToolList vs found l)
  | inr (tool, e) ↦ rw e (
      add_tools-IsToolList vs (put_tool found tool)
        (put_tool-IsToolList found tool (rw e at (read_tool-given v)) l))
]

pub page_tools-IsToolList :
    (result : Option Fields) (found : List GatewayMcpTool)
    → IsToolList found
    → IsToolList (page_tools result found)
unfolding page_tools
page_tools-IsToolList none found l = l
page_tools-IsToolList (some result) found l =
    elim (Option-cases (array? (get_field result "tools"))) [
      | inl e ↦ rw (e, page_tools) l
      | inr (entries, e) ↦ rw (e, page_tools) (add_tools-IsToolList entries found l)
    ]
