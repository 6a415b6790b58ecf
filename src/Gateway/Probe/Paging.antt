-- ===== src/Gateway/Probe/Paging.antt =====
-- The loop over the pages of the tool list: it ends within its bound, and no cursor is asked twice.
use ai_base.Common.{
  ℕ, zero, suc, ◌+◌, ◌≤◌, ◌<◌, String, ◌≡◌, refl, List, [], ◌∷◌, map, true, false, Option, none,
  some, subst, arith, inl, inr, ◌⊎◌, Bool-cases, includes, length, leb, AllDistinct, AllFresh,
  AllFresh-AllDistinct,
}
use ai_base.Json.{Json}
use ai_base.Gateway.Types.{max_mcp_tool_pages}
use ai_base.Gateway.Probe.{is_success}
use ai_base.Gateway.Probe.Tools.{
  Reply, reply, lost, GatewayMcpTool, Ending, listed, refused, interrupted, Turn, stop, go, follow,
  take_page, result_of, next_cursor, Listing, list_pages, list_request,
}
use ai_base.Gateway.Probe.Found.{IsToolList, page_tools-IsToolList}

-- Tools are given after a success only, each name once.
abbrev pub IsEnding : Ending → Type 0
IsEnding (listed status tools) = (is_success status ≡ true) × IsToolList tools
IsEnding (refused status message) = Unit
IsEnding (interrupted timed_out) = Unit

-- The loop goes on before its last page only, with a cursor that it had not visited.
abbrev IsTurn : ℕ → List String → Turn → Type 0
IsTurn page visited (stop ending) = IsEnding ending
IsTurn page visited (go next seen more) =
    (page < max_mcp_tool_pages)
    × (includes visited next ≡ false)
    × (seen ≡ next ∷ visited)
    × IsToolList more

follow-IsTurn :
    (page status : ℕ) (visited : List String) (found : List GatewayMcpTool) (cursor : Option String)
    → is_success status ≡ true
    → IsToolList found
    → IsTurn page visited (follow page status visited found cursor)
unfolding follow
follow-IsTurn page status visited found none h l = (h, l)
follow-IsTurn page status visited found (some cursor) h l =
    elim (Bool-cases (includes visited cursor)) [
      | inl old ↦ rw old tt
      | inr new ↦ elim (Bool-cases (leb max_mcp_tool_pages page)) [
        | inl last ↦ rw (new, last) tt
        | inr early ↦ rw (new, early) (ground arith, new, refl, l)
      ]
    ]

take_page-IsTurn :
    (page : ℕ) (visited : List String) (found : List GatewayMcpTool) (r : Reply)
    → IsToolList found
    → IsTurn page visited (take_page page visited found r)
unfolding take_page
take_page-IsTurn page visited found (lost timed_out) l = tt
take_page-IsTurn page visited found (reply status session payload) l =
    elim (Bool-cases (is_success status)) [
      | inr e ↦ rw e tt
      | inl e ↦ rw e (
          follow-IsTurn page status visited _ (next_cursor (result_of payload)) e
            (page_tools-IsToolList (result_of payload) found l))
    ]

Turn-cases :
    (t : Turn)
    → ((ending : Ending) × (t ≡ stop ending))
      ⊎ ((next : String) × (seen : List String) × (more : List GatewayMcpTool) × (t
            ≡ go next seen more))
Turn-cases (stop ending) = inl (ending, refl)
Turn-cases (go next seen more) = inr (next, seen, more, refl)

-- The loop after some pages has a result: it asks for the given page and for later ones by fresh
-- cursors, up to the bound.
module _ (ask : Json → Reply) where
  record IsRun (page : ℕ) (cursor : Option String) (visited : List String) (l : Listing)
      : Type 0 where
    pub later : List String
    pub asked : l.asked ≡ cursor ∷ map some later
    pub fresh : AllFresh visited later
    pub bounded : suc (page + length later) ≤ max_mcp_tool_pages
    pub ending : IsEnding l.ending

  list_pages-IsRun :
      (fuel page : ℕ) (cursor : Option String) (visited : List String) (found : List GatewayMcpTool)
      → max_mcp_tool_pages ≤ fuel + page
      → page < max_mcp_tool_pages
      → IsToolList found
      → (l : Listing) × (list_pages ask fuel page cursor visited found ≡ some l)
        × IsRun page cursor visited l
  unfolding list_pages
  list_pages-IsRun zero page cursor visited found h k l = absurd (omega arith)
  list_pages-IsRun (suc fuel) page cursor visited found h k l =
      let answer = ask (list_request (suc page) cursor) in
      let step = take_page-IsTurn (suc page) visited found answer l in
      elim (Turn-cases (take_page (suc page) visited found answer)) [
        | inl (ending, e) ↦ (
          record { asked = cursor ∷ []; ending = ending },
          rw (e, list_pages) refl,
          record {
            later = [];
            asked = refl;
            fresh = tt;
            bounded = omega arith;
            ending = rw e at step;
          },
        )
        | inr (next, seen, more, e) ↦
            let (early, new, same, tools) = rw e at step in
            let (rest, eq, run) =
              list_pages-IsRun fuel (suc page) (some next) seen more (omega arith) early tools in
            (
              record { asked = cursor ∷ rest.asked; ending = rest.ending },
              rw (e, list_pages, eq) refl,
              record {
                later = next ∷ run.later;
                asked = rw run.asked refl;
                fresh = (new, subst (λ s. AllFresh s run.later) same run.fresh);
                bounded = omega (arith, run.bounded);
                ending = run.ending;
              },
            )
      ]

  -- What holds of the whole loop: the first page is asked for without a cursor, the others by
  -- different cursors, at most 100 pages in all.
  pub record IsPaged (l : Listing) : Type 0 where
    pub cursors : List String
    pub asked : l.asked ≡ none ∷ map some cursors
    pub distinct : AllDistinct cursors
    pub bounded : suc (length cursors) ≤ max_mcp_tool_pages
    pub ending : IsEnding l.ending

  -- Whatever a service answers, the loop over its tool list ends on a fuel of 100 pages: it asks for
  -- at most 100 pages, the first without a cursor and no other by the same cursor twice, and the tools
  -- of a success have distinct names that are not empty.
  pub list_pages-IsPaged :
      (l : Listing) × (list_pages ask max_mcp_tool_pages 0 none [] [] ≡ some l) × IsPaged l
  list_pages-IsPaged =
      let (l, eq, run) =
        list_pages-IsRun max_mcp_tool_pages 0 none [] [] (omega arith) (omega arith)
          (record { distinct = tt; named = tt }) in
      (
        l,
        eq,
        record {
          cursors = run.later;
          asked = run.asked;
          distinct = AllFresh-AllDistinct [] _ run.fresh;
          bounded = omega (arith, run.bounded);
          ending = run.ending;
        },
      )
