-- ===== src/Integrations/Consistent.antt =====
-- The keys of the table of applications under the statements of the source.
use ai_base.Common.{
  ℕ, String, ◌≡◌, refl, ap, subst, List, [], ◌∷◌, true, false, some, ◌===◌, any, any_pair, map,
  find, All, ===→≡, eq_iff, arith, inl, inr, Bool-cases,
}
use ai_base.Integrations.Tables.{
  IntegrationApplicationRow, clash, is_violated, deactivate, activate, find_row,
}

abbrev Rows : Type 0
Rows = List IntegrationApplicationRow

pub deactivate-clash :
    (platform id : String) (now : ℕ) (a b : IntegrationApplicationRow)
    → clash a b ≡ false
    → clash (deactivate platform id now a) (deactivate platform id now b) ≡ false
unfolding clash deactivate
deactivate-clash platform id now a b h = ground arith

-- Of the platform only the row with the id may be active, and it is of the platform.
abbrev pub IsCleared : String → String → IntegrationApplicationRow → Type 0
IsCleared platform id row =
    ((row.platform ≡ platform) → (row.id === id) ≡ false → row.active ≡ false)
    × ((row.id === id) ≡ true → row.platform ≡ platform)

pub activate-clash :
    (platform id : String) (now : ℕ) (a b : IntegrationApplicationRow)
    → IsCleared platform id a
    → IsCleared platform id b
    → clash a b ≡ false
    → clash (activate id now a) (activate id now b) ≡ false
unfolding clash activate
activate-clash platform id now a b (off_a, on_a) (off_b, on_b) h = ground (
  arith,
  eq_iff a.id b.id,
  eq_iff a.id id,
  eq_iff b.id id,
  eq_iff a.platform b.platform,
  off_a,
  on_a,
  off_b,
  on_b,
)

some-injective : {a b : IntegrationApplicationRow} → some a ≡ some b → a ≡ b
some-injective h = cc

-- No other row has the id of a row that clashes with none.
fresh_rows :
    (a : IntegrationApplicationRow) (platform : String) (rows : Rows)
    → any (clash a) rows ≡ false
    → All (λ r. (r.id === a.id) ≡ true → r.platform ≡ platform) rows
unfolding any clash
fresh_rows a platform [] h = tt
fresh_rows a platform (b ∷ rows) h = (
  λ e. absurd (ground (arith, eq_iff b.id a.id, eq_iff a.id b.id)),
  fresh_rows a platform rows (ground arith),
)

-- The rows of an id are of the platform of the row that is found.
pub find_row-platform :
    (id : String) (rows : Rows) (row : IntegrationApplicationRow)
    → is_violated rows ≡ false
    → find_row id rows ≡ some row
    → All (λ r. (r.id === id) ≡ true → r.platform ≡ row.platform) rows
unfolding find_row find is_violated any_pair
find_row-platform id [] row h e = cc
find_row-platform id (a ∷ rows) row h e =
    let tail : any_pair clash rows ≡ false = ground arith in
    let apart : any (clash a) rows ≡ false = ground arith in
    elim (Bool-cases (a.id === id)) [
      | inl same ↦
          let eq : some a ≡ some row = rw same at e in
          (
            λ k. rw (some-injective eq) refl,
            subst (λ i. All (λ r. (r.id === i) ≡ true → r.platform ≡ row.platform) rows)
                (===→≡ a.id id same) (fresh_rows a row.platform rows apart),
          )
      | inr other ↦ (λ k. absurd (ground arith), find_row-platform id rows row tail (rw other at e))
    ]

pub find_row-map :
    (f : IntegrationApplicationRow → IntegrationApplicationRow) (id : String) (rows : Rows)
    (row : IntegrationApplicationRow)
    → ((r : IntegrationApplicationRow) → (f r).id ≡ r.id)
    → find_row id rows ≡ some row
    → find_row id (map f rows) ≡ some (f row)
unfolding find_row find
find_row-map f id [] row same h = cc
find_row-map f id (r ∷ rows) row same h = elim (Bool-cases (r.id === id)) [
  | inl here ↦
      let there : ((f r).id === id) ≡ true = rw (same r) here in
      rw there (ap (λ x. some (f x)) (some-injective (rw here at h)))
  | inr other ↦
      let there : ((f r).id === id) ≡ false = rw (same r) other in
      rw there (find_row-map f id rows row same (rw other at h))
]

pub find_row-id :
    (id : String) (rows : Rows) (row : IntegrationApplicationRow)
    → find_row id rows ≡ some row
    → row.id ≡ id
unfolding find_row find
find_row-id id [] row h = cc
find_row-id id (r ∷ rows) row h = elim (Bool-cases (r.id === id)) [
  | inl here ↦ rw (some-injective (rw here at h)) at (===→≡ r.id id here)
  | inr other ↦ find_row-id id rows row (rw other at h)
]

-- Clearing a platform leaves of it only the row with the id, if the rows of the id are of the platform.
pub deactivate-IsCleared :
    (platform id : String) (now : ℕ) (rows : Rows)
    → All (λ r. (r.id === id) ≡ true → r.platform ≡ platform) rows
    → All (IsCleared platform id) (map (deactivate platform id now) rows)
unfolding deactivate
deactivate-IsCleared platform id now [] all = tt
deactivate-IsCleared platform id now (r ∷ rows) (h, all) = (
  (ground (arith, eq_iff r.platform platform), ground (arith, h)),
  deactivate-IsCleared platform id now rows all,
)
