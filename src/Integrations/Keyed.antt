-- ===== src/Integrations/Keyed.antt =====
-- The ids of the table of applications.
use ai_base.Common.{String, ◌≡◌, refl, List, [], ◌∷◌, Bool, true, ◌===◌, any, map, arith}
use ai_base.Integrations.Tables.{IntegrationApplicationRow}

abbrev pub has_id : String → List IntegrationApplicationRow → Bool
has_id id rows = any (λ row. row.id === id) rows

pub has_id-map :
    (f : IntegrationApplicationRow → IntegrationApplicationRow)
    (rows : List IntegrationApplicationRow)
    → ((row : IntegrationApplicationRow) → (f row).id ≡ row.id)
    → (id : String) → has_id id rows ≡ true
    → has_id id (map f rows) ≡ true
unfolding any
has_id-map f [] same id h = h
has_id-map f (row ∷ rows) same id h =
    let there : ((f row).id === id) ≡ (row.id === id) = rw (same row) refl in
    ground (arith, there, has_id-map f rows same id)
