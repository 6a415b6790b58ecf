-- ===== src/Text/Trim.antt =====
-- Laws of `trim`, and of the tests on a trimmed text.
use Prim.Native.Char.{Char, code}
use Prim.Native.String.{[], ◌∷◌}
use ai_base.Common.{String, ◌≡◌, refl, false, inl, inr, Bool-cases, ap, ◌∙◌}
use ai_base.Text.{is_space, trim_start, trim_end, trim, keep_end}

abbrev StartsSolid : String → Type 0
StartsSolid [] = Unit
StartsSolid (c ∷ s) = is_space (code c) ≡ false

trim_start-StartsSolid : (s : String) → StartsSolid (trim_start s)
unfolding trim_start
trim_start-StartsSolid [] = tt
trim_start-StartsSolid (c ∷ s) = elim (Bool-cases (is_space (code c))) [
  | inl blank ↦ rw blank (trim_start-StartsSolid s)
  | inr solid ↦ rw solid solid
]

trim_start_of_StartsSolid : (s : String) → StartsSolid s → trim_start s ≡ s
unfolding trim_start
trim_start_of_StartsSolid [] h = refl
trim_start_of_StartsSolid (c ∷ s) h = rw h

keep_end-StartsSolid :
    (c : Char) (s : String) → is_space (code c) ≡ false → StartsSolid (keep_end c s)
keep_end-StartsSolid c [] h = rw h h
keep_end-StartsSolid c (d ∷ s) h = h

trim_end-StartsSolid : (s : String) → StartsSolid s → StartsSolid (trim_end s)
unfolding trim_end
trim_end-StartsSolid [] h = tt
trim_end-StartsSolid (c ∷ s) h = keep_end-StartsSolid c (trim_end s) h

trim_end-keep_end :
    (c : Char) (s : String) → trim_end s ≡ s → trim_end (keep_end c s) ≡ keep_end c s
unfolding trim_end
trim_end-keep_end c [] h = elim (Bool-cases (is_space (code c))) [
  | inl blank ↦ rw blank
  | inr solid ↦ rw solid (rw solid)
]
trim_end-keep_end c (d ∷ s) h = ap (keep_end c) h

trim_end_idempotent : (s : String) → trim_end (trim_end s) ≡ trim_end s
unfolding trim_end
trim_end_idempotent [] = refl
trim_end_idempotent (c ∷ s) = trim_end-keep_end c (trim_end s) (trim_end_idempotent s)

-- Trimming a second time changes nothing.
pub trim_idempotent : (s : String) → trim (trim s) ≡ trim s
unfolding trim
trim_idempotent s =
    ap trim_end (
      trim_start_of_StartsSolid (trim_end (trim_start s))
        (trim_end-StartsSolid (trim_start s) (trim_start-StartsSolid s)))
    ∙ trim_end_idempotent (trim_start s)
