-- ===== src/Gep/Pattern.antt =====
-- What `sameGEPPattern` compares.
use linux_analysis.Prelude.{
  suc, ℤ, ◌≡◌, refl, ◌↔◌, ap, true, Option, none, some, List, [], ◌∷◌, length, eq_ℤ_iff, arith,
}
use linux_analysis.Llvm.{Ir, Value, Gep, as_constant_int}
use linux_analysis.Gep.{same_index, same_indices, same_gep_pattern}

-- The indices as far as they are constant.
abbrev pub pattern_of : Ir → List Value → List (Option ℤ)
pattern_of ir [] = []
pattern_of ir (i ∷ is) = as_constant_int (ir.kind i) ∷ pattern_of ir is

same_index_iff : (a b : Option ℤ) → (same_index a b ≡ true) ↔ (a ≡ b)
same_index_iff (some a) (some b) = ground (arith, eq_ℤ_iff a b)
same_index_iff (some a) none = ground arith
same_index_iff none (some b) = ground arith
same_index_iff none none = ground arith

same_indices_iff :
    (ir : Ir) (is js : List Value)
    → length is ≡ length js
    → (same_indices ir is js ≡ true) ↔ (pattern_of ir is ≡ pattern_of ir js)
unfolding same_indices
same_indices_iff ir [] [] h = (λ _. refl, λ _. refl)
same_indices_iff ir [] (j ∷ js) h = absurd (omega arith)
same_indices_iff ir (i ∷ is) [] h = absurd (omega arith)
same_indices_iff ir (i ∷ is) (j ∷ js) h = ground (
  arith,
  same_indices_iff ir is js (omega arith),
  same_index_iff (as_constant_int (ir.kind i)) (as_constant_int (ir.kind j)),
)

length-pattern_of : (ir : Ir) (is : List Value) → length (pattern_of ir is) ≡ length is
length-pattern_of ir [] = refl
length-pattern_of ir (i ∷ is) = ap suc (length-pattern_of ir is)

-- Two GEPs match exactly when they have the same source element type and the same list of
-- indices, where two indices count as the same if they are equal constants or both not constant.
pub same_gep_pattern_iff :
    (ir : Ir) (a b : Gep)
    → (same_gep_pattern ir a b ≡ true)
      ↔ ((a.element_type ≡ b.element_type) × (pattern_of ir a.indices ≡ pattern_of ir b.indices))
unfolding same_gep_pattern
same_gep_pattern_iff ir a b = ground (
  arith,
  same_indices_iff ir a.indices b.indices,
  length-pattern_of ir a.indices,
  length-pattern_of ir b.indices,
)
