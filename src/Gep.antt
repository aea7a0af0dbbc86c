-- ===== src/Gep.antt =====
-- `sameGEPPattern` (passes/TaintTrackerPass/TaintTrackerPass.cpp): do two GEPs access the same
-- field of the same type?
pub mod Pattern
use linux_analysis.Prelude.{
  ℤ, Bool, true, false, not, ◌&&◌, Option, none, some, List, [], ◌∷◌, length, eq_ℤ, ◌==◌,
  if◌then◌else◌,
}
use linux_analysis.Llvm.{Ir, Value, Gep, as_constant_int}

-- Constant indices must agree, and one that is not constant fits any that is not.
abbrev same_index : Option ℤ → Option ℤ → Bool
same_index (some a) (some b) = eq_ℤ a b
same_index (some a) none = false
same_index none (some b) = false
same_index none none = true

same_indices : Ir → List Value → List Value → Bool
same_indices ir [] js = true
same_indices ir (i ∷ is) [] = true
same_indices ir (i ∷ is) (j ∷ js) =
    same_index (as_constant_int (ir.kind i)) (as_constant_int (ir.kind j)) && same_indices ir is js

unfoldable pub same_gep_pattern : Ir → Gep → Gep → Bool
unfolding same_indices
same_gep_pattern ir a b =
    if not (length a.indices == length b.indices)
    then false
    else (if not (a.element_type == b.element_type)
        then false
        else same_indices ir a.indices b.indices)
