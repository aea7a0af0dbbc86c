-- ===== src/Level.antt =====
-- Interprocedural levels: `getLevel` and `ensureLevelSet`
-- (passes/TaintTrackerPass/TaintTrackerPass.cpp).
pub mod Laws
use linux_analysis.Prelude.{ℤ, pos, ◌||◌, Option, none, some, Map, lookup, put, if◌then◌else◌}
use linux_analysis.Llvm.{Ir, Value, is_instruction, is_argument}
use linux_analysis.State.{State}

-- The level of the function that an instruction or an argument belongs to, 0 without one.
unfoldable pub level_of_function : Ir → State → Value → Option ℤ
level_of_function ir s v =
    if is_instruction (ir.kind v) || is_argument (ir.kind v)
    then elim (ir.function_of v) [ none ↦ none | some f ↦ lookup f s.function_level ]
    else none

abbrev pub level_or_zero : Option ℤ → ℤ
level_or_zero none = pos 0
level_or_zero (some l) = l

unfoldable pub get_level : Ir → State → Value → ℤ
unfolding level_of_function
get_level ir s v = elim (lookup v s.value_level) [
  | some l ↦ l
  | none ↦ level_or_zero (level_of_function ir s v)
]

-- `ValueLevel` after the call.
unfoldable pub ensured_levels : Ir → Value → State → Map ℤ
ensured_levels ir v s = elim (lookup v s.value_level) [
  | some _ ↦ s.value_level
  | none ↦ elim (ir.function_of v) [
    | none ↦ s.value_level
    | some f ↦ elim (lookup f s.function_level) [
      | none ↦ s.value_level
      | some l ↦ put v l s.value_level
    ]
  ]
]

-- Only called on instructions.
unfoldable pub ensure_level_set : Ir → Value → State → State
unfolding ensured_levels
ensure_level_set ir v s = record s { value_level = ensured_levels ir v s }
