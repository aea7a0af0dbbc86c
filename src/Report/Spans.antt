-- ===== src/Report/Spans.antt =====
-- The data flow span of a function, at the end of `run`
-- (passes/TaintTrackerPass/TaintTrackerPass.cpp): its first and last instruction with the largest
-- level, and the instructions between them.
pub mod Laws
use linux_analysis.Prelude.{
  ℕ, ℤ, Bool, true, false, ◌&&◌, ◌||◌, Option, none, some, List, [], ◌∷◌, foldl, lookup, contains,
  eq_ℤ, ◌==◌, if◌then◌else◌,
}
use linux_analysis.Llvm.{Ir, Value, Function, Block, function_instructions}
use linux_analysis.State.{State}
use linux_analysis.Report.Levels.{inc32}

-- `TaintedValues.count(&I) && ValueLevel.count(&I) && ValueLevel[&I] == maxLevel`
unfoldable pub at_level : State → ℤ → Value → Bool
at_level s m i =
    contains i s.tainted_values
    && elim (lookup i s.value_level) [ none ↦ false | some l ↦ eq_ℤ l m ]

-- `if (!first) first = &I; last = &I;`
abbrev pub widen : Option (Value × Value) → Value → Option (Value × Value)
widen none i = some (i, i)
widen (some (first, last)) i = some (first, i)

unfoldable pub range_step : State → ℤ → Option (Value × Value) → Value → Option (Value × Value)
unfolding at_level
range_step s m r i = if at_level s m i then widen r i else r

-- The entry of the function in MaxLevelFunctionRanges, if it gets one.
unfoldable pub range_of : Ir → State → ℤ → Function → Option (Value × Value)
unfolding range_step
range_of ir s m f = foldl (range_step s m) none (function_instructions ir f)

-- The counting loop from instruction to instruction: `inRange`, and the count so far. It is left
-- after the last instruction.
unfoldable pub count_range : Value → Value → Bool → ℕ → List Value → ℕ
count_range first last in_range n [] = n
count_range first last in_range n (i ∷ is) =
    let now = in_range || i == first in
    let n' = if now then inc32 n else n in
    let rest = count_range first last now n' is in if i == last then n' else rest

unfoldable pub count_all : ℕ → List Value → ℕ
count_all n [] = n
count_all n (i ∷ is) = count_all (inc32 n) is

-- startBBIdx, startInstIdx, endBBIdx, endInstIdx.
pub record Position : Type 0 where
  pub start_bb : ℕ
  pub start_inst : ℕ
  pub end_bb : ℕ
  pub end_inst : ℕ

unfoldable pub locate_instruction : Value → Value → ℕ → Position × ℕ → Value → Position × ℕ
locate_instruction first last bb (p, n) i =
    let p1 = if i == first then record p { start_bb = bb; start_inst = n } else p in
    let p2 = if i == last then record p1 { end_bb = bb; end_inst = n } else p1 in (p2, inc32 n)

unfoldable pub locate_block : Ir → Value → Value → Position × ℕ → Block → Position × ℕ
unfolding locate_instruction
locate_block ir first last (p, bb) b =
    ((foldl (locate_instruction first last bb) (p, 0) (ir.instructions b)).0, inc32 bb)

abbrev pub origin_position : Position
origin_position = record { start_bb = 0; start_inst = 0; end_bb = 0; end_inst = 0 }

unfoldable pub position : Ir → Function → Value → Value → Position
unfolding locate_block
position ir f first last = (foldl (locate_block ir first last) (origin_position, 0) (ir.blocks f)).0
