-- ===== src/Report/Levels.antt =====
-- The largest level and the values that have it, at the end of `run`
-- (passes/TaintTrackerPass/TaintTrackerPass.cpp).
pub mod Laws
use linux_analysis.Prelude.{
  ℕ, ◌+◌, ◌%◌, ℤ, Bool, ◌&&◌, ◌||◌, not, Option, none, some, List, [], ◌∷◌, ◌++◌, foldl, Map,
  lookup, put, contains, insert, ltb_ℤ, eq_ℤ, if◌then◌else◌,
}
use linux_analysis.Llvm.{
  Ir, Value, Function, is_instruction, is_argument, function_instructions, defined_functions,
}
use linux_analysis.State.{State}

-- `n++` on an `unsigned`.
abbrev pub inc32 : ℕ → ℕ
inc32 n = (n + 1) % 4294967296

-- `if (Entry.second > maxLevel) maxLevel = Entry.second`; `none` stands for INT_MIN.
unfoldable pub raise_max : Option ℤ → ℤ → Option ℤ
raise_max none l = some l
raise_max (some m) l = if ltb_ℤ m l then some l else some m

-- An entry of `ValueLevel`; only tainted values are considered.
unfoldable pub visit_level : State → Option ℤ → Value × ℤ → Option ℤ
unfolding raise_max
visit_level s m (v, l) = if contains v s.tainted_values then raise_max m l else m

unfoldable pub max_level : State → Option ℤ
unfolding visit_level
max_level s = foldl (visit_level s) none s.value_level

-- MaxLevelInstructions, MaxLevelArguments and MaxLevelCountPerFunction.
pub record MaxLevel : Type 0 where
  pub instructions : List Value
  pub arguments : List Value
  pub per_function : Map ℕ

abbrev pub count_or_zero : Option ℕ → ℕ
count_or_zero none = 0
count_or_zero (some n) = n

-- `MaxLevelCountPerFunction[F]++`, if there is a function.
unfoldable pub count_function : Option Function → Map ℕ → Map ℕ
count_function none m = m
count_function (some f) m = put f (inc32 (count_or_zero (lookup f m))) m

module _ (ir : Ir) where
  unfoldable pub collect_value : MaxLevel → Value → MaxLevel
  unfolding count_function
  collect_value a v =
      if is_instruction (ir.kind v)
      then record a {
        instructions = a.instructions ++ v ∷ [];
        per_function = count_function (ir.function_of v) a.per_function;
      }
      else (if is_argument (ir.kind v)
          then record a {
            arguments = a.arguments ++ v ∷ [];
            per_function = count_function (ir.function_of v) a.per_function;
          }
          else a)

  unfoldable pub collect : State → ℤ → MaxLevel → Value × ℤ → MaxLevel
  unfolding collect_value
  collect s m a (v, l) = if contains v s.tainted_values && eq_ℤ l m then collect_value a v else a

  abbrev nothing_collected : MaxLevel
  nothing_collected = record { instructions = []; arguments = []; per_function = [] }

  unfoldable pub max_level_values : State → ℤ → MaxLevel
  unfolding collect
  max_level_values s m = foldl (collect s m) nothing_collected s.value_level

  -- EarliestLatestPerFunction: the first and the last instruction, one update.
  unfoldable pub note_instruction : Function → Map (Value × Value) → Value → Map (Value × Value)
  note_instruction f m i = elim (lookup f m) [
    | none ↦ put f (i, i) m
    | some (e, l) ↦ put f (e, i) m
  ]

  unfoldable pub note_found :
      List Value → Function → Map (Value × Value) → Value → Map (Value × Value)
  unfolding note_instruction
  note_found found f m i = if contains i found then note_instruction f m i else m

  -- The pair for the whole module, which the source keeps as well, is not read.
  unfoldable pub earliest_latest_of :
      List Value → Map (Value × Value) → Function → Map (Value × Value)
  unfolding note_found
  earliest_latest_of found m f = foldl (note_found found f) m (function_instructions ir f)

  unfoldable pub earliest_latest : List Value → Map (Value × Value)
  unfolding earliest_latest_of
  earliest_latest found = foldl (earliest_latest_of found) [] (defined_functions ir ir.functions)

  -- AllVisitedFunctions: those of the tainted values that have a level.
  unfoldable pub visit_function : State → List Function → Value × ℤ → List Function
  visit_function s fs (v, l) =
      if contains v s.tainted_values && (is_instruction (ir.kind v) || is_argument (ir.kind v))
      then elim (ir.function_of v) [ none ↦ fs | some f ↦ insert f fs ]
      else fs

  unfoldable pub visited_functions : State → List Function
  unfolding visit_function
  visited_functions s = foldl (visit_function s) [] s.value_level
