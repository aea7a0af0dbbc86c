-- ===== src/Report.antt =====
-- The report at the end of `run` (passes/TaintTrackerPass/TaintTrackerPass.cpp), as a value.
pub mod Levels
pub mod Spans
pub mod Counts
use linux_analysis.Prelude.{
  ℕ, ◌+◌, ◌-◌, ◌%◌, ltb, ℤ, Bool, true, false, not, ◌||◌, ◌==◌, Option, none, some, List, [], ◌∷◌,
  ◌++◌, map, foldl, length, Map, contains, if◌then◌else◌,
}
use linux_analysis.Llvm.{Ir, Value, Function, function_instructions, defined_functions}
use linux_analysis.State.{State}
use linux_analysis.Provenance.{is_empty}
use linux_analysis.Report.Levels.{
  MaxLevel, max_level, max_level_values, earliest_latest, visited_functions,
}
use linux_analysis.Report.Spans.{Position, range_of, count_range, count_all, position}

-- `+` and `-` on `unsigned`.
abbrev pub add32 : ℕ → ℕ → ℕ
add32 a b = (a + b) % 4294967296

abbrev pub sub32 : ℕ → ℕ → ℕ
sub32 a b = (a % 4294967296 + 4294967296 - b % 4294967296) % 4294967296

-- What is printed, in the order of printing. `instructions` is 0 where only arguments have the
-- level; `arguments` is 0 where it is not printed, and `total_values` is printed only where both are
-- not empty; `breakdown` is empty unless several functions have values of the level.
pub record Report : Type 0 where
  pub level : ℤ
  pub instructions : ℕ
  pub arguments : ℕ
  pub total_values : Option ℕ
  pub breakdown : List (Function × ℕ)
  pub earliest_latest : List (Function × (Value × Value))
  pub max_count : ℕ
  pub other_count : ℕ
  pub total_count : ℕ
  pub max_functions : ℕ
  pub other_functions : ℕ
  pub spans : List (Function × Position)
  pub full_spans : List Function

-- MaxLevelFunctionRanges, in the order of the module.
pub record Range : Type 0 where
  pub function : Function
  pub first : Value
  pub last : Value

-- The functions with a body that were visited.
unfoldable pub reported : List Function → List Function → List Function
reported visited [] = []
reported visited (f ∷ fs) =
    if contains f visited then f ∷ reported visited fs else reported visited fs

unfoldable pub has_key {ℓ} : {A : Type ℓ} → Function → Map A → Bool
has_key f [] = false
has_key f ((g, _) ∷ m) = g == f || has_key f m

unfoldable pub find_range : Function → List Range → Option Range
find_range f [] = none
find_range f (r ∷ rs) = if r.function == f then some r else find_range f rs

-- The visited functions that have no range, or no value of the level.
unfoldable pub without_range : List Range → List Function → List Function
unfolding find_range
without_range rs [] = []
without_range rs (f ∷ fs) = elim (find_range f rs) [
  | some _ ↦ without_range rs fs
  | none ↦ f ∷ without_range rs fs
]

unfoldable pub without_key : Map ℕ → List Function → List Function
unfolding has_key
without_key counts [] = []
without_key counts (f ∷ fs) =
    if has_key f counts then without_key counts fs else f ∷ without_key counts fs

module _ (ir : Ir) where
  -- `llvm::sort` by the names of the functions.
  insert_by_name {ℓ} : {A : Type ℓ} → (A → Function) → A → List A → List A
  insert_by_name key x [] = x ∷ []
  insert_by_name key x (y ∷ ys) =
      if ir.name_before (key y) (key x) then y ∷ insert_by_name key x ys else x ∷ y ∷ ys

  unfoldable pub sort_by_name {ℓ} : {A : Type ℓ} → (A → Function) → List A → List A
  unfolding insert_by_name
  sort_by_name key [] = []
  sort_by_name key (x ∷ xs) = insert_by_name key x (sort_by_name key xs)

  unfoldable pub add_range : State → ℤ → Map ℕ → List Range → Function → List Range
  unfolding range_of has_key
  add_range s m counts rs f =
      if has_key f counts
      then elim (range_of ir s m f) [
        | none ↦ rs
        | some (i, j) ↦ rs ++ record { function = f; first = i; last = j } ∷ []
      ]
      else rs

  unfoldable pub ranges : State → ℤ → Map ℕ → List Function → List Range
  unfolding add_range
  ranges s m counts fs = foldl (add_range s m counts) [] fs

  -- maxLevelFunctionInstructionCount and otherFunctionInstructionCount.
  unfoldable pub count_function_span : List Range → ℕ × ℕ → Function → ℕ × ℕ
  unfolding find_range count_range count_all
  count_function_span rs (n, k) f = elim (find_range f rs) [
    | some r ↦ (count_range r.first r.last false n (function_instructions ir f), k)
    | none ↦ (n, count_all k (function_instructions ir f))
  ]

  -- The same where only arguments have the level.
  unfoldable pub count_function_all : Map ℕ → ℕ × ℕ → Function → ℕ × ℕ
  unfolding has_key count_all
  count_function_all counts (n, k) f =
      if has_key f counts
      then (count_all n (function_instructions ir f), k)
      else (n, count_all k (function_instructions ir f))

  unfoldable pub breakdown_of : Map ℕ → List (Function × ℕ)
  unfolding sort_by_name
  breakdown_of counts = if ltb 1 (length counts) then sort_by_name (λ e. e.0) counts else []

  unfoldable pub span_of : Range → Function × Position
  unfolding position
  span_of r = (r.function, position ir r.function r.first r.last)

  -- totalMaxLevelValues, a `size_t`, as it is printed with instructions.
  unfoldable pub total_of : MaxLevel → Option ℕ
  total_of v =
      if is_empty v.arguments
      then none
      else some ((length v.instructions + length v.arguments) % 18446744073709551616)

  unfoldable pub instruction_report : State → ℤ → MaxLevel → Report
  unfolding total_of breakdown_of earliest_latest visited_functions reported ranges
      count_function_span sort_by_name span_of without_range
  instruction_report s m v =
      let visited = visited_functions ir s in
      let fs = reported visited (defined_functions ir ir.functions) in
      let rs = ranges s m v.per_function fs in
      let counts = foldl (count_function_span rs) (0, 0) fs in
      record {
        level = m;
        instructions = length v.instructions;
        arguments = length v.arguments;
        total_values = total_of v;
        breakdown = breakdown_of v.per_function;
        earliest_latest = sort_by_name (λ e. e.0) (earliest_latest ir v.instructions);
        max_count = counts.0;
        other_count = counts.1;
        total_count = add32 counts.0 counts.1;
        max_functions = length rs;
        other_functions = sub32 (length visited) (length rs);
        spans = map span_of (sort_by_name (λ r. r.function) rs);
        full_spans = sort_by_name (λ f. f) (without_range rs visited);
      }

  unfoldable pub argument_report : State → ℤ → MaxLevel → Report
  unfolding breakdown_of visited_functions reported count_function_all sort_by_name without_key
  argument_report s m v =
      let visited = visited_functions ir s in
      let counts =
        foldl (count_function_all v.per_function) (0, 0)
          (reported visited (defined_functions ir ir.functions)) in
      record {
        level = m;
        instructions = 0;
        arguments = length v.arguments;
        total_values = none;
        breakdown = breakdown_of v.per_function;
        earliest_latest = [];
        max_count = counts.0;
        other_count = counts.1;
        total_count = add32 counts.0 counts.1;
        max_functions = length v.per_function;
        other_functions = sub32 (length visited) (length v.per_function);
        spans = [];
        full_spans =
            sort_by_name (λ f. f) (map (λ (e : Function × ℕ). e.0) v.per_function)
            ++ sort_by_name (λ f. f) (without_key v.per_function visited);
      }

  -- Nothing is printed where no tainted value has a level, or none that is an instruction or an
  -- argument has the largest.
  unfoldable pub report : State → Option Report
  unfolding max_level max_level_values instruction_report argument_report
  report s = elim (max_level s) [
    | none ↦ none
    | some m ↦
        let v = max_level_values ir s m in
        if not (is_empty v.instructions)
        then some (instruction_report s m v)
        else (if not (is_empty v.arguments) then some (argument_report s m v) else none)
  ]
