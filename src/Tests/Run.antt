-- ===== src/Tests/Run.antt =====
-- The analysis and its report on the sample, and their theorems there.
use linux_analysis.Prelude.{
  missing, ◌+◌, ◌-◌, ◌%◌, ◌≤◌, ◌<◌, ℤ, pos, ◌≤ℤ◌, ◌≡◌, refl, true, false, Option, none, some, List,
  [], ◌∷◌, ◌++◌, length, lookup, insert, put, sort, contains, ◌∈◌, ◌⊆◌, arith,
}
use linux_analysis.Llvm.{Value, function_instructions}
use linux_analysis.State.{Config, State, initial_state}
use linux_analysis.Level.{get_level, ensure_level_set}
use linux_analysis.Provenance.{get_pointer_parameter_origin, extract_struct_field_indices}
use linux_analysis.Stores.{mark_pointer}
use linux_analysis.Loads.{scan_loads_from_tainted_pointers}
use linux_analysis.Downward.{downward}
use linux_analysis.Downward.Entries.{HasEntry}
use linux_analysis.FunctionPointers.{function_pointer_targets}
use linux_analysis.Seeds.{seeds}
use linux_analysis.Search.{search}
use linux_analysis.Upward.{upward, iteration, settle, taint_passed_pointers, taint_returning_calls}
use linux_analysis.Upward.Fixed.{iteration-settle}
use linux_analysis.Downward.Progress.{potential}
use linux_analysis.Run.{run}
use linux_analysis.Run.Flows.{IsSaturated, run-IsSaturated, run-KeepsLevels}
use linux_analysis.Run.Ends.{run_total}
use linux_analysis.Report.{Report, report}
use linux_analysis.Report.Levels.{max_level, visited_functions}
use linux_analysis.Report.Levels.Laws.{max_level_lem}
use linux_analysis.Report.Spans.{at_level, range_of, count_range}
use linux_analysis.Report.Spans.Laws.{NoneAt, range_lem}
use linux_analysis.Report.Counts.{report_functions}
use linux_analysis.Tests.Sample.{sample, sample_config, sample-IsModule}

abbrev tainted_by : Option State → List Value
tainted_by none = []
tainted_by (some t) = t.tainted_values

-- The tainted value is returned by `g` to `f`, stored by `f` through its parameter, and returned.
found : tainted_by (run sample sample_config) ≡ 51 ∷ 24 ∷ 50 ∷ 23 ∷ 22 ∷ 21 ∷ []
unfolding run search upward function_pointer_targets seeds downward sort
    scan_loads_from_tainted_pointers lookup ensure_level_set insert put get_pointer_parameter_origin
    get_level mark_pointer
found = refl

-- The analysis of `g` alone, which returns to `f`.
abbrev upward_config : Config
upward_config = record sample_config { function_name = sample.function_name 2 }

-- The downward search ends in `g`.
abbrev searched : State
searched = record initial_state {
  tainted_values = 51 ∷ [];
  functions_returning_taint = 2 ∷ [];
  value_level = (51, pos 0) ∷ [];
  function_level = (2, pos 0) ∷ [];
}

search-upward : search sample upward_config ≡ some searched
unfolding search function_pointer_targets seeds downward sort scan_loads_from_tainted_pointers
    lookup ensure_level_set insert put get_pointer_parameter_origin get_level mark_pointer
search-upward = refl

run-IsSaturated_example :
    (t : State) × (run sample upward_config ≡ some t) × IsSaturated sample searched t
run-IsSaturated_example =
    run-IsSaturated sample sample-IsModule upward_config searched search-upward refl

run_total_example :
    (t : State) × (run sample sample_config ≡ some t)
    × ((seeds sample sample_config).state.tainted_values ⊆ t.tainted_values)
run_total_example = run_total sample sample-IsModule sample_config

-- Four instructions of `f` are tainted at level 1, and one of `g` at level 0.
abbrev reported_state : State
reported_state = record initial_state {
  tainted_values = 51 ∷ 24 ∷ 23 ∷ 22 ∷ 21 ∷ [];
  value_level = (21, pos 1) ∷ (22, pos 1) ∷ (23, pos 1) ∷ (24, pos 1) ∷ (51, pos 0) ∷ [];
}

max_level_lem_example :
    ((m : ℤ)
      → max_level reported_state ≡ some m
      → ((v : Value) × HasEntry v m reported_state.value_level
          × (v ∈ reported_state.tainted_values))
        × ((v : Value) (l : ℤ)
            → HasEntry v l reported_state.value_level
            → v ∈ reported_state.tainted_values
            → l ≤ℤ m))
    × (max_level reported_state ≡ none
        → (v : Value) (l : ℤ) → HasEntry v l reported_state.value_level
        → contains v reported_state.tainted_values ≡ false)
max_level_lem_example = max_level_lem reported_state

in_f : range_of sample reported_state (pos 1) 1 ≡ some (21, 24)
unfolding range_of lookup
in_f = refl

range_lem_example :
    (xs : List Value) × (rest : List Value) × (pre : List Value) × (ys : List Value)
    × (function_instructions sample 1 ≡ xs ++ 21 ∷ rest)
    × (function_instructions sample 1 ≡ pre ++ 24 ∷ ys)
    × NoneAt reported_state (pos 1) xs
    × (at_level reported_state (pos 1) 21 ≡ true)
    × NoneAt reported_state (pos 1) ys
    × (at_level reported_state (pos 1) 24 ≡ true)
    × (length xs ≤ length pre)
    × (count_range 21 24 false 0 (function_instructions sample 1)
        ≡ (length pre + 1 - length xs) % 4294967296)
range_lem_example = range_lem sample reported_state (pos 1) 1 21 24 refl in_f

abbrev sample_report : Report
sample_report = record {
  level = pos 1;
  instructions = 4;
  arguments = 0;
  total_values = none;
  breakdown = [];
  earliest_latest = (1, (21, 24)) ∷ [];
  max_count = 4;
  other_count = 2;
  total_count = 6;
  max_functions = 1;
  other_functions = 1;
  spans = (1, record { start_bb = 0; start_inst = 1; end_bb = 0; end_inst = 4 }) ∷ [];
  full_spans = 2 ∷ [];
}

reported_fully : report sample reported_state ≡ some sample_report
unfolding report lookup insert put
reported_fully = refl

two_visited : length (visited_functions sample reported_state) < 4294967296
unfolding visited_functions insert
two_visited = omega arith

report_functions_example :
    sample_report.max_functions + sample_report.other_functions
    ≡ length (visited_functions sample reported_state)
report_functions_example =
    report_functions sample reported_state sample_report refl two_visited reported_fully

no_work : searched.worklist ⊆ sample.values
no_work = λ x m. cc

enough_work : potential sample.values searched ≤ 20
unfolding missing
enough_work = omega arith

enough_rounds : missing (sample.values ++ searched.tainted_pointers) [] < 40
unfolding missing
enough_rounds = omega arith

iteration-settle_example :
    iteration sample 20 40 [] searched
    ≡ settle sample 20 40 [] (taint_passed_pointers sample (taint_returning_calls sample searched))
iteration-settle_example =
    iteration-settle sample sample-IsModule 20 40 [] searched no_work enough_work enough_rounds

-- The analysis of `g` ends with the call of `g`, the store of its result and the return of it.
abbrev ended : State
ended = record initial_state {
  tainted_values = 26 ∷ 25 ∷ 24 ∷ 51 ∷ [];
  tainted_pointers = 40 ∷ [];
  functions_returning_taint = 1 ∷ 2 ∷ [];
  pointer_taint_origin = (40, 25) ∷ [];
  value_level = (51, pos 0) ∷ (24, pos 1) ∷ (25, pos 1) ∷ (26, pos 1) ∷ [];
  function_level = (2, pos 0) ∷ (1, pos 1) ∷ [];
  functions_tainting_pointer_params = (1, 0 ∷ []) ∷ [];
}

run-upward : run sample upward_config ≡ some ended
unfolding run search upward function_pointer_targets seeds downward sort
    scan_loads_from_tainted_pointers lookup ensure_level_set insert put get_pointer_parameter_origin
    get_level mark_pointer extract_struct_field_indices
run-upward = refl

run-KeepsLevels_example : lookup 51 ended.value_level ≡ some (pos 0)
unfolding lookup
run-KeepsLevels_example =
    run-KeepsLevels sample sample-IsModule upward_config searched ended search-upward run-upward 51
      (pos 0) refl refl
