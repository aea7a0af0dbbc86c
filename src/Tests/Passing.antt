-- ===== src/Tests/Passing.antt =====
-- A module in which a parameter that is tainted is passed a parameter, a local variable and a
-- global, and the analysis there:
--   define main() { %60 = alloca; %61 = call mid(%60); %62 = load %60; %63 = call set(@95); ret }
--   define mid(ptr %70) { %71 = call set(%70); ret %71 }
--   define set(ptr %80) { %81 = add 8, 8; store %81, %80; ret %81 }
use linux_analysis.Prelude.{
  pos, ◌≡◌, refl, true, false, ◌||◌, ltb, none, some, List, [], ◌∷◌, Map, ◌==◌, Bool-cases, inl,
  inr, arith, lookup, insert, put, sort,
}
use linux_analysis.Llvm.{
  Ir, Value, Kind, IsModule, store_inst, load_inst, call_inst, return_inst, alloca_inst, argument,
  constant_int, other_inst, global_variable, function_value,
}
use linux_analysis.State.{Config, State, initial_state}
use linux_analysis.Level.{get_level, ensure_level_set}
use linux_analysis.Provenance.{get_pointer_parameter_origin, extract_struct_field_indices}
use linux_analysis.Stores.{mark_pointer}
use linux_analysis.Loads.{scan_loads_from_tainted_pointers}
use linux_analysis.Downward.{downward}
use linux_analysis.FunctionPointers.{function_pointer_targets}
use linux_analysis.Seeds.{seeds}
use linux_analysis.Search.{search}
use linux_analysis.Upward.{upward}
use linux_analysis.Upward.Closed.{IsClosed}
use linux_analysis.Run.{run}
use linux_analysis.Run.Ends.{run-IsClosed}
use linux_analysis.Tests.Sample.{row, row-subset, entry, entry-subset, sample_config}

abbrev passing_kinds : Map Kind
passing_kinds =
    (2, function_value)
    ∷ (3, function_value)
    ∷ (60, alloca_inst false)
    ∷ (61, call_inst (some 2) 2 (60 ∷ []))
    ∷ (62, load_inst 60)
    ∷ (63, call_inst (some 3) 3 (95 ∷ []))
    ∷ (64, return_inst none)
    ∷ (70, argument 0)
    ∷ (71, call_inst (some 3) 3 (70 ∷ []))
    ∷ (72, return_inst (some 71))
    ∷ (80, argument 0)
    ∷ (81, other_inst)
    ∷ (82, store_inst 81 80)
    ∷ (83, return_inst (some 81))
    ∷ (90, constant_int (pos 8))
    ∷ (95, global_variable)
    ∷ []

abbrev passing_users : Map (List Value)
passing_users =
    (2, 61 ∷ [])
    ∷ (3, 63 ∷ 71 ∷ [])
    ∷ (60, 61 ∷ 62 ∷ [])
    ∷ (70, 71 ∷ [])
    ∷ (71, 72 ∷ [])
    ∷ (80, 82 ∷ [])
    ∷ (81, 82 ∷ 83 ∷ [])
    ∷ (90, 81 ∷ [])
    ∷ (95, 63 ∷ [])
    ∷ []

abbrev passing_operands : Map (List Value)
passing_operands =
    (61, 60 ∷ 2 ∷ [])
    ∷ (62, 60 ∷ [])
    ∷ (63, 95 ∷ 3 ∷ [])
    ∷ (71, 70 ∷ 3 ∷ [])
    ∷ (72, 71 ∷ [])
    ∷ (81, 90 ∷ 90 ∷ [])
    ∷ (82, 81 ∷ 80 ∷ [])
    ∷ (83, 81 ∷ [])
    ∷ []

abbrev passing_values : List Value
passing_values = 2 ∷ 3 ∷ 60 ∷ 61 ∷ 62 ∷ 63 ∷ 64 ∷ 70 ∷ 71 ∷ 72 ∷ 80 ∷ 81 ∷ 82 ∷ 83 ∷ 90 ∷ 95 ∷ []

abbrev passing_params : Map (List Value)
passing_params = (2, 70 ∷ []) ∷ (3, 80 ∷ []) ∷ []

abbrev passing_instructions : Map (List Value)
passing_instructions =
    (10, 60 ∷ 61 ∷ 62 ∷ 63 ∷ 64 ∷ []) ∷ (11, 71 ∷ 72 ∷ []) ∷ (12, 81 ∷ 82 ∷ 83 ∷ []) ∷ []

-- Function 1 is `main` with block 10, 2 is `mid` with block 11, and 3 is `set` with block 12.
abbrev passing : Ir
passing = record {
  values = passing_values;
  kind = entry passing_kinds;
  printed = λ v. [];
  opcode_name = λ v. [];
  operands = row passing_operands;
  users = row passing_users;
  strip_pointer_casts = λ v. v;
  is_pointer_ty = λ v. v == 60 || v == 70 || v == 80 || v == 95;
  function_of =
      λ v. some (elim (ltb v 70) [ true ↦ 1 | false ↦ elim (ltb v 80) [ true ↦ 2 | false ↦ 3 ] ]);
  block_of =
      λ v. elim (ltb v 70) [ true ↦ 10 | false ↦ elim (ltb v 80) [ true ↦ 11 | false ↦ 12 ] ];
  debug_loc = λ v. none;
  functions = 1 ∷ 2 ∷ 3 ∷ [];
  function_name = λ f. f ∷ [];
  name_before = ltb;
  is_declaration = λ f. false;
  params = row passing_params;
  blocks = row ((1, 10 ∷ []) ∷ (2, 11 ∷ []) ∷ (3, 12 ∷ []) ∷ []);
  instructions = row passing_instructions;
}

passing-IsModule : IsModule passing
passing-IsModule = record {
  strip_idem = λ v. refl;
  strip_mem = λ v m. m;
  users_mem = λ v _. row-subset passing_users passing_values refl v;
  referred_mem = λ v _. entry-subset passing_kinds passing_values refl v;
  params_mem = row-subset passing_params passing_values refl;
  instructions_mem = row-subset passing_instructions passing_values refl;
  function_mem = λ v f e. elim (Bool-cases (ltb v 70)) [
    | inl low ↦ ground arith
    | inr high ↦ elim (Bool-cases (ltb v 80)) [
      | inl middle ↦ ground arith
      | inr high' ↦ ground arith
    ]
  ];
}

-- The analysis of `set` alone.
abbrev set_config : Config
set_config = record sample_config { function_name = 3 ∷ [] }

-- The calls are tainted, parameter 0 of `mid` is found by the call in it, and the local variable of
-- `main` is a tainted pointer; the global is not.
abbrev passing_end : State
passing_end = record initial_state {
  tainted_values = 62 ∷ 61 ∷ 72 ∷ 71 ∷ 63 ∷ 81 ∷ [];
  tainted_pointers = 60 ∷ [];
  functions_returning_taint = 2 ∷ 3 ∷ [];
  pointer_taint_origin = (60, 61) ∷ [];
  value_level =
      (81, pos 0) ∷ (63, pos 1) ∷ (71, pos 1) ∷ (72, pos 1) ∷ (61, pos 2) ∷ (62, pos 1) ∷ [];
  function_level = (3, pos 0) ∷ (1, pos 1) ∷ (2, pos 1) ∷ [];
  functions_tainting_pointer_params = (3, 0 ∷ []) ∷ (2, 0 ∷ []) ∷ [];
}

run-passing : run passing set_config ≡ some passing_end
unfolding run search upward function_pointer_targets seeds downward sort
    scan_loads_from_tainted_pointers lookup ensure_level_set insert put get_pointer_parameter_origin
    get_level mark_pointer extract_struct_field_indices
run-passing = refl

run-IsClosed_example :
    (t : State) × (run passing set_config ≡ some t) × (t.worklist ≡ []) × IsClosed passing t
run-IsClosed_example = run-IsClosed passing passing-IsModule set_config refl
