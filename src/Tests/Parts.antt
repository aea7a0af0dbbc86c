-- ===== src/Tests/Parts.antt =====
-- Theorems about single helpers of the pass, at concrete inputs.
use linux_analysis.Prelude.{
  ◌≡◌, ◌↔◌, ◌∈◌, pos, refl, true, false, some, none, List, [], ◌∷◌, ◌++◌, take, lookup, flat_map,
  if◌then◌else◌,
}
use linux_analysis.Llvm.{Ir, Value, Text, Gep, Store, defined_instructions}
use linux_analysis.State.{State, initial_state}
use linux_analysis.Level.{get_level, ensure_level_set}
use linux_analysis.Level.Laws.{get_level-ensure_level_set}
use linux_analysis.Provenance.{get_pointer_parameter_origin}
use linux_analysis.Stores.{process_store_for_taint}
use linux_analysis.Stores.Settled.{process_store_for_taint-settles}
use linux_analysis.Loads.{is_load_before_taint_origin}
use linux_analysis.Loads.Order.{is_load_before_taint_origin_iff}
use linux_analysis.Gep.{same_gep_pattern}
use linux_analysis.Gep.Pattern.{pattern_of, same_gep_pattern_iff}
use linux_analysis.Names.{
  find, debug_marker, strip_debug, valid_loc, location_text, unknown_text, approx_text,
  get_debug_loc,
}
use linux_analysis.Names.Laws.{strip_debug-comma, first_valid, behind, get_debug_loc_lem}
use linux_analysis.FunctionPointers.{function_pointer_targets}
use linux_analysis.FunctionPointers.Laws.{targets_of, stored_function, function_pointer_targets_lem}
use linux_analysis.Tests.Sample.{sample, sample_config}

abbrev field : Gep
field = record { base = 40; element_type = 7; indices = 30 ∷ 23 ∷ [] }

abbrev other_field : Gep
other_field = record { base = 20; element_type = 7; indices = 30 ∷ 24 ∷ [] }

fields_match : same_gep_pattern sample field other_field ≡ true
unfolding same_gep_pattern
fields_match = refl

same_gep_pattern_iff_example : (same_gep_pattern sample field other_field ≡ true) ↔ (
    (field.element_type ≡ other_field.element_type)
    × (pattern_of sample field.indices ≡ pattern_of sample other_field.indices))
same_gep_pattern_iff_example = same_gep_pattern_iff sample field other_field

-- "ret i32 8, !dbg !7"
abbrev ret_text : Text
ret_text = b'r' ∷ b'e' ∷ b't' ∷ b' ' ∷ b'8' ∷ []

strip_debug-comma_example :
    strip_debug (ret_text ++ b',' ∷ (debug_marker ++ b'7' ∷ [])) ≡ ret_text ++ b',' ∷ []
unfolding find
strip_debug-comma_example = strip_debug-comma ret_text (b'7' ∷ []) refl refl

-- Every instruction has a location, and none has a line.
abbrev located : Ir
located = record sample {
  debug_loc = λ v. some (record { filename = b'a' ∷ []; line = 0; column = v });
}

get_debug_loc_lem_example :
    get_debug_loc (λ n. n ∷ []) located sample_config 21 ≡ elim (valid_loc located 21) [
      | some l ↦ location_text (λ n. n ∷ []) l
      | none ↦
          if sample_config.approx_debug_info
          then elim (first_valid located
              (take 10 (behind 21 (located.instructions (located.block_of 21))))) [
                | some l ↦ location_text (λ n. n ∷ []) l ++ approx_text (λ n. n ∷ [])
                | none ↦ unknown_text (λ n. n ∷ [])
              ]
          else unknown_text (λ n. n ∷ [])
    ]
get_debug_loc_lem_example = get_debug_loc_lem (λ n. n ∷ []) located sample_config 21

function_pointer_targets_lem_example :
    targets_of 20
      (function_pointer_targets sample (record sample_config { indirect_call_mode = true }))
    ≡ flat_map (stored_function sample 20) (defined_instructions sample)
function_pointer_targets_lem_example =
    function_pointer_targets_lem sample (record sample_config { indirect_call_mode = true }) 20

-- The load 22 at the pointer 20, which the later store 25 tainted.
abbrev tainted_late : State
tainted_late = record initial_state {
  tainted_pointers = 20 ∷ [];
  pointer_taint_origin = (20, 25) ∷ [];
  function_level = (1, pos 0) ∷ [];
}

load_before : is_load_before_taint_origin sample tainted_late 22 20 ≡ true
unfolding is_load_before_taint_origin lookup
load_before = refl

is_load_before_taint_origin_iff_example :
    (is_load_before_taint_origin sample tainted_late 22 20 ≡ true) ↔ (
      (origin : Value) × (lookup 20 tainted_late.pointer_taint_origin ≡ some origin)
      × (sample.block_of 22 ≡ sample.block_of origin)
      × ((xs : List Value) × (ys : List Value) × (sample.instructions (sample.block_of 22)
            ≡ xs ++ origin ∷ ys)
          × (22 ∈ xs ++ origin ∷ [])))
is_load_before_taint_origin_iff_example = is_load_before_taint_origin_iff sample tainted_late 22 20

get_level-ensure_level_set_example :
    get_level sample (ensure_level_set sample 22 tainted_late) 22 ≡ get_level sample tainted_late 22
get_level-ensure_level_set_example = get_level-ensure_level_set sample tainted_late 22 22 refl

-- The store 25 of the value 24 through the pointer parameter 40.
abbrev through_parameter : Store
through_parameter = record { value = 24; pointer = 40 }

discovered_once : (process_store_for_taint sample 25 through_parameter 24 initial_state).1 ≡ true
unfolding process_store_for_taint get_pointer_parameter_origin lookup
discovered_once = refl

process_store_for_taint-settles_example :
    (process_store_for_taint sample 25 through_parameter 24
      (process_store_for_taint sample 25 through_parameter 24 initial_state).0).1
    ≡ false
process_store_for_taint-settles_example =
    process_store_for_taint-settles sample 25 through_parameter 24 initial_state
