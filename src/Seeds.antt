-- ===== src/Seeds.antt =====
-- Seeding the worklist in `run` (passes/TaintTrackerPass/TaintTrackerPass.cpp): the instructions
-- of the named function that have the tracked constant as an operand.
pub mod Start
pub mod Occurrences
use linux_analysis.Prelude.{
  ℕ, zero, suc, ◌+◌, pos, Bool, true, false, not, ◌&&◌, Option, none, some, List, [], ◌∷◌, foldl,
  put, contains, insert, eq_ℤ, ◌==◌, if◌then◌else◌,
}
use linux_analysis.Llvm.{
  Ir, Value, Function, Kind, Text, store_inst, call_inst, return_inst, as_constant_int, is_global,
  arg_no, function_instructions,
}
use linux_analysis.State.{Config, State, initial_state}
use linux_analysis.Provenance.{extract_struct_field_indices, get_pointer_parameter_origin}
use linux_analysis.Stores.{mark_pointer, taint_param, record_fields}
use linux_analysis.Downward.{taint_parameter}

unfoldable pub text_eq : Text → Text → Bool
text_eq [] [] = true
text_eq [] (d ∷ t) = false
text_eq (c ∷ s) [] = false
text_eq (c ∷ s) (d ∷ t) = c == d && text_eq s t

-- The seeding loops: the state, `currentOccurrence`, and whether `goto found` was taken.
pub record Seeding : Type 0 where
  pub state : State
  pub occurrence : ℕ
  pub found : Bool

module _ (ir : Ir) (cfg : Config) where
  -- The constant is returned.
  seed_return : Value → Value → Option Value → State → State
  seed_return i constant none s = s
  seed_return i constant (some r) s =
      if r == constant
      then elim (ir.function_of i) [
        | none ↦ s
        | some f ↦ record s { functions_returning_taint = insert f s.functions_returning_taint }
      ]
      else s

  -- A store: to a global, through a pointer parameter, or to a local variable.
  seed_store : Value → Value → State → State
  seed_store i pointer s =
      let ptr = ir.strip_pointer_casts pointer in
      if is_global (ir.kind ptr) then s else elim (get_pointer_parameter_origin ir pointer) [
        | some a ↦ elim (ir.function_of i) [
          | none ↦ s
          | some f ↦
              let n = arg_no (ir.kind a) in
              record_fields f n (extract_struct_field_indices ir pointer) (taint_param f n s).0
        ]
        | none ↦ mark_pointer ptr i s
      ]

  -- The arguments of a direct call from position `n` on. `changed`, which `taint_parameter`
  -- sets, is declared only behind the seeding and reset before it is read.
  seed_arguments : Value → Value → Function → ℕ → List Value → State → State
  seed_arguments i constant callee n [] s = s
  seed_arguments i constant callee n (a ∷ as') s = seed_arguments i constant callee (n + 1) as' (
      if a == constant && cfg.interproc_mode && not (ir.is_declaration callee)
      then taint_parameter ir i n s callee
      else s)

  seed_effect : Value → Value → Kind → State → State
  unfolding seed_return seed_store seed_arguments
  seed_effect i constant (return_inst r) s = seed_return i constant r s
  seed_effect i constant (store_inst v p) s = seed_store i p s
  seed_effect i constant (call_inst (some f) operand args) s = seed_arguments i constant f 0 args s
  seed_effect i constant _ s = s

  -- The instruction is new in `TaintedValues`: it is pushed, at level 0.
  unfoldable pub seed_source : Value → State → State
  seed_source i s = record s {
    tainted_values = insert i s.tainted_values;
    worklist = i ∷ s.worklist;
    function_level = elim (ir.function_of i) [
      | none ↦ s.function_level
      | some f ↦ put f (pos 0) s.function_level
    ];
    value_level = put i (pos 0) s.value_level;
  }

  unfoldable pub taint_source : Value → Value → State → State
  unfolding seed_effect seed_source
  taint_source i constant s =
      if contains i s.tainted_values
      then s
      else seed_effect i constant (ir.kind i) (seed_source i s)

  -- One operand that is the tracked constant: count it, and taint the instruction if it is the
  -- wanted occurrence, or if all are wanted.
  unfoldable pub seed_constant : Value → Value → Seeding → Seeding
  unfolding taint_source
  seed_constant i op a =
      let n = a.occurrence + 1 in
      if not (cfg.occurrence_index == 0) && not (n == cfg.occurrence_index)
      then record a { occurrence = n }
      else record {
        state = taint_source i op a.state;
        occurrence = n;
        found = not (cfg.occurrence_index == 0);
      }

  unfoldable pub seed_operand : Value → Seeding → Value → Seeding
  unfolding seed_constant
  seed_operand i a op = if a.found then a else elim (as_constant_int (ir.kind op)) [
    | none ↦ a
    | some c ↦ if eq_ℤ c cfg.constant_to_track then seed_constant i op a else a
  ]

  -- An empty target opcode stands for all.
  abbrev pub opcode_matches : Value → Bool
  opcode_matches i = elim cfg.target_opcode [
    | [] ↦ true
    | _ ∷ _ ↦ text_eq (ir.opcode_name i) cfg.target_opcode
  ]

  unfoldable pub seed_instruction : Seeding → Value → Seeding
  unfolding seed_operand text_eq
  seed_instruction a i = if opcode_matches i then foldl (seed_operand i) a (ir.operands i) else a

  unfoldable pub seed_function : Seeding → Function → Seeding
  unfolding seed_instruction
  seed_function a f =
      if text_eq (ir.function_name f) cfg.function_name
      then foldl seed_instruction a (function_instructions ir f)
      else a

  abbrev pub no_seeds : Seeding
  no_seeds = record { state = initial_state; occurrence = 0; found = false }

  unfoldable pub seeds : Seeding
  unfolding seed_function
  seeds = foldl seed_function no_seeds ir.functions
