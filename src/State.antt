-- ===== src/State.antt =====
-- The containers that `run` declares (passes/TaintTrackerPass/TaintTrackerPass.cpp). A
-- `DenseSet` is a list without repetition, a `DenseMap` an association list, the worklist a
-- stack with its top first.
use linux_analysis.Prelude.{ℕ, ℤ, Bool, false, List, [], Map}
use linux_analysis.Llvm.{Value, Function, Text}

pub record Config : Type 0 where
  pub function_name : Text
  pub target_opcode : Text
  pub constant_to_track : ℤ
  pub verbose : Bool
  pub interproc_mode : Bool
  pub indirect_call_mode : Bool
  pub upward_interproc_mode : Bool
  pub occurrence_index : ℕ
  pub approx_debug_info : Bool

-- `FunctionPointerTargets` is filled before the search and only read by it, so it is not here.
-- `changed` is the local flag of the downward loop.
pub record State : Type 0 where
  pub worklist : List Value
  pub tainted_values : List Value
  pub tainted_pointers : List Value
  pub killed_stores : List Value
  pub functions_returning_taint : List Function
  pub pointer_taint_origin : Map Value
  pub value_level : Map ℤ
  pub function_level : Map ℤ
  pub functions_tainting_pointer_params : Map (List ℕ)
  pub function_param_field_access : Map (Map (List ℤ))
  pub changed : Bool

abbrev pub initial_state : State
initial_state = record {
  worklist = [];
  tainted_values = [];
  tainted_pointers = [];
  killed_stores = [];
  functions_returning_taint = [];
  pointer_taint_origin = [];
  value_level = [];
  function_level = [];
  functions_tainting_pointer_params = [];
  function_param_field_access = [];
  changed = false;
}
