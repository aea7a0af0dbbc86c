-- ===== src/FunctionPointers.antt =====
-- `FunctionPointerTargets` as `run` fills it before the search
-- (passes/TaintTrackerPass/TaintTrackerPass.cpp): the functions that are stored through each pointer.
pub mod Laws
use linux_analysis.Prelude.{
  ℕ, Bool, true, false, not, ◌&&◌, ◌||◌, Option, none, some, List, [], ◌∷◌, ◌++◌, foldl, Map,
  lookup, put, ◌==◌, if◌then◌else◌,
}
use linux_analysis.Llvm.{Ir, Value, Function, Kind, function_value, as_store, defined_instructions}
use linux_analysis.State.{Config}
use linux_analysis.Stores.{or_nothing}

-- `dyn_cast<Function>`; a function is its own address as a value.
abbrev pub is_function : Kind → Bool
is_function function_value = true
is_function _ = false

-- `FunctionPointerTargets[Ptr].push_back(Func)`.
unfoldable pub push_target : Value → Function → Map (List Function) → Map (List Function)
push_target ptr f m = put ptr (or_nothing (lookup ptr m) ++ f ∷ []) m

module _ (ir : Ir) where
  -- A stored function is filed under the pointer without casts, and under the pointer as written
  -- where that differs.
  unfoldable pub file_store : Map (List Function) → Value → Map (List Function)
  unfolding push_target
  file_store m i = elim (as_store (ir.kind i)) [
    | none ↦ m
    | some st ↦
        let stripped = ir.strip_pointer_casts st.pointer in
        let m' = push_target stripped st.value m in
        if is_function (ir.kind st.value)
        then (if not (st.pointer == stripped) then push_target st.pointer st.value m' else m')
        else m
  ]

  unfoldable pub function_pointer_targets : Config → Map (List Function)
  unfolding file_store
  function_pointer_targets cfg =
      if cfg.indirect_call_mode then foldl file_store [] (defined_instructions ir) else []
