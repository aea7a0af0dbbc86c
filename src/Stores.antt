-- ===== src/Stores.antt =====
-- What a tainted store records: `processStoreForTaint`
-- (passes/TaintTrackerPass/TaintTrackerPass.cpp) and the parts that it shares with `run`.
pub mod Settled
use linux_analysis.Prelude.{
  ℕ, ℤ, Bool, false, not, Option, none, some, List, [], ◌∷◌, ◌++◌, lookup, put, contains, insert,
  eq_ℤ, ◌||◌, ◌==◌, if◌then◌else◌,
}
use linux_analysis.Llvm.{Ir, Value, Function, Store, arg_no}
use linux_analysis.State.{State}
use linux_analysis.Provenance.{extract_struct_field_indices, get_pointer_parameter_origin, is_empty}

-- `if (TaintedPointers.insert(Ptr).second) PointerTaintOrigin[Ptr] = Inst;`
unfoldable pub mark_pointer : Value → Value → State → State
mark_pointer ptr inst s = if contains ptr s.tainted_pointers then s else record s {
  tainted_pointers = insert ptr s.tainted_pointers;
  pointer_taint_origin = put ptr inst s.pointer_taint_origin;
}

abbrev pub or_nothing {ℓ} : {A : Type ℓ} → Option (List A) → List A
or_nothing none = []
or_nothing (some xs) = xs

-- `FunctionsTaintingPointerParams[F].insert(ParamIdx)`, and whether the index is new.
unfoldable pub taint_param : Function → ℕ → State → State × Bool
taint_param f i s =
    let old = or_nothing (lookup f s.functions_tainting_pointer_params) in
    (
      record s {
        functions_tainting_pointer_params =
            put f (insert i old) s.functions_tainting_pointer_params;
      },
      not (contains i old),
    )

unfoldable pub has_field : ℤ → List ℤ → Bool
has_field i [] = false
has_field i (j ∷ js) = eq_ℤ i j || has_field i js

-- The indices that are not there yet are appended in order.
unfoldable pub add_fields : List ℤ → List ℤ → List ℤ
unfolding has_field
add_fields old [] = old
add_fields old (i ∷ is) = add_fields (if has_field i old then old else old ++ i ∷ []) is

unfoldable pub record_fields : Function → ℕ → List ℤ → State → State
unfolding add_fields
record_fields f i fields s =
    if is_empty fields
    then s
    else (let func_map = or_nothing (lookup f s.function_param_field_access) in
        let existing = or_nothing (lookup i func_map) in
        record s {
          function_param_field_access =
              put f (put i (add_fields existing fields) func_map) s.function_param_field_access;
        })

-- The new state, and whether a function that taints a parameter was discovered.
unfoldable pub process_store_for_taint : Ir → Value → Store → Value → State → State × Bool
unfolding mark_pointer taint_param record_fields
process_store_for_taint ir inst st v s =
    if not (st.value == v)
    then (s, false)
    else (let s1 = mark_pointer (ir.strip_pointer_casts st.pointer) inst s in
        elim (get_pointer_parameter_origin ir st.pointer) [
          | none ↦ (s1, false)
          | some a ↦ elim (ir.function_of inst) [
            | none ↦ (s1, false)
            | some f ↦
                let i = arg_no (ir.kind a) in
                let (s2, discovered) = taint_param f i s1 in
                (record_fields f i (extract_struct_field_indices ir st.pointer) s2, discovered)
          ]
        ])
