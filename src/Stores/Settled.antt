-- ===== src/Stores/Settled.antt =====
-- A second call of `processStoreForTaint` (passes/TaintTrackerPass/TaintTrackerPass.cpp).
use linux_analysis.Prelude.{
  ℕ, ℤ, ◌≡◌, ◌∙◌, ap, refl, inl, inr, false, List, lookup, lookup-put, contains, insert,
  contains-insert, ◌==◌, ==_refl, Bool-cases, Option-cases,
}
use linux_analysis.Llvm.{Ir, Value, Function, Store, arg_no}
use linux_analysis.State.{State}
use linux_analysis.Provenance.{get_pointer_parameter_origin, is_empty, extract_struct_field_indices}
use linux_analysis.Stores.{
  mark_pointer, taint_param, record_fields, process_store_for_taint, or_nothing,
}

mark_pointer-params :
    (p inst : Value) (s : State)
    → (mark_pointer p inst s).functions_tainting_pointer_params
      ≡ s.functions_tainting_pointer_params
unfolding mark_pointer
mark_pointer-params p inst s = elim (Bool-cases (contains p s.tainted_pointers)) [
  | inl old ↦ rw old refl
  | inr new ↦ rw new refl
]

record_fields-params :
    (f : Function) (i : ℕ) (fields : List ℤ) (s : State)
    → (record_fields f i fields s).functions_tainting_pointer_params
      ≡ s.functions_tainting_pointer_params
unfolding record_fields
record_fields-params f i fields s = elim (Bool-cases (is_empty fields)) [
  | inl e ↦ rw e refl
  | inr e ↦ rw e refl
]

known_again :
    (f : Function) (i : ℕ) (fields : List ℤ) (p inst : Value) (s : State)
    → (taint_param f i (mark_pointer p inst (record_fields f i fields (taint_param f i s).0))).1
      ≡ false
unfolding taint_param
known_again f i fields p inst s =
    let after = record_fields f i fields (taint_param f i s).0 in
    rw
      (
        mark_pointer-params p inst after,
        record_fields-params f i fields (taint_param f i s).0,
        lookup-put f f (insert i (or_nothing (lookup f s.functions_tainting_pointer_params)))
            s.functions_tainting_pointer_params,
        ==_refl f,
        contains-insert i i (or_nothing (lookup f s.functions_tainting_pointer_params)),
        ==_refl i,
      )
      refl

-- Whatever the state, a second call for the same store and value discovers nothing.
pub process_store_for_taint-settles :
    (ir : Ir) (inst : Value) (st : Store) (v : Value) (s : State)
    → (process_store_for_taint ir inst st v (process_store_for_taint ir inst st v s).0).1 ≡ false
unfolding process_store_for_taint
process_store_for_taint-settles ir inst st v s = elim (Bool-cases (st.value == v)) [
  | inr other ↦ rw other refl
  | inl same ↦ elim (Option-cases (get_pointer_parameter_origin ir st.pointer)) [
    | inl free ↦ rw (same, free, process_store_for_taint) refl
    | inr (a, origin) ↦ elim (Option-cases (ir.function_of inst)) [
      | inl outside ↦ rw (same, origin, outside, process_store_for_taint) refl
      | inr (f, within) ↦
          let i = arg_no (ir.kind a) in
          let p = ir.strip_pointer_casts st.pointer in
          let fields = extract_struct_field_indices ir st.pointer in
          let first : (process_store_for_taint ir inst st v s).0
              ≡ record_fields f i fields (taint_param f i (mark_pointer p inst s)).0 =
            rw (same, origin, within, process_store_for_taint) refl in
          let second : (t : State)
              → (process_store_for_taint ir inst st v t).1
                ≡ (taint_param f i (mark_pointer p inst t)).1 =
            λ t. rw (same, origin, within, process_store_for_taint) refl in
          second (process_store_for_taint ir inst st v s).0
          ∙ (ap (λ t. (taint_param f i (mark_pointer p inst t)).1) first
              ∙ known_again f i fields p inst (mark_pointer p inst s))
    ]
  ]
]
