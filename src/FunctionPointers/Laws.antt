-- ===== src/FunctionPointers/Laws.antt =====
-- Which targets a pointer has.
use linux_analysis.Prelude.{
  ◌≡◌, sym, ap, ◌∙◌, inl, inr, Bool, true, false, not, ◌&&◌, ◌||◌, none, some, List, [], ◌∷◌, ◌++◌,
  foldl, flat_map, Map, lookup, lookup-put, ◌==◌, ==_refl, Bool-cases, Option-cases, if◌then◌else◌,
  arith,
}
use mathlib.Core.List.{append-nil, append_assoc}
use linux_analysis.Llvm.{Ir, Value, Function, Store, as_store, defined_instructions}
use linux_analysis.State.{Config}
use linux_analysis.Stores.{or_nothing}
use linux_analysis.FunctionPointers.{is_function, push_target, file_store, function_pointer_targets}

abbrev pub targets_of : Value → Map (List Function) → List Function
targets_of p m = or_nothing (lookup p m)

targets_of-push :
    (p k : Value) (f : Function) (m : Map (List Function))
    → targets_of p (push_target k f m) ≡ (targets_of p m ++ (if p == k then f ∷ [] else []))
unfolding push_target
targets_of-push p k f m = rw lookup-put (elim (Bool-cases (p == k)) [
  | inl e ↦ let q : p ≡ k = ground arith in rw (q, ==_refl k)
  | inr e ↦ rw e (sym (append-nil _))
])

file_twice :
    (p q k : Value) (f : Function) (m : Map (List Function))
    → targets_of p (if not (q == k) then push_target q f (push_target k f m) else push_target k f m)
      ≡ (targets_of p m ++ (if p == k || p == q then f ∷ [] else []))
file_twice p q k f m = elim (Bool-cases (q == k)) [
  | inl same ↦
      rw same
        (targets_of-push p k f m ∙ (let e : (p == k || p == q) ≡ (p == k) = ground arith in rw e))
  | inr other ↦ rw other (
      targets_of-push p q f (push_target k f m)
      ∙ rw (targets_of-push p k f m)
          (append_assoc (targets_of p m) _ _ ∙ ap (λ xs. targets_of p m ++ xs) (once other)))
]
  where
    once :
        (q == k) ≡ false
        → ((if p == k then f ∷ [] else []) ++ (if p == q then f ∷ [] else []))
          ≡ (if p == k || p == q then f ∷ [] else [])
    once distinct = ground arith

module _ (ir : Ir) where
  -- The function that an instruction stores through the pointer, with or without its casts.
  abbrev pub stored_function : Value → Value → List Function
  stored_function p i = elim (as_store (ir.kind i)) [
    | none ↦ []
    | some st ↦
        if is_function (ir.kind st.value)
          && (p == ir.strip_pointer_casts st.pointer || p == st.pointer)
        then st.value ∷ []
        else []
  ]

  file_store_lem :
      (p : Value) (m : Map (List Function)) (i : Value)
      → targets_of p (file_store ir m i) ≡ (targets_of p m ++ stored_function p i)
  unfolding file_store
  file_store_lem p m i = elim (Option-cases (as_store (ir.kind i))) [
    | inl e ↦ rw (e, file_store, stored_function) (sym (append-nil _))
    | inr (st, e) ↦ rw (e, file_store, stored_function) (filed st (is_function (ir.kind st.value)))
  ]
    where
      filed :
          (st : Store) (b : Bool)
          → targets_of p (
              if b
              then (if not (st.pointer == ir.strip_pointer_casts st.pointer)
                  then push_target st.pointer st.value
                      (push_target (ir.strip_pointer_casts st.pointer) st.value m)
                  else push_target (ir.strip_pointer_casts st.pointer) st.value m)
              else m)
            ≡ (targets_of p m
                ++ (if b && (p == ir.strip_pointer_casts st.pointer || p == st.pointer)
                    then st.value ∷ []
                    else []))
      filed st false = sym (append-nil _)
      filed st true = file_twice p st.pointer (ir.strip_pointer_casts st.pointer) st.value m

  file_stores_lem :
      (p : Value) (is : List Value) (m : Map (List Function))
      → targets_of p (foldl (file_store ir) m is)
        ≡ (targets_of p m ++ flat_map (stored_function p) is)
  file_stores_lem p [] m = sym (append-nil _)
  file_stores_lem p (i ∷ is) m =
      file_stores_lem p is (file_store ir m i)
      ∙ rw (file_store_lem p m i) (append_assoc (targets_of p m) (stored_function p i) _)

-- With indirect-call mode on, the targets of a pointer are the functions that the instructions
-- of the defined functions store through it, with or without its casts, in program order; with
-- the mode off there are none.
pub function_pointer_targets_lem :
    (ir : Ir) (cfg : Config) (p : Value)
    → targets_of p (function_pointer_targets ir cfg) ≡ (
        if cfg.indirect_call_mode
        then flat_map (stored_function ir p) (defined_instructions ir)
        else [])
unfolding function_pointer_targets lookup
function_pointer_targets_lem ir cfg p = elim (Bool-cases cfg.indirect_call_mode) [
  | inl b ↦ rw b (file_stores_lem ir p (defined_instructions ir) [])
  | inr b ↦ rw b
]
