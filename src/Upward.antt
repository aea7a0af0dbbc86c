-- ===== src/Upward.antt =====
-- The upward search of `run` (passes/TaintTrackerPass/TaintTrackerPass.cpp): from functions that
-- return taint, or taint what a pointer parameter points to, to their callers.
pub mod Discoveries
pub mod Climbs
pub mod Moves
pub mod Callers
pub mod Arguments
pub mod Uses
pub mod Flows
pub mod Scans
pub mod Ends
pub mod Fixed
pub mod Closed
pub mod Passed
use linux_analysis.Prelude.{
  ℕ, zero, suc, ℤ, negsuc, suc_ℤ, Bool, true, false, not, ◌&&◌, ◌||◌, Option, none, some, List, [],
  ◌∷◌, foldl, get_elem?, length, ltb, Map, lookup, put, contains, insert, sort, ◌==◌, if◌then◌else◌,
}
use linux_analysis.Llvm.{
  Ir, Value, Function, Gep, Store, as_store, as_gep, as_call, as_return, is_alloca,
  is_struct_alloca, is_instruction, arg_no, defined_instructions,
}
use linux_analysis.State.{Config, State}
use linux_analysis.Level.{get_level, level_or_zero}
use linux_analysis.Provenance.{◌>>=◌, is_empty, last_field, get_pointer_parameter_origin}
use linux_analysis.Stores.{
  mark_pointer, or_nothing, taint_param, has_field, process_store_for_taint,
}
use linux_analysis.Loads.{scan_loads_from_tainted_pointers}
use linux_analysis.Downward.{sort_entries, pop, unscanned, insert_all}

-- A state, and `discoveredNewFunctions`.
abbrev pub Discovery : Type 0
Discovery = State × Bool

-- `calleeLevel + 1`.
unfoldable pub caller_level : Function → State → ℤ
caller_level f s = suc_ℤ (level_or_zero (lookup f s.function_level))

-- Is this the called function of a direct call?
abbrev pub is_callee : Function → Option Function → Bool
is_callee f none = false
is_callee f (some g) = g == f

-- The field of the struct that a GEP is about, -1 where it is not known.
unfoldable pub field_index : Ir → Gep → ℤ
unfolding last_field
field_index ir gep = elim (last_field ir gep.indices) [ [] ↦ negsuc 0 | c ∷ _ ↦ c ]

-- The fields that the function accesses through the parameter.
unfoldable pub accessed_fields : Function → ℕ → State → List ℤ
accessed_fields f i s = or_nothing (lookup i (or_nothing (lookup f s.function_param_field_access)))

-- A function that returns taint is discovered.
unfoldable pub add_returning : Function → Discovery → Discovery
add_returning f a = (
  record a.0 { functions_returning_taint = insert f a.0.functions_returning_taint },
  a.1 || not (contains f a.0.functions_returning_taint),
)

module _ (ir : Ir) where
  -- A caller without a level gets the level of the callee and one.
  unfoldable pub raise_caller : Function → Value → State → State
  unfolding caller_level
  raise_caller f call s = elim (ir.function_of call) [
    | none ↦ s
    | some g ↦ elim (lookup g s.function_level) [
      | some _ ↦ s
      | none ↦ record s { function_level = put g (caller_level f s) s.function_level }
    ]
  ]

  -- A call of `f`, which returns taint.
  unfoldable pub taint_call : Function → Value → State → State
  unfolding raise_caller
  taint_call f call s =
      if contains call s.tainted_values then s else record (raise_caller f call s) {
        value_level = put call (caller_level f s) s.value_level;
        tainted_values = insert call s.tainted_values;
        worklist = call ∷ s.worklist;
      }

  unfoldable pub visit_returning_call : Function → State → Value → State
  unfolding taint_call
  visit_returning_call f s i = elim (as_call (ir.kind i)) [
    | none ↦ s
    | some c ↦ if is_callee f c.callee then taint_call f i s else s
  ]

  unfoldable pub taint_calls_of : State → Function → State
  unfolding visit_returning_call
  taint_calls_of s f = foldl (visit_returning_call f) s (defined_instructions ir)

  -- 5a: the calls of all functions that return taint.
  unfoldable pub taint_returning_calls : State → State
  unfolding taint_calls_of
  taint_returning_calls s = foldl taint_calls_of s (sort s.functions_returning_taint)

  -- Case 1: the argument is, or is loaded from, parameter `n` of the caller.
  unfoldable pub pass_through : Function → Value → ℕ → Discovery → Discovery
  unfolding taint_param raise_caller
  pass_through f call n a = elim (ir.function_of call) [
    | none ↦ a
    | some g ↦
        let (s, new) = taint_param g n a.0 in
        if new then (raise_caller f call s, true) else (s, a.1)
  ]

  -- The local variable whose address is the argument.
  unfoldable pub pointed_variable : Value → Option Value
  pointed_variable arg = if is_alloca (ir.kind arg) then some arg else elim (as_gep (ir.kind arg)) [
    | none ↦ none
    | some gep ↦ some (ir.strip_pointer_casts gep.base)
  ]

  -- A store of the address of a variable to the field that `gep` is about.
  unfoldable pub visit_field_store : Value → Value → State → Value → State
  unfolding mark_pointer
  visit_field_store call gep s u = elim (as_store (ir.kind u)) [
    | none ↦ s
    | some st ↦
        let x = ir.strip_pointer_casts st.value in
        if st.pointer == gep && ir.is_pointer_ty x && is_alloca (ir.kind x)
        then mark_pointer x call s
        else s
  ]

  unfoldable pub visit_field : Value → List ℤ → State → Value → State
  unfolding visit_field_store field_index has_field
  visit_field call fields s u = elim (as_gep (ir.kind u)) [
    | none ↦ s
    | some gep ↦
        if is_empty fields || has_field (field_index ir gep) fields
        then foldl (visit_field_store call u) s (ir.users u)
        else s
  ]

  -- Case 2: parameter `i` of `f` points to the variable `x` of the caller.
  unfoldable pub taint_variable : Function → Value → ℕ → Value → State → State
  unfolding raise_caller mark_pointer visit_field accessed_fields
  taint_variable f call i x s =
      if contains x s.tainted_pointers
      then s
      else (let s1 = mark_pointer x call (raise_caller f call s) in
          if is_struct_alloca (ir.kind x)
          then foldl (visit_field call (accessed_fields f i s1)) s1 (ir.users x)
          else s1)

  -- Parameter `i` of `f` at a call; an index beyond the arguments is passed over.
  unfoldable pub visit_argument : Function → Value → List Value → Discovery → ℕ → Discovery
  unfolding pass_through pointed_variable taint_variable
  visit_argument f call args a i = elim (get_elem? args i) [
    | none ↦ a
    | some arg ↦ elim (get_pointer_parameter_origin ir arg) [
      | some p ↦ pass_through f call (arg_no (ir.kind p)) a
      | none ↦ elim (pointed_variable arg) [
        | none ↦ a
        | some x ↦ (taint_variable f call i x a.0, a.1)
      ]
    ]
  ]

  unfoldable pub visit_tainting_call : Function → List ℕ → Discovery → Value → Discovery
  unfolding visit_argument
  visit_tainting_call f params a i = elim (as_call (ir.kind i)) [
    | none ↦ a
    | some c ↦
        if is_callee f c.callee then foldl (visit_argument f i c.arguments) a (sort params) else a
  ]

  unfoldable pub taint_arguments_of : Discovery → Function × List ℕ → Discovery
  unfolding visit_tainting_call
  taint_arguments_of a (f, params) =
      foldl (visit_tainting_call f params) a (defined_instructions ir)

  -- 5b: the calls of all functions that taint a parameter, from a copy of the map.
  unfoldable pub taint_passed_pointers : State → Discovery
  unfolding taint_arguments_of sort_entries
  taint_passed_pointers s =
      foldl taint_arguments_of (s, false) (sort_entries s.functions_tainting_pointer_params)

  unfoldable pub store_effect : Value → Value → Discovery → Discovery
  unfolding process_store_for_taint
  store_effect v u a = elim (as_store (ir.kind u)) [
    | none ↦ a
    | some st ↦ let (s, new) = process_store_for_taint ir u st v a.0 in (s, a.1 || new)
  ]

  unfoldable pub return_effect : Value → Value → Discovery → Discovery
  unfolding add_returning
  return_effect v u a = elim (as_return (ir.kind u)) [
    | some (some r) ↦
        if r == v then elim (ir.function_of u) [ none ↦ a | some f ↦ add_returning f a ] else a
    | _ ↦ a
  ]

  abbrev pub push : Value → Discovery → Discovery
  push u a = (record a.0 { worklist = u ∷ a.0.worklist }, a.1)

  -- `ValueLevel[UserInst] = getLevel(V)` and `TaintedValues.insert(UserInst)`.
  unfoldable pub taint_user : Value → Value → State → State
  taint_user v u s = record s {
    value_level = put u (get_level ir s v) s.value_level;
    tainted_values = insert u s.tainted_values;
  }

  -- One use of a tainted value. Unlike downward, a store and a return taint themselves.
  unfoldable pub visit_user_upward : Value → Discovery → Value → Discovery
  unfolding store_effect return_effect taint_user
  visit_user_upward v a u =
      if not (is_instruction (ir.kind u)) || contains u a.0.tainted_values
      then a
      else push u (return_effect v u (store_effect v u (taint_user v u a.0, a.1)))

  unfoldable pub process_upward : Value → Discovery → Discovery
  unfolding visit_user_upward
  process_upward v a = foldl (visit_user_upward v) a (sort (ir.users v))

  -- `while (!Worklist.empty())`; `none` where the fuel runs out.
  unfoldable pub drain_upward : ℕ → Discovery → Option Discovery
  unfolding process_upward
  drain_upward zero a = elim a.0.worklist [ [] ↦ some a | _ ∷ _ ↦ none ]
  drain_upward (suc fuel) a = elim a.0.worklist [
    | [] ↦ some a
    | v ∷ rest ↦ drain_upward fuel (process_upward v (pop a.0 rest, a.1))
  ]

  -- `while (true)`: the worklist, then the loads from the pointers that are not scanned yet, with
  -- no kill stores. The result has the pointers that are scanned then.
  unfoldable pub settle : ℕ → ℕ → List Value → Discovery → Option (List Value × Discovery)
  unfolding drain_upward unscanned insert_all
  settle work zero scanned a = none
  settle work (suc rounds) scanned a = drain_upward work a >>= λ (s, found).
      elim (unscanned scanned (sort s.tainted_pointers)) [
        | [] ↦ some (scanned, (s, found))
        | p ∷ ps ↦
            settle work rounds (insert_all (p ∷ ps) scanned)
              ((scan_loads_from_tainted_pointers ir (p ∷ ps) none s).0, found)
      ]

  -- Did the sizes of the two containers grow from `s` to `t`?
  abbrev pub has_grown : State → State → Bool
  has_grown s t =
      ltb (length s.functions_returning_taint) (length t.functions_returning_taint)
      || ltb (length s.functions_tainting_pointer_params)
          (length t.functions_tainting_pointer_params)

  -- One iteration: what the scanned pointers and the state are after it, and whether functions
  -- were discovered.
  unfoldable pub iteration : ℕ → ℕ → List Value → State → Option (List Value × Discovery)
  unfolding taint_returning_calls taint_passed_pointers settle
  iteration work rounds scanned s =
      settle work rounds scanned (taint_passed_pointers (taint_returning_calls s)) >>= λ (seen, a).
      some (seen, (a.0, a.1 || has_grown s a.0))

  -- `while (discoveredNewFunctions)`.
  unfoldable pub upward : ℕ → ℕ → ℕ → List Value → State → Option State
  unfolding iteration
  upward work rounds zero scanned s = none
  upward work rounds (suc fuel) scanned s =
      iteration work rounds scanned s >>= λ (seen, (t, found)).
      let rest = upward work rounds fuel seen t in if found then rest else some t
