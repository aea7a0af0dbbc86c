-- ===== src/Downward.antt =====
-- The downward search of `run` (passes/TaintTrackerPass/TaintTrackerPass.cpp): the worklist, the
-- kill stores and the loop over both and the loads.
pub mod Entries
pub mod Flow
mod Uses
pub mod Queues
pub mod Kills
pub mod Closed
pub mod Progress
pub mod Ends
pub mod Worklist
pub mod Exact
use linux_analysis.Prelude.{
  ℕ, zero, suc, pred_ℤ, Bool, true, false, not, ◌&&◌, ◌||◌, Option, none, some, List, [], ◌∷◌, ◌++◌,
  foldl, get_elem?, Map, lookup, put, contains, insert, sort, leb, ◌==◌, if◌then◌else◌,
}
use linux_analysis.Llvm.{
  Ir, Value, Function, Kind, Store, Gep, store_inst, call_inst, return_inst, as_store, as_load,
  as_gep, is_global, is_instruction, arg_no, defined_instructions,
}
use linux_analysis.State.{Config, State}
use linux_analysis.Level.{get_level}
use linux_analysis.Provenance.{◌>>=◌, get_pointer_parameter_origin}
use linux_analysis.Gep.{same_gep_pattern}
use linux_analysis.Stores.{mark_pointer, taint_param}
use linux_analysis.Loads.{scan_loads_from_tainted_pointers}

-- Entries of a map in the order of their keys.
unfoldable pub insert_entry {ℓ} : {A : Type ℓ} → ℕ × A → Map A → Map A
insert_entry e [] = e ∷ []
insert_entry e (f ∷ m) = if leb e.0 f.0 then e ∷ f ∷ m else f ∷ insert_entry e m

unfoldable pub sort_entries {ℓ} : {A : Type ℓ} → Map A → Map A
unfolding insert_entry
sort_entries [] = []
sort_entries (e ∷ m) = insert_entry e (sort_entries m)

-- The position of the first argument that is the value.
unfoldable pub first_argument : Value → List Value → Option ℕ
first_argument v [] = none
first_argument v (a ∷ as') =
    let rest = first_argument v as' in
    if a == v then some 0 else elim rest [ none ↦ none | some i ↦ some (suc i) ]

-- `for (CheckI : BB) { if (&CheckI == Origin) found; if (&CheckI == Store && !found) return true }`
unfoldable pub meets_before : Value → Value → Bool → List Value → Bool
meets_before origin store found [] = false
meets_before origin store found (i ∷ is) =
    let now = found || i == origin in
    let rest = meets_before origin store now is in if i == store && not now then true else rest

-- The state after the top `v` of the worklist is popped.
abbrev pub pop : State → List Value → State
pop s rest = record s { worklist = rest }

-- The pointers that are not scanned yet.
unfoldable pub unscanned : List Value → List Value → List Value
unscanned scanned [] = []
unscanned scanned (p ∷ ps) =
    if contains p scanned then unscanned scanned ps else p ∷ unscanned scanned ps

unfoldable pub insert_all : List Value → List Value → List Value
insert_all [] set = set
insert_all (x ∷ xs) set = insert_all xs (insert x set)

module _ (ir : Ir) where
  -- The first entry whose key is a GEP of the same pattern.
  matching_entry : Gep → Map (List Function) → List Function
  matching_entry gep [] = []
  matching_entry gep ((p, fs) ∷ m) = elim (as_gep (ir.kind p)) [
    | none ↦ matching_entry gep m
    | some other ↦ if same_gep_pattern ir gep other then fs else matching_entry gep m
  ]

  -- `Targets` of a call through a function pointer.
  unfoldable pub resolve_targets : Map (List Function) → Value → List Function
  unfolding matching_entry sort_entries
  resolve_targets targets called = elim (as_load (ir.kind called)) [
    | none ↦ []
    | some p ↦ elim (lookup p targets) [
      | some fs ↦ fs
      | none ↦ elim (lookup (ir.strip_pointer_casts p) targets) [
        | some fs ↦ fs
        | none ↦ elim (as_gep (ir.kind p)) [
          | none ↦ []
          | some gep ↦ matching_entry gep (sort_entries targets)
        ]
      ]
    ]
  ]

  -- Taint flows into parameter `i` of `f`, if there is one: one level down.
  unfoldable pub taint_parameter : Value → ℕ → State → Function → State
  taint_parameter v i s f = elim (get_elem? (ir.params f) i) [
    | none ↦ s
    | some param ↦
        if contains param s.tainted_values
        then s
        else (let new_level = pred_ℤ (get_level ir s v) in
            record s {
              tainted_values = insert param s.tainted_values;
              value_level = put param new_level s.value_level;
              function_level = put f new_level s.function_level;
              worklist = param ∷ s.worklist;
              changed = true;
            })
  ]

  -- A target that is a declaration is passed over.
  unfoldable pub taint_target : Value → ℕ → State → Function → State
  unfolding taint_parameter
  taint_target v i s f = if ir.is_declaration f then s else taint_parameter v i s f

  unfoldable pub set_call_level : Value → Value → State → State
  set_call_level v call s = elim (lookup call s.value_level) [
    | some _ ↦ s
    | none ↦ record s { value_level = put call (get_level ir s v) s.value_level }
  ]

  -- `if (TaintedValues.insert(UserInst).second) …`: the user is tainted at the level of the value.
  unfoldable pub propagate : Value → Value → State → State
  propagate v u s = if contains u s.tainted_values then s else record s {
    tainted_values = insert u s.tainted_values;
    value_level = put u (get_level ir s v) s.value_level;
    worklist = u ∷ s.worklist;
  }

  -- A store of the tainted value. A store to a global or through a pointer parameter ends here.
  unfoldable pub visit_store : Value → Value → Store → State → State
  unfolding mark_pointer taint_param propagate
  visit_store v u st s =
      let ptr = ir.strip_pointer_casts st.pointer in
      if is_global (ir.kind ptr) then s else elim (get_pointer_parameter_origin ir st.pointer) [
        | some a ↦ elim (ir.function_of u) [
          | none ↦ s
          | some f ↦ (taint_param f (arg_no (ir.kind a)) s).0
        ]
        | none ↦ propagate v u (
            if contains ptr s.tainted_pointers
            then s
            else record (mark_pointer ptr u s) { changed = true })
      ]

  unfoldable pub visit_return : Value → Value → Option Value → State → State
  unfolding propagate
  visit_return v u result s =
      let stop : State = elim (ir.function_of u) [
        | none ↦ s
        | some f ↦ record s { functions_returning_taint = insert f s.functions_returning_taint }
      ] in
      elim result [ none ↦ propagate v u s | some r ↦ if r == v then stop else propagate v u s ]

  module _ (cfg : Config) (targets : Map (List Function)) where
    -- A call that has the tainted value as an argument.
    unfoldable pub visit_call : Value → Value → Option Function → Value → List Value → State → State
    unfolding taint_target set_call_level resolve_targets first_argument
    visit_call v u callee operand args s = elim (first_argument v args) [
      | none ↦ s
      | some i ↦ elim callee [
        | some f ↦
            if ir.is_declaration f
            then s
            else (let s1 = set_call_level v u s in
                if cfg.interproc_mode then taint_parameter v i s1 f else s1)
        | none ↦
            if cfg.indirect_call_mode && cfg.interproc_mode
            then foldl (taint_target v i) s (resolve_targets targets operand)
            else s
      ]
    ]

    unfoldable pub visit_user_kind : Value → State → Value → Kind → State
    unfolding visit_call visit_return visit_store propagate
    visit_user_kind v s u (call_inst callee operand args) =
        propagate v u (visit_call v u callee operand args s)
    visit_user_kind v s u (return_inst result) = visit_return v u result s
    visit_user_kind v s u (store_inst x p) =
        if x == v then visit_store v u (record { value = x; pointer = p }) s else propagate v u s
    visit_user_kind v s u k = if is_instruction k then propagate v u s else s

    unfoldable pub visit_user : Value → State → Value → State
    unfolding visit_user_kind
    visit_user v s u = visit_user_kind v s u (ir.kind u)

    -- The uses of one value, in the order of their addresses.
    unfoldable pub process : Value → State → State
    unfolding visit_user
    process v s = foldl (visit_user v) s (sort (ir.users v))

    -- `while (!Worklist.empty())`; `none` where the fuel runs out.
    unfoldable pub drain : ℕ → State → Option State
    unfolding process
    drain zero s = elim s.worklist [ [] ↦ some s | _ ∷ _ ↦ none ]
    drain (suc fuel) s = elim s.worklist [
      | [] ↦ some s
      | v ∷ rest ↦ drain fuel (process v (pop s rest))
    ]

  unfoldable pub is_valid_kill : Value → Value → State → Bool
  unfolding meets_before
  is_valid_kill store ptr s = elim (lookup ptr s.pointer_taint_origin) [
    | none ↦ true
    | some origin ↦
        if ir.block_of store == ir.block_of origin
        then not (meets_before origin store false (ir.instructions (ir.block_of store)))
        else true
  ]

  unfoldable pub identify_kill : State → Value → State
  unfolding is_valid_kill
  identify_kill s i = elim (as_store (ir.kind i)) [
    | none ↦ s
    | some st ↦
        let ptr = ir.strip_pointer_casts st.pointer in
        if contains ptr s.tainted_pointers
          && not (contains st.value s.tainted_values)
          && not (contains i s.tainted_values)
          && is_valid_kill i ptr s
        then record s { killed_stores = insert i s.killed_stores }
        else s
  ]

  unfoldable pub identify_kill_stores : State → State
  unfolding identify_kill
  identify_kill_stores s = foldl identify_kill s (defined_instructions ir)

  -- The scan of one round, after the worklist is empty.
  unfoldable pub scan_round : List Value → State → State
  unfolding identify_kill_stores
  scan_round scanned s =
      let s' = identify_kill_stores s in
      let (t, found) =
        scan_loads_from_tainted_pointers ir (unscanned scanned (sort s'.tainted_pointers))
          (some s'.killed_stores) s' in
      record t { changed = t.changed || found }

  -- The pointers that are scanned after a round.
  unfoldable pub scanned_after : List Value → State → List Value
  unfolding unscanned insert_all
  scanned_after scanned s = insert_all (unscanned scanned (sort s.tainted_pointers)) scanned

  module _ (cfg : Config) (targets : Map (List Function)) (work : ℕ) where
    -- `while (changed)`, with fuel for its rounds and for the worklist of each.
    unfoldable pub downward : ℕ → List Value → State → Option State
    unfolding drain scan_round scanned_after
    downward zero scanned s = none
    downward (suc rounds) scanned s = drain cfg targets work (record s { changed = false }) >>= λ t.
        let t' = scan_round scanned t in
        let rest = downward rounds (scanned_after scanned t) t' in
        if t'.changed then rest else some t'
