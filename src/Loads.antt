-- ===== src/Loads.antt =====
-- Loads from tainted pointers: `isLoadBeforeTaintOrigin` and `scanLoadsFromTaintedPointers`
-- (passes/TaintTrackerPass/TaintTrackerPass.cpp).
pub mod Order
use linux_analysis.Prelude.{
  Bool, true, false, not, ◌&&◌, ◌||◌, Option, none, some, List, [], ◌∷◌, foldl, lookup, contains,
  insert, sort, ◌==◌, if◌then◌else◌,
}
use linux_analysis.Llvm.{Ir, Value, as_store, as_load, as_gep, defined_instructions}
use linux_analysis.State.{State}
use linux_analysis.Level.{ensure_level_set}

-- `for (I : BB) { if (&I == First) found = true; if (&I == Second && found) return true; }`
unfoldable pub meets_after : Value → Value → Bool → List Value → Bool
meets_after first second found [] = false
meets_after first second found (i ∷ is) =
    let now = found || i == first in
    let rest = meets_after first second now is in if i == second && now then true else rest

module _ (ir : Ir) where
  unfoldable pub is_load_before_taint_origin : State → Value → Value → Bool
  unfolding meets_after
  is_load_before_taint_origin s load ptr = elim (lookup ptr s.pointer_taint_origin) [
    | none ↦ false
    | some origin ↦
        if not (ir.block_of load == ir.block_of origin)
        then false
        else meets_after load origin false (ir.instructions (ir.block_of load))
  ]

  -- Does the load read the pointer, or a GEP whose base is the pointer? In both cases the pointer
  -- that the later tests are about is `ptr`.
  unfoldable pub matches_pointer : Value → Value → Bool
  matches_pointer load_ptr ptr = load_ptr == ptr || elim (as_gep (ir.kind load_ptr)) [
    | none ↦ false
    | some gep ↦ ir.strip_pointer_casts gep.base == ptr
  ]

  -- Does the load stand behind this kill store of the pointer, in the same block?
  unfoldable pub is_after_kill : Value → Value → Value → Bool
  unfolding meets_after
  is_after_kill load ptr kill = elim (as_store (ir.kind kill)) [
    | none ↦ false
    | some st ↦
        ir.strip_pointer_casts st.pointer == ptr
        && ir.block_of load == ir.block_of kill
        && meets_after kill load false (ir.instructions (ir.block_of load))
  ]

  unfoldable pub is_after_some_kill : Value → Value → List Value → Bool
  unfolding is_after_kill
  is_after_some_kill load ptr [] = false
  is_after_some_kill load ptr (k ∷ ks) = is_after_kill load ptr k || is_after_some_kill load ptr ks

  -- `KilledStores` may be null.
  abbrev pub kill_check : Value → Value → Option (List Value) → Bool
  kill_check load ptr none = false
  kill_check load ptr (some killed) = is_after_some_kill load ptr (sort killed)

  unfoldable pub taint_load : Value → State → State
  taint_load load s =
      let s' = ensure_level_set ir load s in
      record s' { tainted_values = insert load s'.tainted_values; worklist = load ∷ s'.worklist }

  -- One instruction of the scan for `ptr`. The flag says whether a load was tainted.
  unfoldable pub scan_load : Option (List Value) → Value → State × Bool → Value → State × Bool
  unfolding is_load_before_taint_origin matches_pointer is_after_some_kill taint_load
  scan_load killed ptr acc i = elim (as_load (ir.kind i)) [
    | none ↦ acc
    | some p ↦
        if not (matches_pointer (ir.strip_pointer_casts p) ptr)
        then acc
        else (if contains i (acc.0).tainted_values
            then acc
            else (if kill_check i ptr killed
                then (ensure_level_set ir i acc.0, acc.1)
                else (if is_load_before_taint_origin acc.0 i ptr
                    then (ensure_level_set ir i acc.0, acc.1)
                    else (taint_load i acc.0, true))))
  ]

  unfoldable pub scan_pointer : Option (List Value) → State × Bool → Value → State × Bool
  unfolding scan_load
  scan_pointer killed acc ptr = foldl (scan_load killed ptr) acc (defined_instructions ir)

  unfoldable pub scan_loads_from_tainted_pointers :
      List Value → Option (List Value) → State → State × Bool
  unfolding scan_pointer
  scan_loads_from_tainted_pointers pointers killed s =
      foldl (scan_pointer killed) (s, false) pointers
