-- ===== src/Run/Flows.antt =====
-- The state that the upward search of `run` (passes/TaintTrackerPass/TaintTrackerPass.cpp) leaves:
-- users, loads and levels.
use linux_analysis.Prelude.{
  Bool-cases, ◌≡◌, ◌∙◌, sym, some_inj, inl, inr, true, false, some, [], contains, ◌∈◌, ◌⊆◌,
}
use linux_analysis.Llvm.{Ir, Value, IsModule}
use linux_analysis.State.{Config, State}
use linux_analysis.Upward.Flows.{UsesTainted, IsReached, Reads}
use linux_analysis.Search.{search, search_closed}
use linux_analysis.Run.{goes_upward, run}
use linux_analysis.Run.Ends.{upward_ends, run_up, run_down}
use linux_analysis.Upward.Moves.{KeepsLevels}

search-empty :
    (ir : Ir) → IsModule ir → (cfg : Config) (s : State) → search ir cfg ≡ some s → s.worklist ≡ []
search-empty ir is_module cfg s e =
    let (s', e', empty, _, _) = search_closed ir cfg is_module in
    let same : s' ≡ s = some_inj (sym e' ∙ e) in rw same at empty

-- From `s`, where the downward search ended, to `t`.
pub record IsSaturated (ir : Ir) (s t : State) : Type 0 where
  pub kept : s.tainted_values ⊆ t.tainted_values
  -- All instructions that use a value that was tainted since `s` are tainted.
  pub used :
      (v : Value) → v ∈ t.tainted_values → contains v s.tainted_values ≡ false → UsesTainted ir v t
  -- Every load from a tainted pointer, or from a field behind it, is tainted, unless it stands in
  -- front of the instruction that tainted the pointer in the same block.
  pub loaded : (p i : Value) → p ∈ t.tainted_pointers → Reads ir i p → IsReached ir i p t

-- On every module, where the analysis goes upward after the downward search, it ends, and then all
-- instructions that use a value that was tainted on the way up are tainted, and so is every load
-- from a tainted pointer that does not stand, in the same block, in front of the instruction that
-- tainted the pointer.
pub run-IsSaturated :
    (ir : Ir)
    → IsModule ir
    → (cfg : Config) (s : State) → search ir cfg ≡ some s
    → goes_upward cfg s ≡ true
    → (t : State) × (run ir cfg ≡ some t) × IsSaturated ir s t
run-IsSaturated ir is_module cfg s e up =
    let (t, ends, fixed) = upward_ends ir is_module cfg s (search-empty ir is_module cfg s e) in
    (
      t,
      run_up ir is_module cfg s t e up ends,
      record {
        kept = fixed.follows.tainted;
        used = λ v m fresh.
            elim (fixed.follows.followed s.tainted_values (λ w old new. cc) v m fresh) [
              | inl waits ↦ cc (rw fixed.settled.empty at waits)
              | inr done ↦ done
            ];
        loaded = λ p i m reads. fixed.scans.reached p i (fixed.settled.all_scanned p m) reads;
      },
    )

-- On every module, with every configuration, a value that is tainted when the downward search ends
-- and has a level in the map of levels then has the same level there when the analysis ends.
pub run-KeepsLevels :
    (ir : Ir)
    → IsModule ir
    → (cfg : Config) (s t : State) → search ir cfg ≡ some s
    → run ir cfg ≡ some t
    → KeepsLevels s t
run-KeepsLevels ir is_module cfg s t e r = elim (Bool-cases (goes_upward cfg s)) [
  | inr down ↦
      let same : s ≡ t = some_inj (sym (run_down ir is_module cfg s e down) ∙ r) in
      rw (← same) (λ x l m known. known)
  | inl up ↦
      let (t', ends, fixed) = upward_ends ir is_module cfg s (search-empty ir is_module cfg s e) in
      let same : t' ≡ t = some_inj (sym (run_up ir is_module cfg s t' e up ends) ∙ r) in
      rw (← same) fixed.follows.levels
]
