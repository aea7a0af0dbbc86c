-- ===== src/Search.antt =====
-- The searches of `run` as a whole (passes/TaintTrackerPass/TaintTrackerPass.cpp): function
-- pointers, seeding and the downward loop, from the containers as declared.
use linux_analysis.Prelude.{
  inl, List, Map, suc, ◌*◌, ◌≡◌, Option, some, [], length, arith, ◌∈◌, ◌⊆◌,
}
use linux_analysis.Llvm.{Ir, Function, IsModule, Value}
use linux_analysis.State.{Config, State}
use linux_analysis.FunctionPointers.{function_pointer_targets}
use linux_analysis.Seeds.{seeds}
use linux_analysis.Seeds.Start.{seeds_start}
use linux_analysis.Downward.{downward}
use linux_analysis.Downward.Ends.{downward_total}
use linux_analysis.Downward.Exact.{Reach, IsPending, closed-Reach}
use linux_analysis.Downward.Closed.{downward-Closes}

-- The fuel is one unit of work for each value and a round for each value and pointer.
unfoldable pub search : Ir → Config → Option State
search ir cfg =
    downward ir cfg (function_pointer_targets ir cfg) (length ir.values)
      (suc (2 * length ir.values)) [] (seeds ir cfg).state

-- On every module, with every configuration, seeding and the downward search end.
pub search_total : (ir : Ir) (cfg : Config) → IsModule ir → (t : State) × (search ir cfg ≡ some t)
unfolding search
search_total ir cfg is_module =
    let targets = function_pointer_targets ir cfg in
    let (_, inside, work, rounds) = seeds_start ir is_module cfg in
    downward_total ir is_module cfg targets (length ir.values) (suc (2 * length ir.values)) []
      (seeds ir cfg).state inside work (omega (arith, rounds))

unfollowed-IsPending :
    (ir : Ir) (cfg : Config) (targets : Map (List Function)) (s : State)
    → s.worklist ≡ s.tainted_values
    → IsPending ir cfg targets s
unfollowed-IsPending ir cfg targets s same = record {
  waiting = λ x m. rw (← same) m;
  followed = λ v m. inl (rw same m);
}

-- On every module, with every configuration, the downward search ends with an empty worklist; it
-- has tainted all that seeding tainted and all that def-use flow leads to from a value that it
-- has tainted, with its stops and its steps into parameters.
pub search_closed :
    (ir : Ir) (cfg : Config)
    → IsModule ir
    → (t : State) × (search ir cfg ≡ some t)
      × (t.worklist ≡ [])
      × ((seeds ir cfg).state.tainted_values ⊆ t.tainted_values)
      × ((x : Value)
          → Reach ir cfg (function_pointer_targets ir cfg) t.tainted_values x
          → x ∈ t.tainted_values)
unfolding search
search_closed ir cfg is_module =
    let targets = function_pointer_targets ir cfg in
    let (same, _, _, _) = seeds_start ir is_module cfg in
    let (t, run) = search_total ir cfg is_module in
    let end =
      downward-Closes ir cfg targets (length ir.values) (suc (2 * length ir.values)) []
        (seeds ir cfg).state t is_module
        (unfollowed-IsPending ir cfg targets (seeds ir cfg).state same) run in
    (t, run, end.empty, end.kept, λ x r. closed-Reach ir cfg targets t end.empty end.pending r)
