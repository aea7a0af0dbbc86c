-- ===== src/Downward/Worklist.antt =====
-- The inner loop of the downward search, totally: it ends, and taints what flow reaches.
use linux_analysis.Prelude.{ℕ, ◌≤◌, ◌≡◌, ◌↔◌, some, List, [], Map, ◌∈◌, ◌⊆◌}
use linux_analysis.Llvm.{Ir, Value, Function, IsModule}
use linux_analysis.State.{Config, State}
use linux_analysis.Downward.{drain}
use linux_analysis.Downward.Exact.{Reach, IsPending, drain_exact}
use linux_analysis.Downward.Progress.{potential}
use linux_analysis.Downward.Ends.{drain_total}

-- In a module, if all that is tainted and not on the worklist has had its uses followed, and
-- there is a unit of fuel for each value that waits or is left to taint, the worklist runs empty,
-- and then a value is tainted exactly if def-use flow, with its stops and its steps into
-- parameters, leads to it from a value that was tainted before.
pub worklist_exact :
    (ir : Ir) (cfg : Config) (targets : Map (List Function)) (fuel : ℕ) (s : State)
    → IsModule ir
    → IsPending ir cfg targets s
    → s.worklist ⊆ ir.values
    → potential ir.values s ≤ fuel
    → (t : State) × (drain ir cfg targets fuel s ≡ some t)
      × (t.worklist ≡ [])
      × ((x : Value) → (x ∈ t.tainted_values) ↔ Reach ir cfg targets s.tainted_values x)
worklist_exact ir cfg targets fuel s is_module pending inside enough =
    let (t, run, _) = drain_total ir is_module cfg targets fuel s inside enough in
    let (_, empty, exact) = drain_exact ir cfg targets fuel s t pending run in
    (t, run, empty, exact)
