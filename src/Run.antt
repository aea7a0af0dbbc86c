-- ===== src/Run.antt =====
-- The analysis of `run` (passes/TaintTrackerPass/TaintTrackerPass.cpp) up to its report: the
-- downward search, and then the upward search where it is asked for.
pub mod Ends
pub mod Flows
use linux_analysis.Prelude.{
  suc, ◌+◌, ◌*◌, Bool, not, ◌&&◌, ◌||◌, Option, some, [], length, if◌then◌else◌,
}
use linux_analysis.Llvm.{Ir}
use linux_analysis.State.{Config, State}
use linux_analysis.Provenance.{◌>>=◌, is_empty}
use linux_analysis.Upward.{upward}
use linux_analysis.Search.{search}

-- `UpwardInterprocMode && (!FunctionsReturningTaint.empty() || …)`.
abbrev pub goes_upward : Config → State → Bool
goes_upward cfg s =
    cfg.upward_interproc_mode
    && (not (is_empty s.functions_returning_taint)
        || not (is_empty s.functions_tainting_pointer_params))

-- The fuel is one unit of work for each value, a round for each value and tainted pointer, and an
-- iteration for each function and each parameter number of it, and one more of both.
unfoldable pub run : Ir → Config → Option State
run ir cfg = search ir cfg >>= λ s.
    if goes_upward cfg s
    then upward ir (length ir.values) (suc (length ir.values + length s.tainted_pointers))
        (suc (length ir.functions + length ir.functions * length ir.values)) [] s
    else some s
