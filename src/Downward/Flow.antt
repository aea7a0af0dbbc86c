-- ===== src/Downward/Flow.antt =====
-- Which values the worklist taints: the def-use flow that `run` follows, and what one use adds.
use linux_analysis.Prelude.{
  ℕ, ◌≡◌, Bool, not, ◌&&◌, ◌||◌, Option, none, some, List, [], ◌∷◌, ◌++◌, flat_map, get_elem?, Map,
  contains, sort, ◌==◌, is_some, if◌then◌else◌,
}
use linux_analysis.Llvm.{
  Ir, Value, Function, Kind, store_inst, call_inst, return_inst, is_global, is_instruction,
}
use linux_analysis.State.{Config, State}
use linux_analysis.Provenance.{get_pointer_parameter_origin}
use linux_analysis.Downward.{first_argument, resolve_targets}

-- `t` has tainted exactly `xs` more than `s`, and put on the worklist what was not tainted.
pub record Taints (xs : List Value) (s t : State) : Type 0 where
  pub tainted :
      (x : Value) → contains x t.tainted_values ≡ (contains x s.tainted_values || contains x xs)
  pub stacked :
      (x : Value)
      → contains x t.worklist
        ≡ (contains x s.worklist || (contains x xs && not (contains x s.tainted_values)))

module _ (ir : Ir) where
  -- Which parameters of a function taint enters at position `i`.
  abbrev pub parameter_at : ℕ → Function → List Value
  parameter_at i f = elim (get_elem? (ir.params f) i) [ none ↦ [] | some p ↦ p ∷ [] ]

  abbrev pub parameters_at : ℕ → List Function → List Value
  parameters_at i [] = []
  parameters_at i (f ∷ fs) =
      (if ir.is_declaration f then [] else parameter_at i f) ++ parameters_at i fs

  -- A tainted value that is returned, stored to a global, or stored through a pointer parameter
  -- does not taint the instruction that does so. Any other instruction that uses it is tainted.
  abbrev pub passes_on : Value → Kind → Bool
  passes_on v (return_inst (some r)) = not (r == v)
  passes_on v (store_inst x p) = not (
      x == v
      && (is_global (ir.kind (ir.strip_pointer_casts p))
          || is_some (get_pointer_parameter_origin ir p)))
  passes_on v k = is_instruction k

  module _ (cfg : Config) (targets : Map (List Function)) where
    -- The parameters that a tainted argument reaches: downward tracking for a direct call of a
    -- defined function, and indirect-call mode as well for a call through a pointer.
    abbrev pub call_parameters : ℕ → Option Function → Value → List Value
    call_parameters i (some f) operand =
        if cfg.interproc_mode && not (ir.is_declaration f) then parameter_at i f else []
    call_parameters i none operand =
        if cfg.indirect_call_mode && cfg.interproc_mode
        then parameters_at i (resolve_targets ir targets operand)
        else []

    abbrev pub entered : Value → Kind → List Value
    entered v (call_inst callee operand args) = elim (first_argument v args) [
      | none ↦ []
      | some i ↦ call_parameters i callee operand
    ]
    entered v _ = []

    -- What one use of a tainted value taints.
    abbrev pub flows : Value → Value → List Value
    flows v u = entered v (ir.kind u) ++ (if passes_on v (ir.kind u) then u ∷ [] else [])

    -- What all uses of a value taint.
    abbrev pub successors : Value → List Value
    successors v = flat_map (flows v) (sort (ir.users v))
