-- ===== src/Upward/Closed.antt =====
-- What the upward search (passes/TaintTrackerPass/TaintTrackerPass.cpp) has done at the calls of the
-- functions that it knows, as a specification, and its part on functions that return taint.
use linux_analysis.Prelude.{
  ℕ, ◌≡◌, refl, Bool, true, false, none, some, List, foldl_reaches, get_elem?, lookup, contains,
  contains-sort, contains-insert, sort, ◌∈◌, ==_refl, arith,
}
use linux_analysis.Llvm.{Ir, Value, Function, Call, IsModule, as_call, arg_no, defined_instructions}
use linux_analysis.State.{State}
use linux_analysis.Provenance.{get_pointer_parameter_origin}
use linux_analysis.Stores.{or_nothing}
use linux_analysis.Downward.Ends.{defined_instructions-mem}
use linux_analysis.Upward.{
  is_callee, taint_call, visit_returning_call, taint_calls_of, taint_returning_calls,
  pointed_variable,
}
use linux_analysis.Upward.Callers.{visit_returning_call-Moves, taint_calls_of-Moves}

-- The direct call `i` of the function `f`, with its operands.
pub record Calls (ir : Ir) (f : Function) (i : Value) (c : Call) : Type 0 where
  pub defined : i ∈ defined_instructions ir
  pub is_call : as_call (ir.kind i) ≡ some c
  pub callee : is_callee f c.callee ≡ true

abbrev pub known_params : State → Function → List ℕ
known_params s f = or_nothing (lookup f s.functions_tainting_pointer_params)

-- The calls of the functions that return taint or taint a parameter have been visited.
pub record IsClosed (ir : Ir) (t : State) : Type 0 where
  -- Every direct call of a function that returns taint is tainted.
  pub returned :
      (f : Function) (i : Value) (c : Call)
      → f ∈ t.functions_returning_taint
      → Calls ir f i c
      → i ∈ t.tainted_values
  -- An argument for a tainted parameter that comes from a pointer parameter: that is recorded as a
  -- tainted parameter of the function that the call stands in.
  pub passed :
      (f g : Function) (n : ℕ) (i : Value) (c : Call) (arg p : Value)
      → n ∈ known_params t f
      → Calls ir f i c
      → get_elem? c.arguments n ≡ some arg
      → get_pointer_parameter_origin ir arg ≡ some p
      → ir.function_of i ≡ some g
      → arg_no (ir.kind p) ∈ known_params t g
  -- An argument for a tainted parameter that comes from no pointer parameter and is an alloca or a
  -- GEP: the alloca, or the base of the GEP without casts, is a tainted pointer.
  pub addressed :
      (f : Function) (n : ℕ) (i : Value) (c : Call) (arg x : Value)
      → n ∈ known_params t f
      → Calls ir f i c
      → get_elem? c.arguments n ≡ some arg
      → get_pointer_parameter_origin ir arg ≡ none
      → pointed_variable ir arg ≡ some x
      → x ∈ t.tainted_pointers

module _ (ir : Ir) (is_module : IsModule ir) where
  visit_returning_call-reaches :
      (f : Function) (i : Value) (c : Call) (s : State)
      → Calls ir f i c
      → i ∈ (visit_returning_call ir f s i).tainted_values
  unfolding visit_returning_call taint_call
  visit_returning_call-reaches f i c s call =
      rw (call.is_call, visit_returning_call) (rw call.callee (tainted _ refl))
    where
      tainted :
          (b : Bool) → contains i s.tainted_values ≡ b → i ∈ (taint_call ir f i s).tainted_values
      tainted true old = rw old old
      tainted false new =
          rw new (rw (contains-insert i i s.tainted_values) (ground (arith, ==_refl i)))

  taint_calls_of-reaches :
      (f : Function) (i : Value) (c : Call) (s : State)
      → Calls ir f i c
      → i ∈ (taint_calls_of ir s f).tainted_values
  unfolding taint_calls_of
  taint_calls_of-reaches f i c s call =
      foldl_reaches (λ (t : State). i ∈ t.tainted_values) (visit_returning_call ir f)
        (defined_instructions ir) i call.defined (λ t. visit_returning_call-reaches f i c t call)
        (λ t j m h.
          (visit_returning_call-Moves ir is_module f t j false
              (defined_instructions-mem ir is_module j m)).climbs.tainted
            i h)
        s

  pub taint_returning_calls-reaches :
      (f : Function) (i : Value) (c : Call) (s : State)
      → f ∈ s.functions_returning_taint
      → Calls ir f i c
      → i ∈ (taint_returning_calls ir s).tainted_values
  unfolding taint_returning_calls
  taint_returning_calls-reaches f i c s m call =
      foldl_reaches (λ (t : State). i ∈ t.tainted_values) (taint_calls_of ir)
        (sort s.functions_returning_taint) f (rw (contains-sort f s.functions_returning_taint) m)
        (λ t. taint_calls_of-reaches f i c t call)
        (λ t g _ h. (taint_calls_of-Moves ir is_module g t false).climbs.tainted i h) s
