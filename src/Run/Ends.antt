-- ===== src/Run/Ends.antt =====
-- The end of the analysis of `run` (passes/TaintTrackerPass/TaintTrackerPass.cpp): that it comes,
-- and what it has visited of the callers.
use linux_analysis.Prelude.{
  ℕ, suc, ◌+◌, ◌*◌, ◌≤◌, ◌≡◌, refl, ap, inl, inr, true, false, some, List, [], ◌∷◌, ◌++◌, length,
  length-append, contains-append, missing-le, lookup, Map, ◌⊆◌, Bool-cases, arith,
}
use linux_analysis.Llvm.{Ir, Value, Function, IsModule}
use linux_analysis.State.{Config, State}
use linux_analysis.Provenance.{is_empty}
use linux_analysis.Stores.{or_nothing}
use linux_analysis.Seeds.{seeds}
use linux_analysis.Upward.{upward}
use linux_analysis.Upward.Discoveries.{numbers, params_left, undiscovered}
use linux_analysis.Upward.Fixed.{Fixed, upward_total}
use linux_analysis.Upward.Closed.{IsClosed}
use linux_analysis.Upward.Passed.{Fixed-IsClosed}
use linux_analysis.Search.{search, search_closed}
use linux_analysis.Run.{goes_upward, run}

length-numbers : (ir : Ir) (vs : List Value) → length (numbers ir vs) ≡ length vs
length-numbers ir [] = refl
length-numbers ir (v ∷ vs) = ap suc (length-numbers ir vs)

params_left-le :
    (ns : List ℕ) (m : Map (List ℕ)) (fs : List Function)
    → params_left ns m fs ≤ length fs * length ns
unfolding params_left
params_left-le ns m [] = omega arith
params_left-le ns m (f ∷ fs) =
    grind (arith, missing-le ns (or_nothing (lookup f m)), params_left-le ns m fs)

undiscovered-le :
    (ir : Ir) (s : State)
    → undiscovered ir s ≤ length ir.functions + length ir.functions * length ir.values
undiscovered-le ir s =
    let bound =
      params_left-le (numbers ir ir.values) s.functions_tainting_pointer_params ir.functions in
    omega (
      arith,
      missing-le ir.functions s.functions_returning_taint,
      rw (length-numbers ir ir.values) at bound,
    )

module _ (ir : Ir) (is_module : IsModule ir) (cfg : Config) where
  -- The upward search after a downward search that ended with nothing to do.
  pub upward_ends :
      (s : State)
      → s.worklist ≡ []
      → (t : State) × (upward ir
            (length ir.values)
            (suc (length ir.values + length s.tainted_pointers))
            (suc (length ir.functions + length ir.functions * length ir.values))
            []
            s
          ≡ some t)
        × Fixed ir is_module s t
  upward_ends s empty =
      upward_total ir is_module (ir.values ++ s.tainted_pointers) (length ir.values) _ _
        (λ x m. ground (arith, contains-append x ir.values s.tainted_pointers)) [] s
        (λ x m. ground (arith, contains-append x ir.values s.tainted_pointers))
        (rw empty (λ x m. cc)) (rw empty (omega (arith, missing-le ir.values s.tainted_values)))
        (omega (
          arith,
          missing-le (ir.values ++ s.tainted_pointers) [],
          length-append ir.values s.tainted_pointers,
        ))
        (omega (arith, undiscovered-le ir s)) (record { inside = λ x m. cc; reached = λ p i m. cc })

  pub run_down :
      (s : State) → search ir cfg ≡ some s → goes_upward cfg s ≡ false → run ir cfg ≡ some s
  unfolding run
  run_down s e down = rw e (rw down refl)

  pub run_up :
      (s t : State)
      → search ir cfg ≡ some s
      → goes_upward cfg s ≡ true
      → upward ir
          (length ir.values)
          (suc (length ir.values + length s.tainted_pointers))
          (suc (length ir.functions + length ir.functions * length ir.values))
          []
          s
        ≡ some t
      → run ir cfg ≡ some t
  unfolding run
  run_up s t e up ends = rw e (rw up ends)

  -- On every module, with every configuration, the analysis ends, and it keeps what seeding
  -- tainted.
  pub run_total :
      (t : State) × (run ir cfg ≡ some t) × ((seeds ir cfg).state.tainted_values ⊆ t.tainted_values)
  run_total =
      let (s, e, empty, kept, _) = search_closed ir cfg is_module in
      elim (Bool-cases (goes_upward cfg s)) [
        | inr down ↦ (s, run_down s e down, kept)
        | inl up ↦
            let (t, ends, fixed) = upward_ends s empty in
            (t, run_up s t e up ends, λ x m. fixed.follows.tainted x (kept x m))
      ]

  is_empty-eq : {A : Type 0} (xs : List A) → is_empty xs ≡ true → xs ≡ []
  is_empty-eq [] e = refl
  is_empty-eq (x ∷ xs) e = cc

  none_discovered :
      (s : State) → cfg.upward_interproc_mode ≡ true → goes_upward cfg s ≡ false → IsClosed ir s
  unfolding lookup
  none_discovered s on down =
      let returning : s.functions_returning_taint ≡ [] =
        is_empty-eq s.functions_returning_taint (ground (arith, rw on at down)) in
      let params : s.functions_tainting_pointer_params ≡ [] =
        is_empty-eq s.functions_tainting_pointer_params (ground (arith, rw on at down)) in
      record {
        returned = λ f i c m call. cc (rw returning at m);
        passed = λ f g n i c arg p m call here origin within. cc (rw (params, lookup) at m);
        addressed = λ f n i c arg x m call here free var. cc (rw (params, lookup) at m);
      }

  -- With the upward mode on, on every module, the analysis ends with an empty worklist, and then:
  -- every direct call of a function that returns taint is tainted; and at every direct call of a
  -- function that taints a parameter, if a pointer parameter is the origin of the argument there it
  -- is known as a tainted parameter of the function of the call, and if none is and the argument is
  -- an alloca or a GEP, the alloca, or the base of the GEP without casts, is a tainted pointer. Of
  -- an argument of another kind, such as a global, nothing is stated.
  pub run-IsClosed :
      cfg.upward_interproc_mode ≡ true
      → (t : State) × (run ir cfg ≡ some t) × (t.worklist ≡ []) × IsClosed ir t
  run-IsClosed on =
      let (s, e, empty, _, _) = search_closed ir cfg is_module in
      elim (Bool-cases (goes_upward cfg s)) [
        | inr down ↦ (s, run_down s e down, empty, none_discovered s on down)
        | inl up ↦
            let (t, ends, fixed) = upward_ends s empty in
            (t, run_up s t e up ends, fixed.settled.empty, Fixed-IsClosed ir is_module s t fixed)
      ]
