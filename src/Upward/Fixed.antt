-- ===== src/Upward/Fixed.antt =====
-- The iterations of the upward search end, and with one that discovers nothing.
use linux_analysis.Prelude.{
  contains-append, ◌++◌, sym, ℕ, zero, suc, ◌≤◌, ◌<◌, ◌≡◌, refl, ap, ◌∙◌, inl, inr, Bool, true,
  false, some, List, missing, missing_mono, ◌⊆◌, arith,
}
use linux_analysis.Llvm.{Ir, Value, IsModule}
use linux_analysis.State.{State}
use linux_analysis.Downward.Progress.{potential}
use linux_analysis.Upward.{
  Discovery, settle, taint_returning_calls, taint_passed_pointers, iteration, upward,
}
use linux_analysis.Upward.Discoveries.{undiscovered}
use linux_analysis.Upward.Climbs.{Climbs, Climbs-trans}
use linux_analysis.Upward.Callers.{taint_returning_calls-Moves}
use linux_analysis.Upward.Arguments.{taint_passed_pointers-Moves}
use linux_analysis.Upward.Moves.{Moves, Moves-trans}
use linux_analysis.Upward.Flows.{
  Follows, Follows-trans, Waits-Follows, IsScanned, IsScanned-Follows,
}
use linux_analysis.Upward.Ends.{Settled, settle_total, grown_flag}

module _ (ir : Ir) (is_module : IsModule ir) where
  -- The visits of all callers.
  callers-Moves :
      (s : State) → Moves ir (s, false) (taint_passed_pointers ir (taint_returning_calls ir s))
  callers-Moves s =
      Moves-trans ir (s, false) (taint_returning_calls ir s, false) _
        (taint_returning_calls-Moves ir is_module s false)
        (taint_passed_pointers-Moves ir is_module (taint_returning_calls ir s))

  callers-Follows :
      (s : State) → Follows ir s (taint_passed_pointers ir (taint_returning_calls ir s)).0
  callers-Follows s = Waits-Follows ir s _ (callers-Moves s).waits

  -- The flag after an iteration says whether its own steps discovered something: the comparison
  -- of the sizes never changes it.
  iteration_flag :
      (work rounds : ℕ) (scanned seen : List Value) (s : State) (b : Discovery)
      → settle ir work rounds scanned (taint_passed_pointers ir (taint_returning_calls ir s))
        ≡ some (seen, b)
      → Climbs ir (s, false) b
      → iteration ir work rounds scanned s ≡ some (seen, b)
  unfolding iteration
  iteration_flag work rounds scanned seen s b run c =
      rw run (ap (λ (f : Bool). some (seen, (b.0, f))) (grown_flag ir s b.0 b.1 c.finds))

  pub iteration_total :
      (all : List Value) (work rounds : ℕ) (scanned : List Value) (s : State)
      → ir.values ⊆ all
      → s.tainted_pointers ⊆ all
      → s.worklist ⊆ ir.values
      → potential ir.values s ≤ work
      → missing all scanned < rounds
      → (seen : List Value) × (b : Discovery) × (iteration ir work rounds scanned s
          ≡ some (seen, b))
        × Settled ir is_module scanned
            (taint_passed_pointers ir (taint_returning_calls ir s))
            seen
            b
        × Climbs ir (s, false) b
  iteration_total all work rounds scanned s inside pointers sub h r =
      let c = (callers-Moves s).climbs in
      let (seen, b, run, done) =
        settle_total ir is_module all work rounds scanned
          (taint_passed_pointers ir (taint_returning_calls ir s)) inside
          (c.bounded all inside pointers) (c.inside sub) (omega (arith, c.stack)) r in
      let whole = Climbs-trans ir (s, false) _ b c done.climbs in
      (seen, b, iteration_flag work rounds scanned seen s b run whole, done, whole)

  -- The comparison of the sizes before and after an iteration changes nothing: an iteration is
  -- the visits of the callers and the inner loop, whose own flag says already whether a function
  -- was discovered. This is with enough fuel for the inner loop, from values of the module.
  pub iteration-settle :
      (work rounds : ℕ) (scanned : List Value) (s : State)
      → s.worklist ⊆ ir.values
      → potential ir.values s ≤ work
      → missing (ir.values ++ s.tainted_pointers) scanned < rounds
      → iteration ir work rounds scanned s
        ≡ settle ir work rounds scanned (taint_passed_pointers ir (taint_returning_calls ir s))
  iteration-settle work rounds scanned s sub h r =
      let c = (callers-Moves s).climbs in
      let all = ir.values ++ s.tainted_pointers in
      let (seen, b, run, done) =
        settle_total ir is_module all work rounds scanned
          (taint_passed_pointers ir (taint_returning_calls ir s))
          (λ x m. ground (arith, contains-append x ir.values s.tainted_pointers))
          (c.bounded all (λ x m. ground (arith, contains-append x ir.values s.tainted_pointers))
            (λ x m. ground (arith, contains-append x ir.values s.tainted_pointers)))
          (c.inside sub) (omega (arith, c.stack)) r in
      iteration_flag work rounds scanned seen s b run (Climbs-trans ir (s, false) _ b c done.climbs)
      ∙ sym run

  -- The state `t` that the search ends with: the last iteration starts from `last` and discovers
  -- nothing.
  pub record Fixed (s t : State) : Type 0 where
    pub last : State
    pub before : List Value
    pub seen : List Value
    pub settled :
        Settled ir is_module before
          (taint_passed_pointers ir (taint_returning_calls ir last))
          seen
          (t, false)
    pub still : Climbs ir (last, false) (t, false)
    pub follows : Follows ir s t
    pub scans : IsScanned ir seen t

  upward_stops :
      (work rounds fuel : ℕ) (scanned seen : List Value) (s t : State)
      → iteration ir work rounds scanned s ≡ some (seen, (t, false))
      → upward ir work rounds (suc fuel) scanned s ≡ some t
  unfolding upward
  upward_stops work rounds fuel scanned seen s t run = rw run refl

  upward_continues :
      (work rounds fuel : ℕ) (scanned seen : List Value) (s t : State)
      → iteration ir work rounds scanned s ≡ some (seen, (t, true))
      → upward ir work rounds (suc fuel) scanned s ≡ upward ir work rounds fuel seen t
  unfolding upward
  upward_continues work rounds fuel scanned seen s t run = rw run refl

  -- What an iteration follows and scans.
  iteration-IsScanned :
      (scanned seen : List Value) (s : State) (b : Discovery)
      → Settled ir is_module scanned (taint_passed_pointers ir (taint_returning_calls ir s)) seen b
      → IsScanned ir scanned s
      → Follows ir s b.0 × IsScanned ir seen b.0
  iteration-IsScanned scanned seen s b done h = (
    Follows-trans ir s _ b.0 (callers-Follows s) done.follows,
    done.scans (IsScanned-Follows ir scanned s _ (callers-Follows s) h),
  )

  -- The search ends with fuel for each function and parameter that is left to discover.
  abbrev EndsWith : List Value → ℕ → ℕ → ℕ → Type 0
  EndsWith all work rounds fuel =
      (scanned : List Value) (s : State)
      → s.tainted_pointers ⊆ all
      → s.worklist ⊆ ir.values
      → potential ir.values s ≤ work
      → missing all scanned < rounds
      → undiscovered ir s < fuel
      → IsScanned ir scanned s
      → (t : State) × (upward ir work rounds fuel scanned s ≡ some t) × Fixed s t

  after_iteration :
      (all : List Value) (work rounds fuel : ℕ) (scanned seen : List Value) (s t : State)
      (found : Bool)
      → EndsWith all work rounds fuel
      → s.worklist ⊆ ir.values
      → potential ir.values s ≤ work
      → missing all scanned < rounds
      → undiscovered ir s < suc fuel
      → IsScanned ir scanned s
      → t.tainted_pointers ⊆ all
      → iteration ir work rounds scanned s ≡ some (seen, (t, found))
      → Settled ir is_module scanned
          (taint_passed_pointers ir (taint_returning_calls ir s))
          seen
          (t, found)
      → Climbs ir (s, false) (t, found)
      → (t : State) × (upward ir work rounds (suc fuel) scanned s ≡ some t) × Fixed s t
  after_iteration all work rounds fuel scanned seen s t false rec sub h r u before pointers run done
        whole =
      let (follows, scans) = iteration-IsScanned scanned seen s (t, false) done before in
      (
        t,
        upward_stops work rounds fuel scanned seen s t run,
        record {
          last = s;
          before = scanned;
          seen = seen;
          settled = done;
          still = whole;
          follows = follows;
          scans = scans;
        },
      )
  after_iteration all work rounds fuel scanned seen s t true rec sub h r u before pointers run done
        whole =
      let less : undiscovered ir t < undiscovered ir s = elim whole.finds [
        | inl (_, l, _) ↦ l
        | inr (e, _, _) ↦ cc
      ] in
      let (follows, scans) = iteration-IsScanned scanned seen s (t, true) done before in
      let (t', run', fixed) =
        rec seen t pointers (whole.inside sub) (omega (arith, whole.stack))
          (omega (arith, missing_mono all scanned seen done.grown)) (omega (arith, less)) scans in
      (
        t',
        upward_continues work rounds fuel scanned seen s t run ∙ run',
        record {
          last = fixed.last;
          before = fixed.before;
          seen = fixed.seen;
          settled = fixed.settled;
          still = fixed.still;
          follows = Follows-trans ir s t t' follows fixed.follows;
          scans = fixed.scans;
        },
      )

  -- Each iteration but the last discovers a function or a parameter, so with an iteration for
  -- each of these and one more the search ends.
  pub upward_total :
      (all : List Value) (work rounds fuel : ℕ) → ir.values ⊆ all → EndsWith all work rounds fuel
  upward_total all work rounds zero inside scanned s pointers sub h r u before =
      absurd (omega arith)
  upward_total all work rounds (suc fuel) inside scanned s pointers sub h r u before =
      let (seen, (t, found), run, done, whole) =
        iteration_total all work rounds scanned s inside pointers sub h r in
      after_iteration all work rounds fuel scanned seen s t found
        (upward_total all work rounds fuel inside) sub h r u before
        (whole.bounded all inside pointers) run done whole
