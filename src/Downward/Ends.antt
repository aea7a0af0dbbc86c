-- ===== src/Downward/Ends.antt =====
-- The loops of the downward search end.
use linux_analysis.Prelude.{
  ℕ, zero, suc, ◌≤◌, ◌<◌, ◌≡◌, refl, ◌∙◌, ◌⊎◌, inl, inr, Bool, true, false, Option, some, List, [],
  ◌∷◌, foldl, flat_map, Map, contains, insert_new, sort, ◌∈◌, ◌⊆◌, Bool-cases, Option-cases,
  List-cases, contains-append, if◌then◌else◌, if_true, if_false, arith,
}
use linux_analysis.Llvm.{
  Ir, Value, Function, IsModule, as_store, as_load, defined_instructions, defined_functions,
  function_instructions,
}
use linux_analysis.State.{Config, State}
use linux_analysis.Level.{ensure_level_set}
use linux_analysis.Provenance.Ends.{subset_head, subset_tail}
use linux_analysis.Loads.{
  matches_pointer, kill_check, is_load_before_taint_origin, taint_load, scan_load, scan_pointer,
  scan_loads_from_tainted_pointers,
}
use linux_analysis.Downward.{
  pop, process, drain, identify_kill, identify_kill_stores, unscanned, scan_round, scanned_after,
  downward,
}
use linux_analysis.Downward.Progress.{
  left, potential, left-push, Grows, Grows-trans, Grows-same, Grows-push, process-Grows,
}

module _ (ir : Ir) (is_module : IsModule ir) (cfg : Config) (targets : Map (List Function)) where
  pop-potential :
      (s : State) (v : Value) (rest : List Value)
      → s.worklist ≡ v ∷ rest
      → suc (potential ir.values (pop s rest)) ≡ potential ir.values s
  pop-potential s v rest e = rw e (omega arith)

  -- The worklist empties when each value that waits or is not tainted yet has a unit of fuel.
  pub drain_total :
      (fuel : ℕ) (s : State)
      → s.worklist ⊆ ir.values
      → potential ir.values s ≤ fuel
      → (t : State) × (drain ir cfg targets fuel s ≡ some t) × Grows ir.values s t
  unfolding drain
  drain_total zero s sub h = elim (List-cases s.worklist) [
    | inl e ↦ (s, simp (e, drain), Grows-same ir.values s s refl refl refl refl)
    | inr (v, rest, e) ↦ absurd (omega (arith, pop-potential s v rest e))
  ]
  drain_total (suc n) s sub h = elim (List-cases s.worklist) [
    | inl e ↦ (s, simp (e, drain), Grows-same ir.values s s refl refl refl refl)
    | inr (v, rest, e) ↦
        let sub' = rw e at sub in
        let g = process-Grows ir is_module cfg targets v (pop s rest) (subset_head v rest _ sub') in
        let less = pop-potential s v rest e in
        let (t, run, g') =
          drain_total n (process ir cfg targets v (pop s rest))
            (g.inside (subset_tail v rest _ sub')) (omega (arith, g.stack)) in
        let g'' = Grows-trans ir.values (pop s rest) _ t g g' in
        (
          t,
          rw (e, drain) run,
          record {
            stack = omega (arith, g''.stack);
            values = g''.values;
            pointers = g''.pointers;
            inside = λ _. g''.inside (subset_tail v rest _ sub');
            progress = g''.progress;
          },
        )
  ]

-- A step of a scan, which keeps its own flag.
record Scans (all : List Value) (a b : State × Bool) : Type 0 where
  grows : Grows all a.0 b.0
  flag : (b.0).changed ≡ (a.0).changed
  found : (b.1 ≡ a.1) ⊎ (left all b.0 < left all a.0)

module _ (ir : Ir) (is_module : IsModule ir) where
  Scans-refl : (a : State × Bool) → Scans ir.values a a
  Scans-refl a = record {
    grows = Grows-same ir.values a.0 a.0 refl refl refl refl;
    flag = refl;
    found = inl refl;
  }

  Scans-trans :
      (a b c : State × Bool) → Scans ir.values a b → Scans ir.values b c → Scans ir.values a c
  Scans-trans a b c f g = record {
    grows = Grows-trans ir.values a.0 b.0 c.0 f.grows g.grows;
    flag = g.flag ∙ f.flag;
    found = elim f.found [
      | inr less ↦ inr (omega (arith, g.grows.values, g.grows.pointers))
      | inl same ↦ elim g.found [
        | inr less ↦ inr (omega (arith, f.grows.values, f.grows.pointers))
        | inl same' ↦ inl (same' ∙ same)
      ]
    ];
  }

  scan_load-Scans :
      (killed : Option (List Value)) (ptr : Value) (a : State × Bool) (i : Value)
      → i ∈ ir.values
      → Scans ir.values a (scan_load ir killed ptr a i)
  unfolding scan_load taint_load ensure_level_set
  scan_load-Scans killed ptr a i m = elim (Option-cases (as_load (ir.kind i))) [
    | inl e ↦ rw (e, scan_load) (Scans-refl a)
    | inr (p, e) ↦
        rw (e, scan_load)
          (elim (Bool-cases (matches_pointer ir (ir.strip_pointer_casts p) ptr)) [
            | inr b ↦ rw b (Scans-refl a)
            | inl b ↦ rw b (elim (Bool-cases (contains i (a.0).tainted_values)) [
              | inl c ↦ rw c (Scans-refl a)
              | inr c ↦ rw c (elim (Bool-cases (kill_check ir i ptr killed)) [
                | inl d ↦ rw d (skipped a)
                | inr d ↦ rw d (elim (Bool-cases (is_load_before_taint_origin ir a.0 i ptr)) [
                  | inl f ↦ rw f (skipped a)
                  | inr f ↦ rw f (loaded a c)
                ])
              ])
            ])
          ])
  ]
    where
      skipped : (a : State × Bool) → Scans ir.values a (ensure_level_set ir i a.0, a.1)
      skipped a = record {
        grows = Grows-same ir.values a.0 _ refl refl refl refl;
        flag = refl;
        found = inl refl;
      }

      loaded :
          (a : State × Bool)
          → contains i (a.0).tainted_values ≡ false
          → Scans ir.values a (taint_load ir i a.0, true)
      loaded a new =
          let g =
            Grows-push ir.values i a.0 (taint_load ir i a.0) m new (insert_new i _ new) refl refl in
          record {
            grows = g;
            flag = refl;
            found =
                inr
                  (left-push ir.values i a.0 (taint_load ir i a.0) m new (insert_new i _ new) refl);
          }

  scan_instructions-Scans :
      (killed : Option (List Value)) (ptr : Value) (is : List Value) (a : State × Bool)
      → is ⊆ ir.values
      → Scans ir.values a (foldl (scan_load ir killed ptr) a is)
  scan_instructions-Scans killed ptr [] a sub = Scans-refl a
  scan_instructions-Scans killed ptr (i ∷ is) a sub =
      Scans-trans a _ _ (scan_load-Scans killed ptr a i (subset_head i is _ sub))
        (scan_instructions-Scans killed ptr is _ (subset_tail i is _ sub))

  pub block_instructions-mem : (bs : List Value) → flat_map ir.instructions bs ⊆ ir.values
  block_instructions-mem [] x m = cc
  block_instructions-mem (b ∷ bs) x m = elim (Bool-cases (contains x (ir.instructions b))) [
    | inl here ↦ is_module.instructions_mem b x here
    | inr there ↦
        block_instructions-mem bs x
          (ground (arith, contains-append x (ir.instructions b) (flat_map ir.instructions bs)))
  ]

  function_instructions-mem :
      (fs : List Function) → flat_map (function_instructions ir) fs ⊆ ir.values
  function_instructions-mem [] x m = cc
  function_instructions-mem (f ∷ fs) x m =
      elim (Bool-cases (contains x (function_instructions ir f))) [
        | inl here ↦ block_instructions-mem (ir.blocks f) x here
        | inr there ↦ function_instructions-mem fs x (
            ground (
              arith,
              contains-append x (function_instructions ir f)
                  (flat_map (function_instructions ir) fs),
            ))
      ]

  pub defined_instructions-mem : defined_instructions ir ⊆ ir.values
  defined_instructions-mem = function_instructions-mem (defined_functions ir ir.functions)

  scan_pointers-Scans :
      (killed : Option (List Value)) (ptrs : List Value) (a : State × Bool)
      → Scans ir.values a (foldl (scan_pointer ir killed) a ptrs)
  unfolding scan_pointer
  scan_pointers-Scans killed [] a = Scans-refl a
  scan_pointers-Scans killed (p ∷ ps) a =
      Scans-trans a _ _
        (scan_instructions-Scans killed p (defined_instructions ir) a defined_instructions-mem)
        (scan_pointers-Scans killed ps _)

  identify_kills-Grows :
      (is : List Value) (s : State)
      → Scans ir.values (s, false) (foldl (identify_kill ir) s is, false)
  unfolding identify_kill
  identify_kills-Grows [] s = Scans-refl (s, false)
  identify_kills-Grows (i ∷ is) s =
      Scans-trans (s, false) (identify_kill ir s i, false) _ first (identify_kills-Grows is _)
    where
      changed_kills :
          (b : Bool) (ks : List Value)
          → Scans ir.values (s, false) (if b then record s { killed_stores = ks } else s, false)
      changed_kills true ks = record {
        grows = Grows-same ir.values s _ refl refl refl refl;
        flag = refl;
        found = inl refl;
      }
      changed_kills false ks = Scans-refl (s, false)

      first : Scans ir.values (s, false) (identify_kill ir s i, false)
      first = elim (Option-cases (as_store (ir.kind i))) [
        | inl e ↦ rw (e, identify_kill) (Scans-refl (s, false))
        | inr (st, e) ↦ rw (e, identify_kill) (changed_kills _ _)
      ]

  -- A round's scan says that it found a load only if it tainted one.
  pub scan_round-Grows :
      (scanned : List Value) (s : State) → Grows ir.values s (scan_round ir scanned s)
  unfolding scan_round identify_kill_stores scan_loads_from_tainted_pointers
  scan_round-Grows scanned s = record {
    stack = w.grows.stack;
    values = w.grows.values;
    pointers = w.grows.pointers;
    inside = w.grows.inside;
    progress = ground (arith, w.found, w.flag);
  }
    where
      s' : State
      s' = foldl (identify_kill ir) s (defined_instructions ir)

      w :
          Scans ir.values
            (s, false)
            (foldl
              (scan_pointer ir (some s'.killed_stores))
              (s', false)
              (unscanned scanned (sort s'.tainted_pointers)))
      w =
          Scans-trans (s, false) (s', false) _ (identify_kills-Grows (defined_instructions ir) s)
            (scan_pointers-Scans (some s'.killed_stores)
              (unscanned scanned (sort s'.tainted_pointers)) (s', false))

  module _ (cfg : Config) (targets : Map (List Function)) (work : ℕ) where
    pub round_stops :
        (rounds : ℕ) (scanned : List Value) (s t : State)
        → drain ir cfg targets work (record s { changed = false }) ≡ some t
        → (scan_round ir scanned t).changed ≡ false
        → downward ir cfg targets work (suc rounds) scanned s ≡ some (scan_round ir scanned t)
    unfolding downward
    round_stops rounds scanned s t run stop = rw run (if_false _ _ _ stop)

    pub round_continues :
        (rounds : ℕ) (scanned : List Value) (s t : State)
        → drain ir cfg targets work (record s { changed = false }) ≡ some t
        → (scan_round ir scanned t).changed ≡ true
        → downward ir cfg targets work (suc rounds) scanned s
          ≡ downward ir cfg targets work rounds
              (scanned_after ir scanned t)
              (scan_round ir scanned t)
    unfolding downward
    round_continues rounds scanned s t run more = rw run (if_true _ _ _ more)

    -- With a unit of work for each value that waits or is left to taint, and a round for each
    -- value and pointer left to taint and one more, the downward search returns.
    pub downward_total :
        (rounds : ℕ) (scanned : List Value) (s : State)
        → s.worklist ⊆ ir.values
        → potential ir.values s ≤ work
        → left ir.values s < rounds
        → (t : State) × (downward ir cfg targets work rounds scanned s ≡ some t)
    unfolding downward
    downward_total zero scanned s sub h r = absurd (omega arith)
    downward_total (suc rounds) scanned s sub h r =
        let (t, run, g) =
          drain_total ir is_module cfg targets work (record s { changed = false }) sub h in
        let g' =
          Grows-trans ir.values (record s { changed = false }) t (scan_round ir scanned t) g
            (scan_round-Grows scanned t) in
        elim (Bool-cases (scan_round ir scanned t).changed) [
          | inr stop ↦ (scan_round ir scanned t, round_stops rounds scanned s t run stop)
          | inl more ↦
              let less : left ir.values (scan_round ir scanned t) < left ir.values s =
                elim g'.progress [ inl same ↦ cc | inr l ↦ l ] in
              let (u, rest) =
                downward_total rounds (scanned_after ir scanned t) (scan_round ir scanned t)
                  (g'.inside sub) (omega (arith, g'.stack)) (omega (arith, less)) in
              (u, round_continues rounds scanned s t run more ∙ rest)
        ]
