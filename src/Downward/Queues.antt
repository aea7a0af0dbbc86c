-- ===== src/Downward/Queues.antt =====
-- A round of the scan for loads puts on the worklist what it taints, and says so.
use linux_analysis.Prelude.{
  ◌≡◌, refl, ◌∙◌, inl, inr, Bool, true, false, ◌||◌, ◌⊎◌, Option, some, List, [], ◌∷◌, foldl,
  contains, ◌∈◌, ◌⊆◌, insert_new, sort, Bool-cases, Option-cases, if◌then◌else◌, arith,
}
use linux_analysis.Llvm.{Ir, Value, as_load, as_store, defined_instructions}
use linux_analysis.State.{State}
use linux_analysis.Level.{ensure_level_set}
use linux_analysis.Loads.{
  matches_pointer, kill_check, is_load_before_taint_origin, taint_load, scan_load, scan_pointer,
  scan_loads_from_tainted_pointers,
}
use linux_analysis.Downward.{identify_kill, identify_kill_stores, unscanned, scan_round}

-- The values that `b` has tainted since `a` all wait, and the flag tells of them.
pub record Queues (a b : State × Bool) : Type 0 where
  pub tainted : (a.0).tainted_values ⊆ (b.0).tainted_values
  pub stacked : (a.0).worklist ⊆ (b.0).worklist
  pub waiting :
      (x : Value)
      → x ∈ (b.0).tainted_values
      → contains x (a.0).tainted_values ≡ false
      → x ∈ (b.0).worklist
  pub inside :
      (x : Value)
      → x ∈ (b.0).worklist
      → contains x (a.0).worklist ≡ false
      → x ∈ (b.0).tainted_values
  pub flag : (b.1 ≡ true) ⊎ ((b.1 ≡ a.1) × ((b.0).worklist ≡ (a.0).worklist))

Queues-same :
    (a b : State × Bool)
    → (b.0).tainted_values ≡ (a.0).tainted_values
    → (b.0).worklist ≡ (a.0).worklist
    → b.1 ≡ a.1
    → Queues a b
Queues-same a b e f g = record {
  tainted = λ x m. rw e m;
  stacked = λ x m. rw f m;
  waiting = λ x m new. let old = rw e at m in cc;
  inside = λ x m new. let old = rw f at m in cc;
  flag = inr (g, f);
}

Queues-trans : (a b c : State × Bool) → Queues a b → Queues b c → Queues a c
Queues-trans a b c f g = record {
  tainted = λ x m. g.tainted x (f.tainted x m);
  stacked = λ x m. g.stacked x (f.stacked x m);
  waiting = λ x m new. elim (Bool-cases (contains x (b.0).tainted_values)) [
    | inl old ↦ g.stacked x (f.waiting x old new)
    | inr new' ↦ g.waiting x m new'
  ];
  inside = λ x m new. elim (Bool-cases (contains x (b.0).worklist)) [
    | inl old ↦ g.tainted x (f.inside x old new)
    | inr new' ↦ g.inside x m new'
  ];
  flag = elim g.flag [
    | inl found ↦ inl found
    | inr (same, stack) ↦ elim f.flag [
      | inl found ↦ inl (same ∙ found)
      | inr (same', stack') ↦ inr (same ∙ same', stack ∙ stack')
    ]
  ];
}

either_flag :
    {P : Type 0} (b found : Bool)
    → (found ≡ true) ⊎ ((found ≡ false) × P)
    → ((b || found) ≡ true) ⊎ (((b || found) ≡ false) × P)
either_flag true found h = inl refl
either_flag false found h = h

module _ (ir : Ir) where
  taint_load-Queues :
      (a : State × Bool) (i : Value)
      → contains i (a.0).tainted_values ≡ false
      → Queues a (taint_load ir i a.0, true)
  unfolding taint_load ensure_level_set
  taint_load-Queues a i new = record {
    tainted = λ x m. rw (insert_new i _ new) (ground arith);
    stacked = λ x m. ground arith;
    waiting = λ x m fresh. let m' = rw (insert_new i _ new) at m in ground arith;
    inside = λ x m fresh. rw (insert_new i _ new) (ground arith);
    flag = inl refl;
  }

  pub scan_load-Queues :
      (killed : Option (List Value)) (ptr : Value) (a : State × Bool) (i : Value)
      → Queues a (scan_load ir killed ptr a i)
  unfolding scan_load ensure_level_set
  scan_load-Queues killed ptr a i = elim (Option-cases (as_load (ir.kind i))) [
    | inl e ↦ rw (e, scan_load) (Queues-same a a refl refl refl)
    | inr (p, e) ↦
        rw (e, scan_load)
          (elim (Bool-cases (matches_pointer ir (ir.strip_pointer_casts p) ptr)) [
            | inr b ↦ rw b (Queues-same a a refl refl refl)
            | inl b ↦ rw b (elim (Bool-cases (contains i (a.0).tainted_values)) [
              | inl c ↦ rw c (Queues-same a a refl refl refl)
              | inr c ↦ rw c (elim (Bool-cases (kill_check ir i ptr killed)) [
                | inl d ↦ rw d (Queues-same a _ refl refl refl)
                | inr d ↦ rw d (elim (Bool-cases (is_load_before_taint_origin ir a.0 i ptr)) [
                  | inl f ↦ rw f (Queues-same a _ refl refl refl)
                  | inr f ↦ rw f (taint_load-Queues a i c)
                ])
              ])
            ])
          ])
  ]

  scan_instructions-Queues :
      (killed : Option (List Value)) (ptr : Value) (is : List Value) (a : State × Bool)
      → Queues a (foldl (scan_load ir killed ptr) a is)
  scan_instructions-Queues killed ptr [] a = Queues-same a a refl refl refl
  scan_instructions-Queues killed ptr (i ∷ is) a =
      Queues-trans a _ _ (scan_load-Queues killed ptr a i)
        (scan_instructions-Queues killed ptr is _)

  scan_pointers-Queues :
      (killed : Option (List Value)) (ptrs : List Value) (a : State × Bool)
      → Queues a (foldl (scan_pointer ir killed) a ptrs)
  unfolding scan_pointer
  scan_pointers-Queues killed [] a = Queues-same a a refl refl refl
  scan_pointers-Queues killed (p ∷ ps) a =
      Queues-trans a _ _ (scan_instructions-Queues killed p (defined_instructions ir) a)
        (scan_pointers-Queues killed ps _)

  identify_kills-Queues :
      (is : List Value) (s : State) → Queues (s, false) (foldl (identify_kill ir) s is, false)
  unfolding identify_kill
  identify_kills-Queues [] s = Queues-same (s, false) (s, false) refl refl refl
  identify_kills-Queues (i ∷ is) s =
      Queues-trans (s, false) (identify_kill ir s i, false) _ first (identify_kills-Queues is _)
    where
      killed :
          (b : Bool) (ks : List Value)
          → Queues (s, false) (if b then record s { killed_stores = ks } else s, false)
      killed true ks = Queues-same (s, false) _ refl refl refl
      killed false ks = Queues-same (s, false) _ refl refl refl

      first : Queues (s, false) (identify_kill ir s i, false)
      first = elim (Option-cases (as_store (ir.kind i))) [
        | inl e ↦ rw (e, identify_kill) (Queues-same (s, false) (s, false) refl refl refl)
        | inr (st, e) ↦ rw (e, identify_kill) (killed _ _)
      ]

  -- A round leaves `changed` false only if it has queued nothing.
  pub scan_round-Queues :
      (scanned : List Value) (s : State)
      → Queues (s, false) (scan_round ir scanned s, (scan_round ir scanned s).changed)
  unfolding scan_round identify_kill_stores scan_loads_from_tainted_pointers
  scan_round-Queues scanned s = record {
    tainted = w.tainted;
    stacked = w.stacked;
    waiting = w.waiting;
    inside = w.inside;
    flag = either_flag _ _ w.flag;
  }
    where
      s' : State
      s' = foldl (identify_kill ir) s (defined_instructions ir)

      w :
          Queues
            (s, false)
            (foldl
              (scan_pointer ir (some s'.killed_stores))
              (s', false)
              (unscanned scanned (sort s'.tainted_pointers)))
      w =
          Queues-trans (s, false) (s', false) _ (identify_kills-Queues (defined_instructions ir) s)
            (scan_pointers-Queues (some s'.killed_stores)
              (unscanned scanned (sort s'.tainted_pointers)) (s', false))
