-- ===== src/Upward/Ends.antt =====
-- The loops of the upward search end.
use linux_analysis.Prelude.{
  ℕ, zero, suc, ◌≤◌, ◌<◌, ◌≡◌, refl, ◌∙◌, inl, inr, Bool, true, false, ◌||◌, none, some, List, [],
  ◌∷◌, contains, contains-sort, insert, contains-insert, missing, missing_mono, missing-cons, sort,
  ◌∈◌, ◌⊆◌, ◌==◌, Bool-cases, List-cases, arith,
}
use linux_analysis.Llvm.{Ir, Value, IsModule}
use linux_analysis.State.{State}
use linux_analysis.Provenance.{◌>>=◌}
use linux_analysis.Provenance.Ends.{subset_head, subset_tail}
use linux_analysis.Downward.{pop, unscanned, insert_all}
use linux_analysis.Downward.Progress.{potential}
use linux_analysis.Loads.{scan_loads_from_tainted_pointers}
use linux_analysis.Upward.{Discovery, process_upward, drain_upward, settle, has_grown}
use linux_analysis.Upward.Discoveries.{Finds}
use linux_analysis.Upward.Climbs.{Climbs, Climbs-refl, Climbs-trans}
use linux_analysis.Upward.Uses.{process_upward-Moves, scan_loads-Moves}
use linux_analysis.Upward.Flows.{
  Follows, Follows-refl, Follows-trans, IsScanned, IsScanned-Follows, process_upward-Follows,
}
use linux_analysis.Upward.Scans.{scan_loads-Follows, scan_loads-IsScanned}

unscanned_none : (scanned ps : List Value) → unscanned scanned ps ≡ [] → ps ⊆ scanned
unfolding unscanned
unscanned_none scanned [] e x m = cc
unscanned_none scanned (p ∷ ps) e x m = elim (Bool-cases (contains p scanned)) [
  | inr new ↦ cc (rw new at e)
  | inl old ↦ elim (Bool-cases (x == p)) [
    | inl same ↦ let q : x ≡ p = ground arith in rw q old
    | inr other ↦ unscanned_none scanned ps (rw old at e) x (ground arith)
  ]
]

unscanned_head :
    (scanned ps : List Value) (p : Value) (rest : List Value)
    → unscanned scanned ps ≡ p ∷ rest
    → (p ∈ ps) × (contains p scanned ≡ false)
unfolding unscanned
unscanned_head scanned [] p rest e = cc
unscanned_head scanned (q ∷ ps) p rest e = elim (Bool-cases (contains q scanned)) [
  | inr new ↦
      let same : q ≡ p = ground (arith, rw new at e) in (rw same (ground arith), rw (← same) new)
  | inl old ↦ let (m, new) = unscanned_head scanned ps p rest (rw old at e) in (ground arith, new)
]

pub insert_all-subset : (xs set : List Value) → set ⊆ insert_all xs set
unfolding insert_all
insert_all-subset [] set x m = m
insert_all-subset (y ∷ xs) set x m =
    insert_all-subset xs (insert y set) x (ground (arith, contains-insert x y set))

insert_all-lt :
    (all : List Value) (p : Value) (ps scanned : List Value)
    → p ∈ all
    → contains p scanned ≡ false
    → missing all (insert_all (p ∷ ps) scanned) < missing all scanned
unfolding insert_all
insert_all-lt all p ps scanned m new = omega (
  arith,
  missing-cons all scanned p m new,
  missing_mono all (p ∷ scanned) (insert_all ps (insert p scanned)) (λ x h.
      insert_all-subset ps (insert p scanned) x (ground (arith, contains-insert x p scanned))),
)

-- Where nothing is discovered nothing has grown, so the comparison of the sizes adds nothing to
-- the flag.
pub grown_flag :
    (ir : Ir) (s t : State) (found : Bool)
    → Finds ir (s, false) (t, found)
    → (found || has_grown ir s t) ≡ found
grown_flag ir s t true h = refl
grown_flag ir s t false (inl (e, less, kept)) = cc
grown_flag ir s t false (inr (e, returning, params)) = rw (returning, params) (ground arith)

module _ (ir : Ir) (is_module : IsModule ir) where
  pop-Climbs :
      (a : Discovery) (v : Value) (rest : List Value)
      → a.0.worklist ≡ v ∷ rest
      → Climbs ir a (pop a.0 rest, a.1)
  pop-Climbs a v rest e = record {
    stack = rw e (omega arith);
    values = omega arith;
    inside = λ sub. subset_tail v rest ir.values (rw e at sub);
    tainted = λ x m. m;
    pointed = λ x m. m;
    bounded = λ all h m. m;
    finds = inr (refl, refl, refl);
  }

  pop-potential :
      (s : State) (v : Value) (rest : List Value)
      → s.worklist ≡ v ∷ rest
      → suc (potential ir.values (pop s rest)) ≡ potential ir.values s
  pop-potential s v rest e = rw e (omega arith)

  drain_upward_total :
      (fuel : ℕ) (a : Discovery)
      → a.0.worklist ⊆ ir.values
      → potential ir.values a.0 ≤ fuel
      → (b : Discovery) × (drain_upward ir fuel a ≡ some b)
        × Climbs ir a b
        × Follows ir a.0 b.0
        × (b.0.worklist ≡ [])
  unfolding drain_upward
  drain_upward_total zero a sub h = elim (List-cases a.0.worklist) [
    | inl e ↦ (a, simp (e, drain_upward), Climbs-refl ir a, Follows-refl ir a.0, e)
    | inr (v, rest, e) ↦ absurd (omega (arith, pop-potential a.0 v rest e))
  ]
  drain_upward_total (suc n) a sub h = elim (List-cases a.0.worklist) [
    | inl e ↦ (a, simp (e, drain_upward), Climbs-refl ir a, Follows-refl ir a.0, e)
    | inr (v, rest, e) ↦
        let sub' = rw e at sub in
        let popped = pop-Climbs a v rest e in
        let c =
          (process_upward-Moves ir is_module v (pop a.0 rest, a.1)
            (subset_head v rest _ sub')).climbs in
        let less = pop-potential a.0 v rest e in
        let (b, run, c', f, empty) =
          drain_upward_total n (process_upward ir v (pop a.0 rest, a.1))
            (c.inside (popped.inside sub)) (omega (arith, c.stack)) in
        (
          b,
          rw (e, drain_upward) run,
          Climbs-trans ir a _ b popped (Climbs-trans ir (pop a.0 rest, a.1) _ b c c'),
          Follows-trans ir a.0 _ b.0
              (process_upward-Follows ir is_module a v rest (subset_head v rest _ sub') e) f,
          empty,
        )
  ]

  settle_stops :
      (work rounds : ℕ) (scanned : List Value) (a b : Discovery)
      → drain_upward ir work a ≡ some b
      → unscanned scanned (sort b.0.tainted_pointers) ≡ []
      → settle ir work (suc rounds) scanned a ≡ some (scanned, b)
  unfolding settle
  settle_stops work rounds scanned a b run e = rw run (rw (e, settle, ◌>>=◌) refl)

  settle_continues :
      (work rounds : ℕ) (scanned : List Value) (a b : Discovery) (p : Value) (ps : List Value)
      → drain_upward ir work a ≡ some b
      → unscanned scanned (sort b.0.tainted_pointers) ≡ p ∷ ps
      → settle ir work (suc rounds) scanned a
        ≡ settle ir work rounds
            (insert_all (p ∷ ps) scanned)
            ((scan_loads_from_tainted_pointers ir (p ∷ ps) none b.0).0, b.1)
  unfolding settle
  settle_continues work rounds scanned a b p ps run e = rw run (rw (e, settle, ◌>>=◌) refl)

  -- What the inner loop ends with: no work, and all tainted pointers scanned.
  pub record Settled (scanned : List Value) (a : Discovery) (seen : List Value) (b : Discovery)
      : Type 0 where
    pub climbs : Climbs ir a b
    pub follows : Follows ir a.0 b.0
    pub scans : IsScanned ir scanned a.0 → IsScanned ir seen b.0
    pub empty : b.0.worklist ≡ []
    pub all_scanned : b.0.tainted_pointers ⊆ seen
    pub grown : scanned ⊆ seen

  pub settle_total :
      (all : List Value) (work rounds : ℕ) (scanned : List Value) (a : Discovery)
      → ir.values ⊆ all
      → a.0.tainted_pointers ⊆ all
      → a.0.worklist ⊆ ir.values
      → potential ir.values a.0 ≤ work
      → missing all scanned < rounds
      → (seen : List Value) × (b : Discovery) × (settle ir work rounds scanned a ≡ some (seen, b))
        × Settled scanned a seen b
  unfolding settle
  settle_total all work zero scanned a inside pointers sub h r = absurd (omega arith)
  settle_total all work (suc rounds) scanned a inside pointers sub h r =
      let (b, run, c, f, empty) = drain_upward_total work a sub h in
      elim (List-cases (unscanned scanned (sort b.0.tainted_pointers))) [
        | inl e ↦ (
          scanned,
          b,
          settle_stops work rounds scanned a b run e,
          record {
            climbs = c;
            follows = f;
            scans = IsScanned-Follows ir scanned a.0 b.0 f;
            empty = empty;
            all_scanned = λ x m.
                unscanned_none scanned (sort b.0.tainted_pointers) e x
                  (rw (contains-sort x b.0.tainted_pointers) m);
            grown = λ x m. m;
          },
        )
        | inr (p, ps, e) ↦
            let (m, new) = unscanned_head scanned (sort b.0.tainted_pointers) p ps e in
            let m' = rw (contains-sort p b.0.tainted_pointers) at m in
            let less = insert_all-lt all p ps scanned (c.bounded all inside pointers p m') new in
            let c' = (scan_loads-Moves ir is_module (p ∷ ps) none b.0 b.1).climbs in
            let f' = scan_loads-Follows ir is_module (p ∷ ps) none b.0 in
            let both = Climbs-trans ir a b _ c c' in
            let (seen, b', run', done) =
              settle_total all work rounds (insert_all (p ∷ ps) scanned)
                ((scan_loads_from_tainted_pointers ir (p ∷ ps) none b.0).0, b.1) inside
                (both.bounded all inside pointers) (both.inside sub) (omega (arith, both.stack))
                (omega (arith, less)) in
            (
              seen,
              b',
              settle_continues work rounds scanned a b p ps run e ∙ run',
              record {
                climbs = Climbs-trans ir a _ b' both done.climbs;
                follows =
                    Follows-trans ir a.0 _ b'.0 (Follows-trans ir a.0 b.0 _ f f') done.follows;
                scans = λ h. done.scans (
                    scan_loads-IsScanned ir is_module scanned b.0 (p ∷ ps) e
                      (IsScanned-Follows ir scanned a.0 b.0 f h));
                empty = done.empty;
                all_scanned = done.all_scanned;
                grown = λ x h. done.grown x (insert_all-subset (p ∷ ps) scanned x h);
              },
            )
      ]
