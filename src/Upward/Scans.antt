-- ===== src/Upward/Scans.antt =====
-- What the scans for loads of the upward search reach.
use linux_analysis.Prelude.{
  ◌≡◌, refl, ◌∙◌, ◌⊎◌, inl, inr, Bool, false, none, List, [], ◌∷◌, foldl_steps, foldl_reaches,
  contains, contains-sort, contains-insert, insert, insert_new, sort, ◌∈◌, ◌⊆◌, ◌==◌, ==_refl,
  Bool-cases, Option, Option-cases, arith,
}
use linux_analysis.Llvm.{Ir, Value, IsModule, as_load, defined_instructions}
use linux_analysis.State.{State}
use linux_analysis.Level.{ensure_level_set}
use linux_analysis.Loads.{
  matches_pointer, is_load_before_taint_origin, taint_load, scan_load, scan_pointer,
  scan_loads_from_tainted_pointers, kill_check,
}
use linux_analysis.Downward.{unscanned, insert_all}
use linux_analysis.Downward.Queues.{scan_load-Queues}
use linux_analysis.Upward.Uses.{scan_loads-Moves}
use linux_analysis.Upward.Flows.{
  Follows, IsReached, Reads, IsScanned, IsScanned-Follows, Waits-Follows, same_origin,
}

unscanned-subset : (scanned ps : List Value) → unscanned scanned ps ⊆ ps
unfolding unscanned
unscanned-subset scanned [] x m = cc
unscanned-subset scanned (p ∷ ps) x m = elim (Bool-cases (contains p scanned)) [
  | inl old ↦ ground (arith, unscanned-subset scanned ps x (rw old at m))
  | inr new ↦ elim (Bool-cases (x == p)) [
    | inl same ↦ ground arith
    | inr other ↦
        ground (arith, unscanned-subset scanned ps x (let m' = rw new at m in ground arith))
  ]
]

insert_all-cases : (xs set : List Value) (x : Value) → x ∈ insert_all xs set → (x ∈ xs) ⊎ (x ∈ set)
unfolding insert_all
insert_all-cases [] set x m = inr m
insert_all-cases (y ∷ xs) set x m = elim (insert_all-cases xs (insert y set) x m) [
  | inl later ↦ inl (ground arith)
  | inr there ↦ elim (Bool-cases (x == y)) [
    | inl same ↦ inl (ground arith)
    | inr other ↦ inr (ground (arith, rw (contains-insert x y set) at there))
  ]
]

module _ (ir : Ir) (is_module : IsModule ir) where
  scan_load-origin :
      (killed : Option (List Value)) (ptr : Value) (a : State × Bool) (i : Value)
      → (scan_load ir killed ptr a i).0.pointer_taint_origin ≡ a.0.pointer_taint_origin
  unfolding scan_load taint_load ensure_level_set
  scan_load-origin killed ptr a i = elim (Option-cases (as_load (ir.kind i))) [
    | inl e ↦ rw (e, scan_load) refl
    | inr (p, e) ↦
        rw (e, scan_load)
          (elim (Bool-cases (matches_pointer ir (ir.strip_pointer_casts p) ptr)) [
            | inr b ↦ rw b refl
            | inl b ↦ rw b (elim (Bool-cases (contains i (a.0).tainted_values)) [
              | inl c ↦ rw c refl
              | inr c ↦ rw c (elim (Bool-cases (kill_check ir i ptr killed)) [
                | inl k ↦ rw k refl
                | inr k ↦ rw k (elim (Bool-cases (is_load_before_taint_origin ir a.0 i ptr)) [
                  | inl f ↦ rw f refl
                  | inr f ↦ rw f refl
                ])
              ])
            ])
          ])
  ]

  scan_load-reaches :
      (ptr : Value) (a : State × Bool) (i : Value)
      → Reads ir i ptr
      → IsReached ir i ptr (scan_load ir none ptr a i).0
  unfolding scan_load taint_load ensure_level_set
  scan_load-reaches ptr a i reads =
      rw (reads.is_load, scan_load)
        (rw reads.at_pointer (elim (Bool-cases (contains i (a.0).tainted_values)) [
          | inl old ↦ rw old (inl old)
          | inr new ↦ rw new (elim (Bool-cases (is_load_before_taint_origin ir a.0 i ptr)) [
            | inl before ↦
                rw before (inr (same_origin ir a.0 (ensure_level_set ir i a.0) i ptr refl ∙ before))
            | inr behind ↦ rw behind (inl (rw (insert_new i _ new) (ground (arith, ==_refl i))))
          ])
        ]))

  scan_load-keeps :
      (killed : Option (List Value)) (ptr : Value) (a : State × Bool) (j i p : Value)
      → IsReached ir i p a.0
      → IsReached ir i p (scan_load ir killed ptr a j).0
  scan_load-keeps killed ptr a j i p (inl there) =
      inl ((scan_load-Queues ir killed ptr a j).tainted i there)
  scan_load-keeps killed ptr a j i p (inr before) =
      inr (same_origin ir a.0 _ i p (rw (scan_load-origin killed ptr a j) refl) ∙ before)

  -- A scan without kill stores reaches all loads from its pointers.
  scan_loads-reaches :
      (pointers : List Value) (s : State) (p i : Value)
      → p ∈ pointers
      → Reads ir i p
      → IsReached ir i p (scan_loads_from_tainted_pointers ir pointers none s).0
  unfolding scan_loads_from_tainted_pointers scan_pointer
  scan_loads-reaches pointers s p i m reads =
      foldl_reaches (λ (a : State × Bool). IsReached ir i p a.0) (scan_pointer ir none) pointers p m
        (λ a.
          foldl_reaches (λ (b : State × Bool). IsReached ir i p b.0) (scan_load ir none p)
            (defined_instructions ir) i reads.defined (λ b. scan_load-reaches p b i reads)
            (λ b j _. scan_load-keeps none p b j i p) a)
        (λ a q _.
          foldl_steps (λ (b c : State × Bool). IsReached ir i p b.0 → IsReached ir i p c.0)
            (λ b h. h) (λ b c d f g h. g (f h)) (scan_load ir none q) (defined_instructions ir)
            (λ b j _. scan_load-keeps none q b j i p) a)
        (s, false)

  pub scan_loads-Follows :
      (pointers : List Value) (killed : Option (List Value)) (s : State)
      → Follows ir s (scan_loads_from_tainted_pointers ir pointers killed s).0
  scan_loads-Follows pointers killed s =
      Waits-Follows ir s _ (scan_loads-Moves ir is_module pointers killed s false).waits

  -- The pointers that are not scanned yet are scanned.
  pub scan_loads-IsScanned :
      (scanned : List Value) (s : State) (ps : List Value)
      → unscanned scanned (sort s.tainted_pointers) ≡ ps
      → IsScanned ir scanned s
      → IsScanned ir (insert_all ps scanned) (scan_loads_from_tainted_pointers ir ps none s).0
  scan_loads-IsScanned scanned s ps e h = record {
    inside = λ x m. elim (insert_all-cases ps scanned x m) [
      | inr old ↦ after.inside x old
      | inl new ↦ f.pointed x (
          rw (← contains-sort x s.tainted_pointers)
            (unscanned-subset scanned (sort s.tainted_pointers) x (rw e new)))
    ];
    reached = λ p i m reads. elim (insert_all-cases ps scanned p m) [
      | inr old ↦ after.reached p i old reads
      | inl new ↦ scan_loads-reaches ps s p i new reads
    ];
  }
    where
      f : Follows ir s (scan_loads_from_tainted_pointers ir ps none s).0
      f = scan_loads-Follows ps none s

      after : IsScanned ir scanned (scan_loads_from_tainted_pointers ir ps none s).0
      after = IsScanned-Follows ir scanned s _ f h
