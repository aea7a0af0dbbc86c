-- ===== src/Upward/Flows.antt =====
-- What the worklist of the upward search follows.
use linux_analysis.Prelude.{
  ◌≡◌, refl, ◌∙◌, ◌⊎◌, inl, inr, true, false, not, ◌||◌, some, List, ◌∷◌, foldl_reaches, lookup,
  contains, contains-sort, insert_new, sort, ◌∈◌, ◌⊆◌, ◌==◌, ==_refl, Bool-cases, arith,
}
use linux_analysis.Llvm.{Ir, Value, IsModule, is_instruction, as_load, defined_instructions}
use linux_analysis.State.{State}
use linux_analysis.Loads.{matches_pointer, is_load_before_taint_origin}
use linux_analysis.Downward.{pop}
use linux_analysis.Upward.{Discovery, taint_user, visit_user_upward, process_upward}
use linux_analysis.Upward.Moves.{KeepsLevels, Waits}
use linux_analysis.Upward.Uses.{process_upward-Moves, visit_user_upward-Moves, use_effects-Moves}

-- All instructions that use the value are tainted.
abbrev pub UsesTainted : Ir → Value → State → Type 0
UsesTainted ir v s =
    (u : Value) → u ∈ ir.users v → is_instruction (ir.kind u) ≡ true → u ∈ s.tainted_values

-- All that is tainted since `base` waits, or has had its uses tainted.
abbrev pub IsFollowed : Ir → List Value → State → Type 0
IsFollowed ir base s =
    (v : Value)
    → v ∈ s.tainted_values
    → contains v base ≡ false
    → (v ∈ s.worklist) ⊎ UsesTainted ir v s

pub record Follows (ir : Ir) (s t : State) : Type 0 where
  pub tainted : s.tainted_values ⊆ t.tainted_values
  pub followed : (base : List Value) → IsFollowed ir base s → IsFollowed ir base t
  pub pointed : s.tainted_pointers ⊆ t.tainted_pointers
  pub origins :
      (x : Value)
      → x ∈ s.tainted_pointers
      → lookup x t.pointer_taint_origin ≡ lookup x s.pointer_taint_origin
  pub levels : KeepsLevels s t

-- The load `i` from the tainted pointer `p` is tainted, or stands in front of what tainted `p`.
abbrev pub IsReached : Ir → Value → Value → State → Type 0
IsReached ir i p s = (i ∈ s.tainted_values) ⊎ (is_load_before_taint_origin ir s i p ≡ true)

-- The load `i` reads the pointer `p`, or a field behind it.
pub record Reads (ir : Ir) (i p : Value) : Type 0 where
  pub address : Value
  pub defined : i ∈ defined_instructions ir
  pub is_load : as_load (ir.kind i) ≡ some address
  pub at_pointer : matches_pointer ir (ir.strip_pointer_casts address) p ≡ true

-- The pointers are tainted and scanned.
pub record IsScanned (ir : Ir) (scanned : List Value) (s : State) : Type 0 where
  pub inside : scanned ⊆ s.tainted_pointers
  pub reached : (p i : Value) → p ∈ scanned → Reads ir i p → IsReached ir i p s

pub same_origin :
    (ir : Ir) (s t : State) (i p : Value)
    → lookup p t.pointer_taint_origin ≡ lookup p s.pointer_taint_origin
    → is_load_before_taint_origin ir t i p ≡ is_load_before_taint_origin ir s i p
unfolding is_load_before_taint_origin
same_origin ir s t i p e = rw (e, is_load_before_taint_origin) refl

module _ (ir : Ir) where
  pub Follows-refl : (s : State) → Follows ir s s
  Follows-refl s = record {
    tainted = λ x m. m;
    followed = λ base h. h;
    pointed = λ x m. m;
    origins = λ x m. refl;
    levels = λ x l m e. e;
  }

  pub Follows-trans : (s t u : State) → Follows ir s t → Follows ir t u → Follows ir s u
  Follows-trans s t u f g = record {
    tainted = λ x m. g.tainted x (f.tainted x m);
    followed = λ base h. g.followed base (f.followed base h);
    pointed = λ x m. g.pointed x (f.pointed x m);
    origins = λ x m. g.origins x (f.pointed x m) ∙ f.origins x m;
    levels = λ x l m e. g.levels x l (f.tainted x m) (f.levels x l m e);
  }

  pub Waits-Follows : (s t : State) → Waits s t → Follows ir s t
  Waits-Follows s t w = record {
    tainted = w.tainted;
    followed = λ base h v m fresh. elim (Bool-cases (contains v s.tainted_values)) [
      | inr new ↦ inl (w.waiting v m new)
      | inl old ↦ elim (h v old fresh) [
        | inl waits ↦ inl (w.stacked v waits)
        | inr done ↦ inr (λ u used inst. w.tainted u (done u used inst))
      ]
    ];
    pointed = w.pointed;
    origins = w.origins;
    levels = w.levels;
  }

  pub IsScanned-Follows :
      (scanned : List Value) (s t : State)
      → Follows ir s t
      → IsScanned ir scanned s
      → IsScanned ir scanned t
  IsScanned-Follows scanned s t f h = record {
    inside = λ x m. f.pointed x (h.inside x m);
    reached = λ p i m reads. elim (h.reached p i m reads) [
      | inl there ↦ inl (f.tainted i there)
      | inr before ↦ inr (same_origin ir s t i p (f.origins p (h.inside p m)) ∙ before)
    ];
  }

module _ (ir : Ir) (is_module : IsModule ir) where
  visit_user_upward-reaches :
      (v u : Value) (a : Discovery)
      → u ∈ ir.values
      → is_instruction (ir.kind u) ≡ true
      → u ∈ (visit_user_upward ir v a u).0.tainted_values
  unfolding visit_user_upward taint_user
  visit_user_upward-reaches v u a m inst = elim (Bool-cases (contains u a.0.tainted_values)) [
    | inl old ↦ (visit_user_upward-Moves ir is_module v a u m).climbs.tainted u old
    | inr new ↦
        let fresh : (not (is_instruction (ir.kind u)) || contains u a.0.tainted_values) ≡ false =
          ground (arith, inst, new) in
        rw fresh (
          (use_effects-Moves ir is_module v u (taint_user ir v u a.0, a.1) m).climbs.tainted u
            (rw (insert_new u a.0.tainted_values new) (ground (arith, ==_refl u))))
  ]

  process_upward-reaches :
      (v : Value) (a : Discovery) → v ∈ ir.values → UsesTainted ir v (process_upward ir v a).0
  unfolding process_upward
  process_upward-reaches v a m u used inst =
      foldl_reaches (λ (b : Discovery). u ∈ b.0.tainted_values) (visit_user_upward ir v)
        (sort (ir.users v)) u (rw (contains-sort u (ir.users v)) used)
        (λ b. visit_user_upward-reaches v u b (is_module.users_mem v m u used) inst)
        (λ b w h kept.
          (visit_user_upward-Moves ir is_module v b w
              (is_module.users_mem v m w (rw (← contains-sort w (ir.users v)) h))).climbs.tainted
            u kept)
        a

  -- A value is taken from the worklist and its uses are followed.
  pub process_upward-Follows :
      (a : Discovery) (v : Value) (rest : List Value)
      → v ∈ ir.values
      → a.0.worklist ≡ v ∷ rest
      → Follows ir a.0 (process_upward ir v (pop a.0 rest, a.1)).0
  process_upward-Follows a v rest m e = record {
    tainted = w.tainted;
    followed = λ base h x there fresh. elim (Bool-cases (contains x a.0.tainted_values)) [
      | inr new ↦ inl (w.waiting x there new)
      | inl old ↦ elim (h x old fresh) [
        | inr done ↦ inr (λ u used inst. w.tainted u (done u used inst))
        | inl waits ↦ elim (Bool-cases (x == v)) [
          | inl same ↦
              let q : x ≡ v = ground arith in
              inr (rw q (process_upward-reaches v (pop a.0 rest, a.1) m))
          | inr other ↦ inl (w.stacked x (let waits' = rw e at waits in ground arith))
        ]
      ]
    ];
    pointed = w.pointed;
    origins = w.origins;
    levels = w.levels;
  }
    where
      w : Waits (pop a.0 rest) (process_upward ir v (pop a.0 rest, a.1)).0
      w = (process_upward-Moves ir is_module v (pop a.0 rest, a.1) m).waits
