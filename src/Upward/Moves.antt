-- ===== src/Upward/Moves.antt =====
-- The steps of the upward search: they climb, leave all that they taint waiting on the worklist,
-- and never change the instruction at which a pointer was tainted.
use linux_analysis.Prelude.{
  ℤ, some, ◌<◌, ◌≡◌, refl, ◌∙◌, inl, inr, false, ◌∷◌, length, ap, lookup, lookup-put, put, contains,
  missing, ◌∈◌, ◌⊆◌, ◌==◌, Bool-cases, arith,
}
use linux_analysis.Llvm.{Ir, Value}
use linux_analysis.State.{State}
use linux_analysis.Provenance.Complete.{subset_cons}
use linux_analysis.Upward.{Discovery, push}
use linux_analysis.Upward.Discoveries.{Finds, Finds-trans}
use linux_analysis.Upward.Climbs.{Climbs, Climbs-trans, Climbs-Finds, Climbs-push, Climbs-mark}

-- The level of a tainted value stays as it is.
abbrev pub KeepsLevels : State → State → Type 0
KeepsLevels s t =
    (x : Value) (l : ℤ)
    → x ∈ s.tainted_values
    → lookup x s.value_level ≡ some l
    → lookup x t.value_level ≡ some l

-- A value that is not tainted gets a level.
pub put-KeepsLevels :
    (s : State) (u : Value) (k : ℤ)
    → contains u s.tainted_values ≡ false
    → KeepsLevels s (record s { value_level = put u k s.value_level })
put-KeepsLevels s u k new x l m known = elim (Bool-cases (x == u)) [
  | inl same ↦ let q : x ≡ u = ground arith in cc (rw q at m)
  | inr other ↦ rw (lookup-put x u k s.value_level, other) known
]

pub record Waits (s t : State) : Type 0 where
  pub tainted : s.tainted_values ⊆ t.tainted_values
  pub stacked : s.worklist ⊆ t.worklist
  pub waiting :
      (x : Value) → x ∈ t.tainted_values → contains x s.tainted_values ≡ false → x ∈ t.worklist
  pub pointed : s.tainted_pointers ⊆ t.tainted_pointers
  pub origins :
      (x : Value)
      → x ∈ s.tainted_pointers
      → lookup x t.pointer_taint_origin ≡ lookup x s.pointer_taint_origin
  pub levels : KeepsLevels s t

Waits-same :
    (s t : State)
    → t.worklist ≡ s.worklist
    → t.tainted_values ≡ s.tainted_values
    → t.tainted_pointers ≡ s.tainted_pointers
    → t.pointer_taint_origin ≡ s.pointer_taint_origin
    → KeepsLevels s t
    → Waits s t
Waits-same s t e f g h levels = record {
  tainted = λ x m. rw f m;
  stacked = λ x m. rw e m;
  waiting = λ x m new. let old = rw f at m in cc;
  pointed = λ x m. rw g m;
  origins = λ x m. rw h refl;
  levels = levels;
}

Waits-trans : (s t u : State) → Waits s t → Waits t u → Waits s u
Waits-trans s t u f g = record {
  tainted = λ x m. g.tainted x (f.tainted x m);
  stacked = λ x m. g.stacked x (f.stacked x m);
  waiting = λ x m new. elim (Bool-cases (contains x t.tainted_values)) [
    | inl old ↦ g.stacked x (f.waiting x old new)
    | inr new' ↦ g.waiting x m new'
  ];
  pointed = λ x m. g.pointed x (f.pointed x m);
  origins = λ x m. g.origins x (f.pointed x m) ∙ f.origins x m;
  levels = λ x l m e. g.levels x l (f.tainted x m) (f.levels x l m e);
}

pub record Moves (ir : Ir) (a b : Discovery) : Type 0 where
  pub climbs : Climbs ir a b
  pub waits : Waits a.0 b.0

module _ (ir : Ir) where
  pub Moves-trans : (a b c : Discovery) → Moves ir a b → Moves ir b c → Moves ir a c
  Moves-trans a b c f g = record {
    climbs = Climbs-trans ir a b c f.climbs g.climbs;
    waits = Waits-trans a.0 b.0 c.0 f.waits g.waits;
  }

  pub Moves-Finds :
      (a b : Discovery)
      → b.0.worklist ≡ a.0.worklist
      → b.0.tainted_values ≡ a.0.tainted_values
      → b.0.tainted_pointers ≡ a.0.tainted_pointers
      → b.0.pointer_taint_origin ≡ a.0.pointer_taint_origin
      → KeepsLevels a.0 b.0
      → Finds ir a b
      → Moves ir a b
  Moves-Finds a b e f g o k h = record {
    climbs = Climbs-Finds ir a b e f g h;
    waits = Waits-same a.0 b.0 e f g o k;
  }

  pub Moves-refl : (a : Discovery) → Moves ir a a
  Moves-refl a = Moves-Finds a a refl refl refl refl (λ x l m e. e) (inr (refl, refl, refl))

  pub Moves-push :
      (x : Value) (a b : Discovery)
      → x ∈ ir.values
      → contains x a.0.tainted_values ≡ false
      → b.0.tainted_values ≡ x ∷ a.0.tainted_values
      → b.0.worklist ≡ x ∷ a.0.worklist
      → b.0.tainted_pointers ≡ a.0.tainted_pointers
      → b.0.pointer_taint_origin ≡ a.0.pointer_taint_origin
      → KeepsLevels a.0 b.0
      → Finds ir a b
      → Moves ir a b
  Moves-push x a b m new e f g o k h = record {
    climbs = Climbs-push ir x a b m new e f g h;
    waits = record {
      tainted = λ y hy. rw e (ground arith);
      stacked = λ y hy. rw f (ground arith);
      waiting = λ y hy fresh. let hy' = rw e at hy in rw f (ground arith);
      pointed = λ y hy. rw g hy;
      origins = λ y hy. rw o refl;
      levels = k;
    };
  }

  -- The pointer `p` is tainted at `inst`.
  pub Moves-mark :
      (p inst : Value) (a b : Discovery)
      → p ∈ ir.values
      → contains p a.0.tainted_pointers ≡ false
      → b.0.tainted_pointers ≡ p ∷ a.0.tainted_pointers
      → b.0.tainted_values ≡ a.0.tainted_values
      → b.0.worklist ≡ a.0.worklist
      → b.0.pointer_taint_origin ≡ put p inst a.0.pointer_taint_origin
      → KeepsLevels a.0 b.0
      → Finds ir a b
      → Moves ir a b
  Moves-mark p inst a b m new e f g o k h = record {
    climbs = Climbs-mark ir p a b m e f g h;
    waits = record {
      tainted = λ x hx. rw f hx;
      stacked = λ x hx. rw g hx;
      waiting = λ x hx fresh. let old = rw f at hx in cc;
      pointed = λ x hx. rw e (ground arith);
      origins = λ x hx. elim (Bool-cases (x == p)) [
        | inl same ↦ let q : x ≡ p = ground arith in cc (rw q at hx)
        | inr other ↦ rw (o, lookup-put x p inst a.0.pointer_taint_origin, other) refl
      ];
      levels = k;
    };
  }

  -- A value that is tainted in `mid`, and pushed at the end of what its use does.
  pub Moves-push_later :
      (x : Value) (a mid end : Discovery)
      → x ∈ ir.values
      → mid.0.tainted_values ≡ x ∷ a.0.tainted_values
      → missing ir.values mid.0.tainted_values < missing ir.values a.0.tainted_values
      → mid.0.worklist ≡ a.0.worklist
      → mid.0.tainted_pointers ≡ a.0.tainted_pointers
      → mid.0.pointer_taint_origin ≡ a.0.pointer_taint_origin
      → KeepsLevels a.0 mid.0
      → Finds ir a mid
      → Moves ir mid end
      → Moves ir a (push ir x end)
  Moves-push_later x a mid end m taint less stack pointers origins k finds c = record {
    climbs = record {
      stack = omega (arith, less, c.climbs.stack, ap (λ xs. length xs) stack);
      values = omega (arith, less, c.climbs.values);
      inside = λ h. subset_cons x end.0.worklist ir.values m (c.climbs.inside (rw stack h));
      tainted = λ y h. c.climbs.tainted y (rw taint (ground arith));
      pointed = λ y h. c.climbs.pointed y (rw pointers h);
      bounded = λ all h h'. c.climbs.bounded all h (rw pointers h');
      finds = Finds-trans ir a mid end finds c.climbs.finds;
    };
    waits = record {
      tainted = λ y h. c.waits.tainted y (rw taint (ground arith));
      stacked = λ y h. ground (arith, c.waits.stacked y (rw stack h));
      waiting = λ y h fresh. elim (Bool-cases (contains y mid.0.tainted_values)) [
        | inl old ↦ let old' = rw taint at old in ground arith
        | inr new ↦ ground (arith, c.waits.waiting y h new)
      ];
      pointed = λ y h. c.waits.pointed y (rw pointers h);
      origins = λ y h. c.waits.origins y (rw pointers h) ∙ (rw origins refl);
      levels = λ y l h known. c.waits.levels y l (rw taint (ground arith)) (k y l h known);
    };
  }
