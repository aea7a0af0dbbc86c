-- ===== src/Upward/Climbs.antt =====
-- What a step of the upward search may do to the state: taint values and pointers of the module,
-- and discover functions and parameters, which it says by its flag.
use linux_analysis.Prelude.{
  ◌≤◌, ◌≡◌, refl, inr, false, List, ◌∷◌, contains, missing, missing-cons, ◌∈◌, ◌⊆◌, arith,
}
use linux_analysis.Llvm.{Ir, Value}
use linux_analysis.Provenance.Complete.{subset_cons}
use linux_analysis.Downward.Progress.{potential}
use linux_analysis.Upward.{Discovery}
use linux_analysis.Upward.Discoveries.{Finds, Finds-trans}

pub record Climbs (ir : Ir) (a b : Discovery) : Type 0 where
  pub stack : potential ir.values b.0 ≤ potential ir.values a.0
  pub values : missing ir.values b.0.tainted_values ≤ missing ir.values a.0.tainted_values
  pub inside : a.0.worklist ⊆ ir.values → b.0.worklist ⊆ ir.values
  pub tainted : a.0.tainted_values ⊆ b.0.tainted_values
  pub pointed : a.0.tainted_pointers ⊆ b.0.tainted_pointers
  pub bounded :
      (all : List Value) → ir.values ⊆ all → a.0.tainted_pointers ⊆ all → b.0.tainted_pointers ⊆ all
  pub finds : Finds ir a b

module _ (ir : Ir) where
  pub Climbs-trans : (a b c : Discovery) → Climbs ir a b → Climbs ir b c → Climbs ir a c
  Climbs-trans a b c f g = record {
    stack = omega (arith, f.stack, g.stack);
    values = omega (arith, f.values, g.values);
    inside = λ h. g.inside (f.inside h);
    tainted = λ x m. g.tainted x (f.tainted x m);
    pointed = λ x m. g.pointed x (f.pointed x m);
    bounded = λ all h m. g.bounded all h (f.bounded all h m);
    finds = Finds-trans ir a b c f.finds g.finds;
  }

  -- Only fields that the measures do not read change, or functions are discovered.
  pub Climbs-Finds :
      (a b : Discovery)
      → b.0.worklist ≡ a.0.worklist
      → b.0.tainted_values ≡ a.0.tainted_values
      → b.0.tainted_pointers ≡ a.0.tainted_pointers
      → Finds ir a b
      → Climbs ir a b
  Climbs-Finds a b e f g h = record {
    stack = rw (e, f) (omega arith);
    values = rw f (omega arith);
    inside = λ sub. rw e sub;
    tainted = λ x m. rw f m;
    pointed = λ x m. rw g m;
    bounded = λ all sub m. rw g m;
    finds = h;
  }

  pub Climbs-refl : (a : Discovery) → Climbs ir a a
  Climbs-refl a = Climbs-Finds a a refl refl refl (inr (refl, refl, refl))

  -- A value of the module is tainted, and pushed.
  pub Climbs-push :
      (x : Value) (a b : Discovery)
      → x ∈ ir.values
      → contains x a.0.tainted_values ≡ false
      → b.0.tainted_values ≡ x ∷ a.0.tainted_values
      → b.0.worklist ≡ x ∷ a.0.worklist
      → b.0.tainted_pointers ≡ a.0.tainted_pointers
      → Finds ir a b
      → Climbs ir a b
  Climbs-push x a b m new e f g h =
      let less = missing-cons ir.values a.0.tainted_values x m new in
      record {
        stack = rw (e, f) (omega (arith, less));
        values = rw e (omega (arith, less));
        inside = λ sub. rw f (subset_cons x a.0.worklist ir.values m sub);
        tainted = λ y hy. rw e (ground arith);
        pointed = λ y hy. rw g hy;
        bounded = λ all sub hp. rw g hp;
        finds = h;
      }

  pub Climbs-mark :
      (p : Value) (a b : Discovery)
      → p ∈ ir.values
      → b.0.tainted_pointers ≡ p ∷ a.0.tainted_pointers
      → b.0.tainted_values ≡ a.0.tainted_values
      → b.0.worklist ≡ a.0.worklist
      → Finds ir a b
      → Climbs ir a b
  Climbs-mark p a b m e f g h = record {
    stack = rw (f, g) (omega arith);
    values = rw f (omega arith);
    inside = λ sub. rw g sub;
    tainted = λ y hy. rw f hy;
    pointed = λ y hy. rw e (ground arith);
    bounded = λ all sub hp. rw e (subset_cons p a.0.tainted_pointers all (sub p m) hp);
    finds = h;
  }
