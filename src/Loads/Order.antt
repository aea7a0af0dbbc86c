-- ===== src/Loads/Order.antt =====
-- `isLoadBeforeTaintOrigin` (passes/TaintTrackerPass/TaintTrackerPass.cpp) as an order of the
-- instructions of a block.
use linux_analysis.Prelude.{
  ◌≡◌, refl, ap, ◌↔◌, inl, inr, Bool, true, false, ◌&&◌, ◌||◌, some, List, [], ◌∷◌, ◌++◌, lookup,
  contains, ◌∈◌, ◌==◌, Bool-cases, Option-cases, arith,
}
use linux_analysis.Llvm.{Ir, Value}
use linux_analysis.State.{State}
use linux_analysis.Loads.{meets_after, is_load_before_taint_origin}

meets_after_sound :
    (a b : Value) (found : Bool) (is : List Value)
    → meets_after a b found is ≡ true
    → (xs : List Value) × (ys : List Value) × (is ≡ xs ++ b ∷ ys)
      × ((found || contains a (xs ++ b ∷ [])) ≡ true)
unfolding meets_after
meets_after_sound a b found [] e = cc
meets_after_sound a b found (i ∷ is) e = elim (Bool-cases (i == b && (found || i == a))) [
  | inl here ↦ let same : i ≡ b = ground arith in ([], is, rw same refl, ground arith)
  | inr there ↦
      let (xs, ys, split, h) = meets_after_sound a b (found || i == a) is (ground arith) in
      (i ∷ xs, ys, ap (λ t. i ∷ t) split, ground (arith, h))
]

meets_after_complete :
    (a b : Value) (found : Bool) (xs ys : List Value)
    → (found || contains a (xs ++ b ∷ [])) ≡ true
    → meets_after a b found (xs ++ b ∷ ys) ≡ true
unfolding meets_after
meets_after_complete a b found [] ys h = ground arith
meets_after_complete a b found (x ∷ xs) ys h =
    ground (arith, meets_after_complete a b (found || x == a) xs ys)

-- A load is before the taint of a pointer exactly if the store that tainted it is recorded, both
-- are in one block, and the load is at or in front of the store among its instructions.
pub is_load_before_taint_origin_iff :
    (ir : Ir) (s : State) (load ptr : Value)
    → (is_load_before_taint_origin ir s load ptr ≡ true) ↔ (
        (origin : Value) × (lookup ptr s.pointer_taint_origin ≡ some origin)
        × (ir.block_of load ≡ ir.block_of origin)
        × ((xs : List Value) × (ys : List Value) × (ir.instructions (ir.block_of load)
              ≡ xs ++ origin ∷ ys)
            × (load ∈ xs ++ origin ∷ [])))
unfolding is_load_before_taint_origin
is_load_before_taint_origin_iff ir s load ptr = (
  λ e. elim (Option-cases (lookup ptr s.pointer_taint_origin)) [
    | inl none_known ↦ cc (rw (none_known, is_load_before_taint_origin) at e)
    | inr (origin, known) ↦ elim (Bool-cases (ir.block_of load == ir.block_of origin)) [
      | inr other ↦ cc (rw (known, other, is_load_before_taint_origin) at e)
      | inl same ↦
          let met = rw (known, same, is_load_before_taint_origin) at e in
          (
            origin,
            known,
            ground arith,
            meets_after_sound load origin false (ir.instructions (ir.block_of load)) met,
          )
    ]
  ],
  λ (origin, known, same, (xs, ys, split, here)).
      let eq : (ir.block_of load == ir.block_of origin) ≡ true = ground arith in
      rw (known, eq, split, is_load_before_taint_origin)
        (meets_after_complete load origin false xs ys here),
)
