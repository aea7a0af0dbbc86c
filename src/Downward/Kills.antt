-- ===== src/Downward/Kills.antt =====
-- The kill stores of the downward search (passes/TaintTrackerPass/TaintTrackerPass.cpp): which
-- stores are taken for overwriting what taint a pointer holds.
use linux_analysis.Prelude.{
  ◌≡◌, refl, ap, ◌↔◌, ◌⊎◌, inl, inr, Bool, true, false, not, ◌&&◌, ◌||◌, none, some, List, [], ◌∷◌,
  ◌++◌, foldl, lookup, contains, contains-insert, insert, ◌∈◌, ◌==◌, Bool-cases, Option-cases,
  if◌then◌else◌, arith,
}
use linux_analysis.Llvm.{Ir, Value, Store, as_store, defined_instructions}
use linux_analysis.State.{State}
use linux_analysis.Downward.{meets_before, is_valid_kill, identify_kill, identify_kill_stores}

meets_before_sound :
    (a b : Value) (found : Bool) (is : List Value)
    → meets_before a b found is ≡ true
    → (xs : List Value) × (ys : List Value) × (is ≡ xs ++ b ∷ ys)
      × ((found || contains a (xs ++ b ∷ [])) ≡ false)
unfolding meets_before
meets_before_sound a b found [] e = cc
meets_before_sound a b found (i ∷ is) e = elim (Bool-cases (i == b && not (found || i == a))) [
  | inl here ↦ let same : i ≡ b = ground arith in ([], is, rw same refl, ground arith)
  | inr there ↦
      let (xs, ys, split, h) = meets_before_sound a b (found || i == a) is (ground arith) in
      (i ∷ xs, ys, ap (λ t. i ∷ t) split, ground (arith, h))
]

meets_before_complete :
    (a b : Value) (found : Bool) (xs ys : List Value)
    → (found || contains a (xs ++ b ∷ [])) ≡ false
    → meets_before a b found (xs ++ b ∷ ys) ≡ true
unfolding meets_before
meets_before_complete a b found [] ys h = ground arith
meets_before_complete a b found (x ∷ xs) ys h =
    ground (arith, meets_before_complete a b (found || x == a) xs ys)

-- A store of a value that is not tainted to a tainted pointer, not tainted itself and not in front
-- of the instruction that tainted the pointer in the same block.
pub record Kills (ir : Ir) (s : State) (i : Value) : Type 0 where
  pub store : Store
  pub is_store : as_store (ir.kind i) ≡ some store
  pub pointer : ir.strip_pointer_casts store.pointer ∈ s.tainted_pointers
  pub clean : contains store.value s.tainted_values ≡ false
  pub no_source : contains i s.tainted_values ≡ false
  pub behind :
      (origin : Value) (xs ys : List Value)
      → lookup (ir.strip_pointer_casts store.pointer) s.pointer_taint_origin ≡ some origin
      → ir.block_of i ≡ ir.block_of origin
      → ir.instructions (ir.block_of i) ≡ xs ++ i ∷ ys
      → origin ∈ xs ++ i ∷ []

module _ (ir : Ir) where
  unfoldable kill_test : State → Value → Bool
  kill_test s i = elim (as_store (ir.kind i)) [
    | none ↦ false
    | some st ↦
        contains (ir.strip_pointer_casts st.pointer) s.tainted_pointers
        && not (contains st.value s.tainted_values)
        && not (contains i s.tainted_values)
        && is_valid_kill ir i (ir.strip_pointer_casts st.pointer) s
  ]

  identify_kill_lem :
      (s : State) (i : Value)
      → identify_kill ir s i ≡ record s {
        killed_stores = if kill_test s i then insert i s.killed_stores else s.killed_stores;
      }
  unfolding identify_kill kill_test
  identify_kill_lem s i = elim (Option-cases (as_store (ir.kind i))) [
    | inl e ↦ rw (e, identify_kill, kill_test) refl
    | inr (st, e) ↦ rw (e, identify_kill, kill_test) (chosen _)
  ]
    where
      chosen :
          (b : Bool)
          → (if b then record s { killed_stores = insert i s.killed_stores } else s)
            ≡ record s { killed_stores = if b then insert i s.killed_stores else s.killed_stores }
      chosen true = refl
      chosen false = refl

  -- What was taken for a kill store before plays no part.
  kill_test_same :
      (s : State) (ks : List Value) (i : Value)
      → kill_test (record s { killed_stores = ks }) i ≡ kill_test s i
  unfolding kill_test is_valid_kill
  kill_test_same s ks i = refl

  contains-kill :
      (s : State) (i x : Value)
      → contains x (identify_kill ir s i).killed_stores
        ≡ (contains x s.killed_stores || (x == i && kill_test s x))
  contains-kill s i x = rw (identify_kill_lem s i) (elim (Bool-cases (x == i)) [
    | inl same ↦ let q : x ≡ i = ground arith in rw q (added (kill_test s i))
    | inr other ↦ rw other (passed (kill_test s i) other)
  ])
    where
      added :
          (b : Bool)
          → contains i (if b then insert i s.killed_stores else s.killed_stores)
            ≡ (contains i s.killed_stores || (i == i && b))
      added true = ground (arith, contains-insert i i s.killed_stores)
      added false = ground arith

      passed :
          (b : Bool)
          → (x == i) ≡ false
          → contains x (if b then insert i s.killed_stores else s.killed_stores)
            ≡ (contains x s.killed_stores || false)
      passed true other = ground (arith, contains-insert x i s.killed_stores)
      passed false other = ground arith

  kill_test-identify_kill :
      (s : State) (i x : Value) → kill_test (identify_kill ir s i) x ≡ kill_test s x
  kill_test-identify_kill s i x = rw (identify_kill_lem s i) (kill_test_same s _ x)

  contains-kills :
      (is : List Value) (s : State) (x : Value)
      → contains x (foldl (identify_kill ir) s is).killed_stores
        ≡ (contains x s.killed_stores || (contains x is && kill_test s x))
  contains-kills [] s x = ground arith
  contains-kills (i ∷ is) s x = ground (
    arith,
    contains-kills is (identify_kill ir s i) x,
    contains-kill s i x,
    kill_test-identify_kill s i x,
  )

  is_valid_kill_sound :
      (i ptr origin : Value) (s : State) (xs ys : List Value)
      → is_valid_kill ir i ptr s ≡ true
      → lookup ptr s.pointer_taint_origin ≡ some origin
      → ir.block_of i ≡ ir.block_of origin
      → ir.instructions (ir.block_of i) ≡ xs ++ i ∷ ys
      → origin ∈ xs ++ i ∷ []
  unfolding is_valid_kill
  is_valid_kill_sound i ptr origin s xs ys e known same split =
      let eq : (ir.block_of i == ir.block_of origin) ≡ true = ground arith in
      let late = rw (known, eq, split, is_valid_kill) at e in
      elim (Bool-cases (contains origin (xs ++ i ∷ []))) [
        | inl there ↦ there
        | inr ahead ↦ cc (rw (meets_before_complete origin i false xs ys ahead) at late)
      ]

  is_valid_kill_complete :
      (i ptr : Value) (s : State)
      → ((origin : Value) (xs ys : List Value)
          → lookup ptr s.pointer_taint_origin ≡ some origin
          → ir.block_of i ≡ ir.block_of origin
          → ir.instructions (ir.block_of i) ≡ xs ++ i ∷ ys
          → origin ∈ xs ++ i ∷ [])
      → is_valid_kill ir i ptr s ≡ true
  unfolding is_valid_kill
  is_valid_kill_complete i ptr s behind = elim (Option-cases (lookup ptr s.pointer_taint_origin)) [
    | inl unknown ↦ rw (unknown, is_valid_kill) refl
    | inr (origin, known) ↦ elim (Bool-cases (ir.block_of i == ir.block_of origin)) [
      | inr other ↦ rw (known, other, is_valid_kill) refl
      | inl same ↦
          rw (known, same, is_valid_kill)
            (elim (Bool-cases (meets_before origin i false (ir.instructions (ir.block_of i)))) [
              | inr late ↦ rw late refl
              | inl ahead ↦
                  let (xs, ys, split, h) =
                    meets_before_sound origin i false (ir.instructions (ir.block_of i)) ahead in
                  let q : ir.block_of i ≡ ir.block_of origin = ground arith in
                  cc (behind origin xs ys known q split)
            ])
    ]
  ]

  kill_test_iff : (s : State) (i : Value) → (kill_test s i ≡ true) ↔ Kills ir s i
  unfolding kill_test
  kill_test_iff s i = (
    λ e. elim (Option-cases (as_store (ir.kind i))) [
      | inl no_store ↦ cc (rw (no_store, kill_test) at e)
      | inr (st, is_store) ↦
          let all = rw (is_store, kill_test) at e in
          record {
            store = st;
            is_store = is_store;
            pointer = ground arith;
            clean = ground arith;
            no_source = ground arith;
            behind = λ origin xs ys.
                is_valid_kill_sound i (ir.strip_pointer_casts st.pointer) origin s xs ys
                  (ground arith);
          }
    ],
    λ k.
        rw (k.is_store, kill_test)
          (ground (
            arith,
            k.pointer,
            k.clean,
            k.no_source,
            is_valid_kill_complete i (ir.strip_pointer_casts k.store.pointer) s k.behind,
          )),
  )

-- A round adds to the kill stores exactly the stores of the defined functions that put a value
-- which is not tainted behind a tainted pointer, that are not tainted themselves, and that do not
-- stand, in the same block, in front of the instruction that tainted the pointer.
pub identify_kill_stores_iff :
    (ir : Ir) (s : State) (i : Value)
    → (i ∈ (identify_kill_stores ir s).killed_stores)
      ↔ ((i ∈ s.killed_stores) ⊎ ((i ∈ defined_instructions ir) × Kills ir s i))
unfolding identify_kill_stores
identify_kill_stores_iff ir s i =
    let same = contains-kills ir (defined_instructions ir) s i in
    (
      λ m. elim (Bool-cases (contains i s.killed_stores)) [
        | inl old ↦ inl old
        | inr new ↦ inr (
          ground (arith, rw (same, new) at m),
          (kill_test_iff ir s i).0 (ground (arith, rw (same, new) at m)),
        )
      ],
      λ h. rw same (elim h [
        | inl old ↦ ground arith
        | inr (there, kills) ↦ ground (arith, (kill_test_iff ir s i).1 kills)
      ]),
    )
