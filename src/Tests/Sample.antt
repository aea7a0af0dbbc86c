-- ===== src/Tests/Sample.antt =====
-- A module of two functions for the tests:
--   define f(ptr %40) { %20 = alloca; store 8, %20; %22 = load %20; %23 = add %22, 8;
--                       %24 = call g(%23); store %24, %40; ret %24 }
--   define g(%50) { %51 = mul %50, 8; ret %51 }
use linux_analysis.Prelude.{
  ℕ, pos, ◌≡◌, refl, Bool, true, false, ◌&&◌, ◌||◌, leb, ltb, none, some, List, [], ◌∷◌, Map,
  contains, ◌⊆◌, ◌==◌, Bool-cases, inl, inr, arith,
}
use linux_analysis.Llvm.{
  Ir, Value, Kind, IsModule, referred, store_inst, load_inst, call_inst, return_inst, alloca_inst,
  other_inst, argument, constant_int, other_value,
}
use linux_analysis.State.{Config}

-- A list for each key of a table, and none for the rest.
abbrev pub row : Map (List ℕ) → ℕ → List ℕ
row [] k = []
row ((j, xs) ∷ m) k = elim (k == j) [ true ↦ xs | false ↦ row m k ]

abbrev pub subset_test : List ℕ → List ℕ → Bool
subset_test [] ys = true
subset_test (x ∷ xs) ys = contains x ys && subset_test xs ys

pub subset_test-sound : (xs ys : List ℕ) → subset_test xs ys ≡ true → xs ⊆ ys
subset_test-sound [] ys h x m = cc
subset_test-sound (z ∷ xs) ys h x m = elim (Bool-cases (x == z)) [
  | inl same ↦ let q : x ≡ z = ground arith in rw q (ground arith)
  | inr other ↦ subset_test-sound xs ys (ground arith) x (ground arith)
]

abbrev rows_test : Map (List ℕ) → List ℕ → Bool
rows_test [] ys = true
rows_test ((j, xs) ∷ m) ys = subset_test xs ys && rows_test m ys

pub row-subset : (m : Map (List ℕ)) (ys : List ℕ) → rows_test m ys ≡ true → (k : ℕ) → row m k ⊆ ys
row-subset [] ys h k = λ x m. cc
row-subset ((j, xs) ∷ t) ys h k =
    elim (k == j) as (λ b. (elim b [ true ↦ xs | false ↦ row t k ]) ⊆ ys) [
      | true ↦ subset_test-sound xs ys (ground arith)
      | false ↦ row-subset t ys (ground arith) k
    ]

-- A class for each key of a table, and the class of other values for the rest.
abbrev pub entry : Map Kind → ℕ → Kind
entry [] k = other_value
entry ((j, c) ∷ m) k = elim (k == j) [ true ↦ c | false ↦ entry m k ]

abbrev entries_test : Map Kind → List ℕ → Bool
entries_test [] ys = true
entries_test ((j, c) ∷ m) ys = subset_test (referred c) ys && entries_test m ys

pub entry-subset :
    (m : Map Kind) (ys : List ℕ) → entries_test m ys ≡ true → (k : ℕ) → referred (entry m k) ⊆ ys
entry-subset [] ys h k = λ x m. cc
entry-subset ((j, c) ∷ t) ys h k =
    elim (k == j) as (λ b. referred (elim b [ true ↦ c | false ↦ entry t k ]) ⊆ ys) [
      | true ↦ subset_test-sound (referred c) ys (ground arith)
      | false ↦ entry-subset t ys (ground arith) k
    ]

abbrev sample_kinds : Map Kind
sample_kinds =
    (20, alloca_inst false)
    ∷ (21, store_inst 30 20)
    ∷ (22, load_inst 20)
    ∷ (23, other_inst)
    ∷ (24, call_inst (some 2) 2 (23 ∷ []))
    ∷ (25, store_inst 24 40)
    ∷ (26, return_inst (some 24))
    ∷ (30, constant_int (pos 8))
    ∷ (40, argument 0)
    ∷ (50, argument 0)
    ∷ (51, other_inst)
    ∷ (52, return_inst (some 51))
    ∷ []

abbrev sample_users : Map (List Value)
sample_users =
    (20, 21 ∷ 22 ∷ [])
    ∷ (22, 23 ∷ [])
    ∷ (23, 24 ∷ [])
    ∷ (24, 25 ∷ 26 ∷ [])
    ∷ (30, 21 ∷ 23 ∷ 51 ∷ [])
    ∷ (40, 25 ∷ [])
    ∷ (50, 51 ∷ [])
    ∷ (51, 52 ∷ [])
    ∷ []

abbrev sample_values : List Value
sample_values = 2 ∷ 20 ∷ 21 ∷ 22 ∷ 23 ∷ 24 ∷ 25 ∷ 26 ∷ 30 ∷ 40 ∷ 50 ∷ 51 ∷ 52 ∷ []

abbrev sample_operands : Map (List Value)
sample_operands =
    (21, 30 ∷ 20 ∷ [])
    ∷ (22, 20 ∷ [])
    ∷ (23, 22 ∷ 30 ∷ [])
    ∷ (24, 23 ∷ 2 ∷ [])
    ∷ (25, 24 ∷ 40 ∷ [])
    ∷ (26, 24 ∷ [])
    ∷ (51, 50 ∷ 30 ∷ [])
    ∷ (52, 51 ∷ [])
    ∷ []

-- Function 1 is `f` with block 10, function 2 is `g` with block 11.
abbrev pub sample : Ir
sample = record {
  values = sample_values;
  kind = entry sample_kinds;
  printed = λ v. [];
  opcode_name = λ v. elim (v == 21) [ true ↦ b's' ∷ [] | false ↦ [] ];
  operands = row sample_operands;
  users = row sample_users;
  strip_pointer_casts = λ v. v;
  is_pointer_ty = λ v. v == 20 || v == 40;
  function_of = λ v. some (elim (leb v 40) [ true ↦ 1 | false ↦ 2 ]);
  block_of = λ v. elim (leb v 40) [ true ↦ 10 | false ↦ 11 ];
  debug_loc = λ v. none;
  functions = 1 ∷ 2 ∷ [];
  function_name = λ f. elim (f == 1) [ true ↦ b'f' ∷ [] | false ↦ b'g' ∷ [] ];
  name_before = ltb;
  is_declaration = λ f. false;
  params = row ((1, 40 ∷ []) ∷ (2, 50 ∷ []) ∷ []);
  blocks = row ((1, 10 ∷ []) ∷ (2, 11 ∷ []) ∷ []);
  instructions = row ((10, 20 ∷ 21 ∷ 22 ∷ 23 ∷ 24 ∷ 25 ∷ 26 ∷ []) ∷ (11, 51 ∷ 52 ∷ []) ∷ []);
}

pub sample-IsModule : IsModule sample
sample-IsModule = record {
  strip_idem = λ v. refl;
  strip_mem = λ v m. m;
  users_mem = λ v _. row-subset sample_users sample_values refl v;
  referred_mem = λ v _. entry-subset sample_kinds sample_values refl v;
  params_mem = row-subset ((1, 40 ∷ []) ∷ (2, 50 ∷ []) ∷ []) sample_values refl;
  instructions_mem =
      row-subset ((10, 20 ∷ 21 ∷ 22 ∷ 23 ∷ 24 ∷ 25 ∷ 26 ∷ []) ∷ (11, 51 ∷ 52 ∷ []) ∷ [])
        sample_values refl;
  function_mem =
      λ v f e. elim (Bool-cases (leb v 40)) [ inl low ↦ ground arith | inr high ↦ ground arith ];
}

-- Both interprocedural directions, the first occurrence of the constant 8.
abbrev pub sample_config : Config
sample_config = record {
  function_name = b'f' ∷ [];
  target_opcode = [];
  constant_to_track = pos 8;
  verbose = false;
  interproc_mode = true;
  indirect_call_mode = false;
  upward_interproc_mode = true;
  occurrence_index = 1;
  approx_debug_info = false;
}
