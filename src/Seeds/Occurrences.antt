-- ===== src/Seeds/Occurrences.antt =====
-- Which occurrence of the tracked constant is seeded.
use linux_analysis.Prelude.{
  ℕ, zero, suc, ◌+◌, ◌≡◌, refl, ◌∙◌, ap, ◌==◌, ◌&&◌, inl, inr, Bool, true, false, not, none, some,
  List, [], ◌∷◌, ◌++◌, foldl, get_elem?, eq_ℤ, Bool-cases, Option-cases, if◌then◌else◌, arith,
}
use linux_analysis.Llvm.{Ir, Value, Function, as_constant_int, function_instructions}
use linux_analysis.State.{Config, State, initial_state}
use linux_analysis.Seeds.{
  Seeding, text_eq, taint_source, seed_constant, seed_operand, opcode_matches, seed_instruction,
  seed_function, no_seeds, seeds,
}

-- An instruction, and the operand of it that is the constant.
abbrev pub Occurrence : Type 0
Occurrence = Value × Value

foldl-append :
    {A B : Type 0} (f : A → B → A) (a : A) (xs ys : List B)
    → foldl f a (xs ++ ys) ≡ foldl f (foldl f a xs) ys
foldl-append f a [] ys = refl
foldl-append f a (x ∷ xs) ys = foldl-append f (f a x) xs ys

if_same : {A : Type 0} (b : Bool) (a : A) → (if b then a else a) ≡ a
if_same true a = refl
if_same false a = refl

if_true : {A : Type 0} (b : Bool) (x y : A) → b ≡ true → (if b then x else y) ≡ x
if_true true x y e = refl
if_true false x y e = cc

if_false : {A : Type 0} (b : Bool) (x y : A) → b ≡ false → (if b then x else y) ≡ y
if_false true x y e = cc
if_false false x y e = refl

module _ (ir : Ir) (cfg : Config) where
  unfoldable pub operand_occurrences : Value → List Value → List Occurrence
  operand_occurrences i [] = []
  operand_occurrences i (op ∷ ops) = elim (as_constant_int (ir.kind op)) [
    | none ↦ operand_occurrences i ops
    | some c ↦
        if eq_ℤ c cfg.constant_to_track
        then (i, op) ∷ operand_occurrences i ops
        else operand_occurrences i ops
  ]

  unfoldable pub instruction_occurrences : List Value → List Occurrence
  unfolding operand_occurrences text_eq
  instruction_occurrences [] = []
  instruction_occurrences (i ∷ is) =
      (if opcode_matches ir cfg i then operand_occurrences i (ir.operands i) else [])
      ++ instruction_occurrences is

  -- The occurrences of the constant in functions of the name, at instructions with the opcode, in
  -- the order of the program.
  unfoldable pub occurrences : List Function → List Occurrence
  unfolding instruction_occurrences text_eq
  occurrences [] = []
  occurrences (f ∷ fs) =
      (if text_eq (ir.function_name f) cfg.function_name
        then instruction_occurrences (function_instructions ir f)
        else [])
      ++ occurrences fs

  -- An occurrence that the loops come to.
  unfoldable visit : Seeding → Occurrence → Seeding
  visit a (i, op) = if a.found then a else seed_constant ir cfg i op a

  unfoldable pub seed : State → Occurrence → State
  seed s (i, op) = taint_source ir cfg i op s

  operand_occurrences-visit :
      (i : Value) (ops : List Value) (a : Seeding)
      → foldl (seed_operand ir cfg i) a ops ≡ foldl visit a (operand_occurrences i ops)
  unfolding seed_operand operand_occurrences visit
  operand_occurrences-visit i [] a = refl
  operand_occurrences-visit i (op ∷ ops) a = elim (Option-cases (as_constant_int (ir.kind op))) [
    | inl e ↦
        rw (e, seed_operand, operand_occurrences, if_same a.found a)
          (operand_occurrences-visit i ops a)
    | inr (c, e) ↦
        rw (e, seed_operand, operand_occurrences)
          (elim (Bool-cases (eq_ℤ c cfg.constant_to_track)) [
            | inl same ↦ rw same (operand_occurrences-visit i ops (visit a (i, op)))
            | inr other ↦ rw (other, if_same a.found a) (operand_occurrences-visit i ops a)
          ])
  ]

  instruction_occurrences-visit :
      (is : List Value) (a : Seeding)
      → foldl (seed_instruction ir cfg) a is ≡ foldl visit a (instruction_occurrences is)
  unfolding seed_instruction instruction_occurrences
  instruction_occurrences-visit [] a = refl
  instruction_occurrences-visit (i ∷ is) a = elim (Bool-cases (opcode_matches ir cfg i)) [
    | inr other ↦ rw other (instruction_occurrences-visit is a)
    | inl same ↦
        rw
          (
            same,
            foldl-append visit a (operand_occurrences i (ir.operands i))
                (instruction_occurrences is),
            operand_occurrences-visit i (ir.operands i) a,
          )
          (instruction_occurrences-visit is _)
  ]

  occurrences-visit :
      (fs : List Function) (a : Seeding)
      → foldl (seed_function ir cfg) a fs ≡ foldl visit a (occurrences fs)
  unfolding seed_function occurrences
  occurrences-visit [] a = refl
  occurrences-visit (f ∷ fs) a =
      elim (Bool-cases (text_eq (ir.function_name f) cfg.function_name)) [
        | inr other ↦ rw other (occurrences-visit fs a)
        | inl same ↦
            rw
              (
                same,
                foldl-append visit a (instruction_occurrences (function_instructions ir f))
                    (occurrences fs),
                instruction_occurrences-visit (function_instructions ir f) a,
              )
              (occurrences-visit fs _)
      ]

  -- Is the occurrence after `n` others passed over?
  abbrev is_skipped : ℕ → Bool
  is_skipped n = not (cfg.occurrence_index == 0) && not (n + 1 == cfg.occurrence_index)

  visit_wanted :
      (a : Seeding) (o : Occurrence)
      → a.found ≡ false
      → is_skipped a.occurrence ≡ false
      → visit a o ≡ record {
        state = seed a.state o;
        occurrence = a.occurrence + 1;
        found = not (cfg.occurrence_index == 0);
      }
  unfolding visit seed_constant seed
  visit_wanted a (i, op) e h = if_false a.found _ _ e ∙ if_false (is_skipped a.occurrence) _ _ h

  visit_skipped :
      (a : Seeding) (o : Occurrence)
      → a.found ≡ false
      → is_skipped a.occurrence ≡ true
      → visit a o ≡ record a { occurrence = a.occurrence + 1 }
  unfolding visit seed_constant
  visit_skipped a (i, op) e h = if_false a.found _ _ e ∙ if_true (is_skipped a.occurrence) _ _ h

  visit_found : (os : List Occurrence) (a : Seeding) → a.found ≡ true → foldl visit a os ≡ a
  unfolding visit
  visit_found [] a e = refl
  visit_found (o ∷ os) a e = ap (λ b. foldl visit b os) (if_true a.found _ _ e) ∙ visit_found os a e

  visit_all :
      (os : List Occurrence) (a : Seeding)
      → cfg.occurrence_index ≡ 0
      → a.found ≡ false
      → (foldl visit a os).state ≡ foldl seed a.state os
  visit_all [] a every e = refl
  visit_all (o ∷ os) a every e =
      ap (λ b. (foldl visit b os).state) (visit_wanted a o e (ground arith))
      ∙ visit_all os _ every (ground arith)

  visit_one :
      (os : List Occurrence) (a : Seeding) (n : ℕ)
      → cfg.occurrence_index ≡ a.occurrence + suc n
      → a.found ≡ false
      → (foldl visit a os).state
        ≡ elim (get_elem? os n) [ none ↦ a.state | some o ↦ seed a.state o ]
  visit_one [] a n wanted e = refl
  visit_one (o ∷ os) a zero wanted e =
      ap (λ b. (foldl visit b os).state) (visit_wanted a o e (ground arith))
      ∙ ap (λ (b : Seeding). b.state) (visit_found os _ (ground arith))
  visit_one (o ∷ os) a (suc n) wanted e =
      ap (λ b. (foldl visit b os).state) (visit_skipped a o e (ground arith))
      ∙ visit_one os _ n (omega arith) e

-- With the occurrence index 0 every occurrence of the constant is seeded, in the order of the
-- program; with another index `n` the `n`-th alone is, and none where there are fewer.
pub seeds_lem :
    (ir : Ir) (cfg : Config)
    → (cfg.occurrence_index ≡ 0
        → (seeds ir cfg).state
          ≡ foldl (seed ir cfg) initial_state (occurrences ir cfg ir.functions))
      × ((n : ℕ)
          → cfg.occurrence_index ≡ suc n
          → (seeds ir cfg).state ≡ elim (get_elem? (occurrences ir cfg ir.functions) n) [
            | none ↦ initial_state
            | some o ↦ seed ir cfg initial_state o
          ])
unfolding seeds
seeds_lem ir cfg =
    let same =
      ap (λ (a : Seeding). a.state) (occurrences-visit ir cfg ir.functions (no_seeds ir cfg)) in
    (
      λ every.
          same ∙ visit_all ir cfg (occurrences ir cfg ir.functions) (no_seeds ir cfg) every refl,
      λ n wanted.
          same
          ∙ visit_one ir cfg (occurrences ir cfg ir.functions) (no_seeds ir cfg) n (omega arith)
              refl,
    )
