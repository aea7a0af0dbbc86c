-- ===== src/Report/Spans/Laws.antt =====
-- The span of a function reaches from its first to its last instruction with the largest level.
use linux_analysis.Prelude.{
  ℕ, ◌+◌, ◌-◌, ◌%◌, ◌≤◌, ℤ, ◌≡◌, refl, sym, ap, ◌∙◌, ◌⊎◌, inl, inr, true, false, Option, none, some,
  List, [], ◌∷◌, ◌++◌, foldl, length, contains, is_distinct, distinct_before, ◌∈◌, ◌==◌, ==_refl,
  Bool-cases, arith,
}
use linux_analysis.Llvm.{Ir, Value, Function, function_instructions}
use linux_analysis.State.{State}
use linux_analysis.Report.Levels.{inc32}
use linux_analysis.Report.Spans.{at_level, widen, range_step, range_of, count_range}

-- In the range, the count goes up to the last instruction.
count_inside :
    (first last : Value) (n : ℕ) (xs ys : List Value)
    → contains last xs ≡ false
    → count_range first last true n (xs ++ last ∷ ys) ≡ (n + length xs + 1) % 4294967296
unfolding count_range
count_inside first last n [] ys new = rw (==_refl last) (omega arith)
count_inside first last n (x ∷ xs) ys new =
    let other : (x == last) ≡ false = ground arith in
    rw other (omega (arith, count_inside first last (inc32 n) xs ys (ground arith)))

-- Before the range nothing is counted.
count_outside :
    (first last : Value) (xs pre rest ys : List Value)
    → xs ++ first ∷ rest ≡ pre ++ last ∷ ys
    → contains first xs ≡ false
    → contains last xs ≡ false
    → contains last pre ≡ false
    → (length xs ≤ length pre)
      × (count_range first last false 0 (pre ++ last ∷ ys)
          ≡ (length pre + 1 - length xs) % 4294967296)
unfolding count_range
count_outside first last [] [] rest ys e hf hl hp =
    let same : first ≡ last = cc in (omega arith, rw (same, ==_refl last) refl)
count_outside first last [] (p ∷ pre) rest ys e hf hl hp =
    let same : first ≡ p = cc in
    let other : (p == last) ≡ false = ground arith in
    (
      omega arith,
      rw (same, ==_refl p, other) (omega (arith, count_inside first last 1 pre ys (ground arith))),
    )
count_outside first last (x ∷ xs) [] rest ys e hf hl hp =
    let same : x ≡ last = cc in let gone = rw (same, ==_refl last) at hl in cc
count_outside first last (x ∷ xs) (p ∷ pre) rest ys e hf hl hp =
    let same : x ≡ p = cc in
    let tails : xs ++ first ∷ rest ≡ pre ++ last ∷ ys = cc in
    let not_first : (p == first) ≡ false = ground (arith, same) in
    let not_last : (p == last) ≡ false = ground arith in
    let (le, run) =
      count_outside first last xs pre rest ys tails (ground arith) (ground arith) (ground arith) in
    (omega (arith, le), rw (not_first, not_last) (run ∙ omega (arith, le)))

module _ (s : State) (m : ℤ) where
  abbrev pub NoneAt : List Value → Type 0
  NoneAt xs = (x : Value) → x ∈ xs → at_level s m x ≡ false

  NoneAt-cons : (x : Value) (xs : List Value) → at_level s m x ≡ false → NoneAt xs → NoneAt (x ∷ xs)
  NoneAt-cons x xs e h y hy = elim (Bool-cases (y == x)) [
    | inl same ↦ let q : y ≡ x = ground arith in rw q e
    | inr other ↦ h y (ground arith)
  ]

  -- The first instruction stays, and the last is the last one at the level.
  first_stays :
      (is : List Value) (a b c d : Value)
      → foldl (range_step s m) (some (a, b)) is ≡ some (c, d)
      → a ≡ c
  unfolding range_step
  first_stays [] a b c d e = cc
  first_stays (i ∷ is) a b c d e = elim (Bool-cases (at_level s m i)) [
    | inl hit ↦ first_stays is a i c d (rw hit at e)
    | inr miss ↦ first_stays is a b c d (rw miss at e)
  ]

  first_split :
      (is : List Value) (c d : Value)
      → foldl (range_step s m) none is ≡ some (c, d)
      → (xs : List Value) × (rest : List Value) × (is ≡ xs ++ c ∷ rest)
        × NoneAt xs
        × (at_level s m c ≡ true)
  unfolding range_step
  first_split [] c d e = cc
  first_split (i ∷ is) c d e = elim (Bool-cases (at_level s m i)) [
    | inl hit ↦
        let q : i ≡ c = first_stays is i i c d (rw hit at e) in
        ([], is, rw q refl, λ x h. cc, rw (← q) hit)
    | inr miss ↦
        let (xs, rest, split, none_at, at) = first_split is c d (rw miss at e) in
        (i ∷ xs, rest, ap (λ (t : List Value). i ∷ t) split, NoneAt-cons i xs miss none_at, at)
  ]

  last_split :
      (is : List Value) (r : Option (Value × Value)) (c d : Value)
      → foldl (range_step s m) r is ≡ some (c, d)
      → ((r ≡ some (c, d)) × NoneAt is)
        ⊎ ((pre : List Value) × (ys : List Value) × (is ≡ pre ++ d ∷ ys)
            × NoneAt ys
            × (at_level s m d ≡ true))
  unfolding range_step
  last_split [] r c d e = inl (e, λ x h. cc)
  last_split (i ∷ is) r c d e = elim (Bool-cases (at_level s m i)) [
    | inr miss ↦ elim (last_split is r c d (rw miss at e)) [
      | inl (start, none_at) ↦ inl (start, NoneAt-cons i is miss none_at)
      | inr (pre, ys, split, none_at, at) ↦
          inr (i ∷ pre, ys, ap (λ (t : List Value). i ∷ t) split, none_at, at)
    ]
    | inl hit ↦ elim (last_split is (widen r i) c d (rw hit at e)) [
      | inl (start, none_at) ↦
          let q : i ≡ d = widened r start in inr ([], is, rw q refl, none_at, rw (← q) hit)
      | inr (pre, ys, split, none_at, at) ↦
          inr (i ∷ pre, ys, ap (λ (t : List Value). i ∷ t) split, none_at, at)
    ]
  ]
    where
      widened : (r : Option (Value × Value)) → widen r i ≡ some (c, d) → i ≡ d
      widened none e = cc
      widened (some (a, b)) e = cc

-- Where a function has a range, in which an instruction stands once, its first instruction is at
-- the level and none before it is, its last is and none behind it is, the first is not behind the
-- last, and the count is that of the instructions from the one to the other, as an `unsigned`.
pub range_lem :
    (ir : Ir) (s : State) (m : ℤ) (f : Function) (first last : Value)
    → is_distinct (function_instructions ir f) ≡ true
    → range_of ir s m f ≡ some (first, last)
    → (xs : List Value) × (rest : List Value) × (pre : List Value) × (ys : List Value)
      × (function_instructions ir f ≡ xs ++ first ∷ rest)
      × (function_instructions ir f ≡ pre ++ last ∷ ys)
      × NoneAt s m xs
      × (at_level s m first ≡ true)
      × NoneAt s m ys
      × (at_level s m last ≡ true)
      × (length xs ≤ length pre)
      × (count_range first last false 0 (function_instructions ir f)
          ≡ (length pre + 1 - length xs) % 4294967296)
unfolding range_of
range_lem ir s m f first last distinct run =
    let (xs, rest, split, none_at, at) =
      first_split s m (function_instructions ir f) first last run in
    elim (last_split s m (function_instructions ir f) none first last run) [
      | inl (never, _) ↦ cc
      | inr (pre, ys, split', none_at', at') ↦
          let (le, count) =
            count_outside first last xs pre rest ys (sym split ∙ split')
              (elim (Bool-cases (contains first xs)) [
                | inl here ↦ cc (none_at first here)
                | inr out ↦ out
              ])
              (elim (Bool-cases (contains last xs)) [
                | inl here ↦ cc (none_at last here)
                | inr out ↦ out
              ])
              (distinct_before last pre ys (rw split' at distinct)) in
          (xs, rest, pre, ys, split, split', none_at, at, none_at', at', le, rw split' count)
    ]
