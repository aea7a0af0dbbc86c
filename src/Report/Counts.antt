-- ===== src/Report/Counts.antt =====
-- The numbers of functions in the report (passes/TaintTrackerPass/TaintTrackerPass.cpp).
use linux_analysis.Prelude.{
  ℕ, ◌+◌, ◌≤◌, ◌<◌, ℤ, ◌≡◌, refl, inl, inr, true, not, Option, none, some, List, [], ◌∷◌, ◌++◌,
  foldl, length, length-append, Map, lookup, contains, contains-insert, insert, keys, is_distinct,
  distinct-le, contains-keys-put, distinct-keys-put, length-keys, eq_ℤ, ◌∈◌, ◌⊆◌, ◌==◌, Bool-cases,
  Option-cases, some_inj, arith,
}
use linux_analysis.Llvm.{Ir, Value, Function, is_instruction, is_argument, defined_functions}
use linux_analysis.State.{State}
use linux_analysis.Provenance.{is_empty}
use linux_analysis.Report.Levels.{
  inc32, MaxLevel, count_or_zero, count_function, collect_value, collect, max_level,
  max_level_values, visit_function, visited_functions,
}
use linux_analysis.Report.Spans.{range_of}
use linux_analysis.Report.{
  Report, Range, sub32, reported, has_key, add_range, ranges, instruction_report, argument_report,
  report,
}

-- The functions with values of the level have been visited, and each has one count.
record Counted (counts : Map ℕ) (visited : List Function) : Type 0 where
  distinct : is_distinct (keys counts) ≡ true
  covered : keys counts ⊆ visited

count_function-Counted :
    (o : Option Function) (counts : Map ℕ) (visited : List Function)
    → Counted counts visited
    → Counted (count_function o counts) (elim o [ none ↦ visited | some f ↦ insert f visited ])
unfolding count_function
count_function-Counted none counts visited h = h
count_function-Counted (some f) counts visited h = record {
  distinct = distinct-keys-put f (inc32 (count_or_zero (lookup f counts))) counts h.distinct;
  covered = λ g m.
      let known = h.covered g in
      ground (
        arith,
        contains-insert g f visited,
        contains-keys-put g f (inc32 (count_or_zero (lookup f counts))) counts,
      );
}

Counted-insert :
    (o : Option Function) (counts : Map ℕ) (visited : List Function)
    → Counted counts visited
    → Counted counts (elim o [ none ↦ visited | some f ↦ insert f visited ])
Counted-insert none counts visited h = h
Counted-insert (some f) counts visited h = record {
  distinct = h.distinct;
  covered = λ g m. let known = h.covered g m in ground (arith, contains-insert g f visited);
}

module _ (ir : Ir) (s : State) (m : ℤ) where
  step-Counted :
      (a : MaxLevel) (fs : List Function) (v : Value) (l : ℤ)
      → Counted a.per_function fs
      → Counted (collect ir s m a (v, l)).per_function (visit_function ir s fs (v, l))
  unfolding collect collect_value visit_function
  step-Counted a fs v l h = elim (Bool-cases (contains v s.tainted_values)) [
    | inr out ↦ rw out h
    | inl tainted ↦ rw tainted (elim (Bool-cases (is_instruction (ir.kind v))) [
      | inl i ↦ rw i (elim (Bool-cases (eq_ℤ l m)) [
        | inl e ↦ rw e (count_function-Counted (ir.function_of v) a.per_function fs h)
        | inr e ↦ rw e (Counted-insert (ir.function_of v) a.per_function fs h)
      ])
      | inr i ↦ rw i (elim (Bool-cases (is_argument (ir.kind v))) [
        | inl arg ↦ rw arg (elim (Bool-cases (eq_ℤ l m)) [
          | inl e ↦ rw e (count_function-Counted (ir.function_of v) a.per_function fs h)
          | inr e ↦ rw e (Counted-insert (ir.function_of v) a.per_function fs h)
        ])
        | inr other ↦ rw other (elim (Bool-cases (eq_ℤ l m)) [ inl e ↦ rw e h | inr e ↦ rw e h ])
      ])
    ])
  ]

  fold-Counted :
      (es : Map ℤ) (a : MaxLevel) (fs : List Function)
      → Counted a.per_function fs
      → Counted (foldl (collect ir s m) a es).per_function (foldl (visit_function ir s) fs es)
  fold-Counted [] a fs h = h
  fold-Counted ((v, l) ∷ es) a fs h = fold-Counted es _ _ (step-Counted a fs v l h)

  counts-le : length (max_level_values ir s m).per_function ≤ length (visited_functions ir s)
  unfolding max_level_values visited_functions
  counts-le =
      let end =
        fold-Counted s.value_level (record { instructions = []; arguments = []; per_function = [] })
          [] (record { distinct = refl; covered = λ g h. h }) in
      omega (
        arith,
        length-keys (max_level_values ir s m).per_function,
        distinct-le _ _ end.distinct end.covered,
      )

contains-reported :
    (x : Function) (visited fs : List Function) → x ∈ reported visited fs → (x ∈ visited) × (x ∈ fs)
unfolding reported
contains-reported x visited [] h = cc
contains-reported x visited (f ∷ fs) h = elim (Bool-cases (contains f visited)) [
  | inr out ↦ let (v, m) = contains-reported x visited fs (rw out at h) in (v, ground arith)
  | inl here ↦ elim (Bool-cases (x == f)) [
    | inl same ↦ let q : x ≡ f = ground arith in (rw q here, ground arith)
    | inr other ↦
        let h' = rw here at h in
        let (v, m) = contains-reported x visited fs (ground arith) in (v, ground arith)
  ]
]

distinct-reported :
    (visited fs : List Function) → is_distinct fs ≡ true → is_distinct (reported visited fs) ≡ true
unfolding reported
distinct-reported visited [] d = refl
distinct-reported visited (f ∷ fs) d = elim (Bool-cases (contains f visited)) [
  | inr out ↦ rw out (distinct-reported visited fs (ground arith))
  | inl here ↦ rw here (elim (Bool-cases (contains f (reported visited fs))) [
    | inl again ↦ let (_, m) = contains-reported f visited fs again in ground arith
    | inr once ↦ ground (arith, distinct-reported visited fs)
  ])
]

module _ (ir : Ir) where
  contains-defined : (x : Function) (fs : List Function) → x ∈ defined_functions ir fs → x ∈ fs
  contains-defined x [] h = h
  contains-defined x (f ∷ fs) h = ground (arith, contains-defined x fs)

  distinct-defined :
      (fs : List Function) → is_distinct fs ≡ true → is_distinct (defined_functions ir fs) ≡ true
  distinct-defined [] d = refl
  distinct-defined (f ∷ fs) d = elim (Bool-cases (ir.is_declaration f)) [
    | inl e ↦ rw e (distinct-defined fs (ground arith))
    | inr e ↦ rw e (elim (Bool-cases (contains f (defined_functions ir fs))) [
      | inl again ↦ let m = contains-defined f fs again in ground arith
      | inr once ↦ ground (arith, distinct-defined fs)
    ])
  ]

  module _ (s : State) (m : ℤ) (counts : Map ℕ) where
    length-add_range :
        (rs : List Range) (f : Function) → length (add_range ir s m counts rs f) ≤ length rs + 1
    unfolding add_range
    length-add_range rs f = elim (Bool-cases (has_key f counts)) [
      | inr out ↦ rw out (omega arith)
      | inl here ↦ rw here (added (range_of ir s m f))
    ]
      where
        added :
            (o : Option (Value × Value))
            → length {A = Range} (elim o [
              | none ↦ rs
              | some (i, j) ↦ rs ++ record { function = f; first = i; last = j } ∷ []
            ])
              ≤ length rs + 1
        added none = omega arith
        added (some (i, j)) =
            omega (arith, length-append rs (record { function = f; first = i; last = j } ∷ []))

    length-ranges :
        (fs : List Function) (rs : List Range)
        → length (foldl (add_range ir s m counts) rs fs) ≤ length rs + length fs
    length-ranges [] rs = omega arith
    length-ranges (f ∷ fs) rs =
        omega (arith, length-ranges fs (add_range ir s m counts rs f), length-add_range rs f)

    ranges-le :
        is_distinct ir.functions ≡ true
        → length (
            ranges ir s m counts
              (reported (visited_functions ir s) (defined_functions ir ir.functions)))
          ≤ length (visited_functions ir s)
    unfolding ranges
    ranges-le d =
        let visited = visited_functions ir s in
        let fs = reported visited (defined_functions ir ir.functions) in
        omega (
          arith,
          length-ranges fs [],
          distinct-le fs visited
              (distinct-reported visited (defined_functions ir ir.functions)
                (distinct-defined ir.functions d))
              (λ x h. (contains-reported x visited (defined_functions ir ir.functions) h).0),
        )

sub32_exact : (a b : ℕ) → b ≤ a → a < 4294967296 → b + sub32 a b ≡ a
sub32_exact a b h k = omega arith

-- In a report the subtraction of unsigned sizes does not wrap around: the functions of the
-- largest level and the others are the visited functions, provided that the functions of the
-- module are distinct and fewer than 2^32 are visited.
pub report_functions :
    (ir : Ir) (s : State) (r : Report)
    → is_distinct ir.functions ≡ true
    → length (visited_functions ir s) < 4294967296
    → report ir s ≡ some r
    → r.max_functions + r.other_functions ≡ length (visited_functions ir s)
unfolding report instruction_report argument_report
report_functions ir s r d small e = elim (Option-cases (max_level s)) [
  | inl never ↦ cc (rw (never, report) at e)
  | inr (m, top) ↦
      let v = max_level_values ir s m in
      elim (Bool-cases (not (is_empty v.instructions))) [
        | inl some_instruction ↦
            let same : instruction_report ir s m v ≡ r =
              some_inj (rw (top, some_instruction, report) at e) in
            rw (← same) (sub32_exact _ _ (ranges-le ir s m v.per_function d) small)
        | inr no_instruction ↦ elim (Bool-cases (not (is_empty v.arguments))) [
          | inl some_argument ↦
              let same : argument_report ir s m v ≡ r =
                some_inj (rw (top, no_instruction, some_argument, report) at e) in
              rw (← same) (sub32_exact _ _ (counts-le ir s m) small)
          | inr no_argument ↦ cc (rw (top, no_instruction, no_argument, report) at e)
        ]
      ]
]
