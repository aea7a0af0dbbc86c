-- ===== src/Level/Laws.antt =====
-- `ensureLevelSet` (passes/TaintTrackerPass/TaintTrackerPass.cpp) records a level that `getLevel`
-- would give anyway.
use linux_analysis.Prelude.{
  ◌≡◌, sym, subst, ℤ, refl, inl, inr, true, none, some, lookup, put, lookup-put, ==_refl, ◌==◌,
  Bool-cases, Option-cases, arith,
}
use linux_analysis.Llvm.{Ir, Value, Function, is_instruction}
use linux_analysis.State.{State}
use linux_analysis.Level.{get_level, level_of_function, ensured_levels, ensure_level_set}

-- On an instruction the call changes the level of no value, so it can be left out or repeated
-- until a function's level changes.
pub get_level-ensure_level_set :
    (ir : Ir) (s : State) (v w : Value)
    → is_instruction (ir.kind v) ≡ true
    → get_level ir (ensure_level_set ir v s) w ≡ get_level ir s w
unfolding get_level level_of_function ensure_level_set ensured_levels
get_level-ensure_level_set ir s v w h = elim (Option-cases (lookup v s.value_level)) [
  | inr (l, known) ↦ rw (known, ensured_levels) refl
  | inl new ↦ elim (Option-cases (ir.function_of v)) [
    | inl outside ↦ rw (new, outside, ensured_levels) refl
    | inr (f, within) ↦ elim (Option-cases (lookup f s.function_level)) [
      | inl free ↦ rw (new, within, free, ensured_levels) refl
      | inr (l, level) ↦ rw (new, within, level, ensured_levels) (recorded f l new within level)
    ]
  ]
]
  where
    recorded :
        (f : Function) (l : ℤ)
        → lookup v s.value_level ≡ none
        → ir.function_of v ≡ some f
        → lookup f s.function_level ≡ some l
        → get_level ir (record s { value_level = put v l s.value_level }) w ≡ get_level ir s w
    recorded f l new within level = elim (Bool-cases (w == v)) [
      | inl same ↦
          let q : w ≡ v = ground arith in
          let own : level_of_function ir s v ≡ some l =
            rw (h, within, level, level_of_function) refl in
          let at_v : get_level ir (record s { value_level = put v l s.value_level }) v
              ≡ get_level ir s v =
            rw (lookup-put v v l s.value_level, ==_refl v, new, own, get_level) refl in
          subst
            (λ x.
              get_level ir (record s { value_level = put v l s.value_level }) x ≡ get_level ir s x)
            (sym q) at_v
      | inr other ↦ rw (lookup-put w v l s.value_level, other, get_level) refl
    ]

-- A level that is set stays.
pub lookup-ensured_levels :
    (ir : Ir) (v x : Value) (l : ℤ) (s : State)
    → lookup x s.value_level ≡ some l
    → lookup x (ensured_levels ir v s) ≡ some l
unfolding ensured_levels
lookup-ensured_levels ir v x l s e = elim (Option-cases (lookup v s.value_level)) [
  | inr (k, known) ↦ rw (known, ensured_levels) e
  | inl fresh ↦ elim (Option-cases (ir.function_of v)) [
    | inl out ↦ rw (fresh, out, ensured_levels) e
    | inr (f, within) ↦ elim (Option-cases (lookup f s.function_level)) [
      | inl unknown ↦ rw (fresh, within, unknown, ensured_levels) e
      | inr (k, known) ↦
          rw (fresh, within, known, ensured_levels)
            (elim (Bool-cases (x == v)) [
              | inl same ↦ let q : x ≡ v = ground arith in cc (rw q at e)
              | inr other ↦ rw (lookup-put x v k s.value_level, other) e
            ])
    ]
  ]
]
