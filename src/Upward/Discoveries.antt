-- ===== src/Upward/Discoveries.antt =====
-- What is left to discover on the way up: functions that return taint, and parameters.
use linux_analysis.Prelude.{
  ℕ, ◌+◌, ◌≤◌, ◌<◌, ◌≡◌, refl, ◌∙◌, ◌⊎◌, inl, inr, Bool, true, false, Option, none, some, List, [],
  ◌∷◌, ◌||◌, Map, lookup, put, put_same, lookup-put, contains, contains-insert, insert, insert_new,
  insert_old, missing, missing_mono, missing-cons, ◌∈◌, ◌⊆◌, ◌==◌, ==_refl, Bool-cases, arith,
}
use linux_analysis.Llvm.{Ir, Value, Function, arg_no}
use linux_analysis.State.{State}
use linux_analysis.Stores.{or_nothing, taint_param}
use linux_analysis.Upward.{Discovery}

-- The numbers that a parameter of the module can have.
abbrev pub numbers : Ir → List Value → List ℕ
numbers ir [] = []
numbers ir (v ∷ vs) = arg_no (ir.kind v) ∷ numbers ir vs

pub arg_no-mem :
    (ir : Ir) (v : Value) (vs : List Value) → v ∈ vs → arg_no (ir.kind v) ∈ numbers ir vs
arg_no-mem ir v [] m = cc
arg_no-mem ir v (w ∷ vs) m = elim (Bool-cases (v == w)) [
  | inl same ↦ let q : v ≡ w = ground arith in rw q (ground (arith, ==_refl (arg_no (ir.kind w))))
  | inr other ↦ ground (arith, arg_no-mem ir v vs)
]

-- The parameters of the functions `fs` that are not discovered.
unfoldable pub params_left : List ℕ → Map (List ℕ) → List Function → ℕ
params_left ns m [] = 0
params_left ns m (f ∷ fs) = missing ns (or_nothing (lookup f m)) + params_left ns m fs

params_left-put-le :
    (ns : List ℕ) (m : Map (List ℕ)) (g : Function) (n : ℕ) (fs : List Function)
    → params_left ns (put g (n ∷ or_nothing (lookup g m)) m) fs ≤ params_left ns m fs
unfolding params_left
params_left-put-le ns m g n [] = omega arith
params_left-put-le ns m g n (f ∷ fs) = elim (Bool-cases (f == g)) [
  | inl same ↦
      let q : f ≡ g = ground arith in
      rw (q, lookup-put g g (n ∷ or_nothing (lookup g m)) m, ==_refl g)
        (omega (
          arith,
          params_left-put-le ns m g n fs,
          missing_mono ns (or_nothing (lookup g m)) (n ∷ or_nothing (lookup g m))
              (λ x h. ground arith),
        ))
  | inr other ↦
      rw (lookup-put f g (n ∷ or_nothing (lookup g m)) m, other)
        (omega (arith, params_left-put-le ns m g n fs))
]

params_left-put-lt :
    (ns : List ℕ) (m : Map (List ℕ)) (g : Function) (n : ℕ) (fs : List Function)
    → n ∈ ns
    → g ∈ fs
    → contains n (or_nothing (lookup g m)) ≡ false
    → params_left ns (put g (n ∷ or_nothing (lookup g m)) m) fs < params_left ns m fs
unfolding params_left
params_left-put-lt ns m g n [] hn hg new = cc
params_left-put-lt ns m g n (f ∷ fs) hn hg new = elim (Bool-cases (f == g)) [
  | inl same ↦
      let q : f ≡ g = ground arith in
      rw (q, lookup-put g g (n ∷ or_nothing (lookup g m)) m, ==_refl g)
        (omega (
          arith,
          params_left-put-le ns m g n fs,
          missing-cons ns (or_nothing (lookup g m)) n hn new,
        ))
  | inr other ↦
      rw (lookup-put f g (n ∷ or_nothing (lookup g m)) m, other)
        (omega (arith, params_left-put-lt ns m g n fs hn (ground arith) new))
]

-- The functions that return taint and the parameters that are left to discover.
abbrev pub undiscovered : Ir → State → ℕ
undiscovered ir s =
    missing ir.functions s.functions_returning_taint
    + params_left (numbers ir ir.values) s.functions_tainting_pointer_params ir.functions

-- What is discovered stays so.
abbrev pub Remembers : State → State → Type 0
Remembers s t =
    (s.functions_returning_taint ⊆ t.functions_returning_taint)
    × ((g : Function) (n : ℕ)
        → n ∈ or_nothing (lookup g s.functions_tainting_pointer_params)
        → n ∈ or_nothing (lookup g t.functions_tainting_pointer_params))

-- The flag is set, and something was discovered; or nothing was.
abbrev pub Finds : Ir → Discovery → Discovery → Type 0
Finds ir a b =
    ((b.1 ≡ true) × (undiscovered ir b.0 < undiscovered ir a.0) × Remembers a.0 b.0)
    ⊎ ((b.1 ≡ a.1)
        × (b.0.functions_returning_taint ≡ a.0.functions_returning_taint)
        × (b.0.functions_tainting_pointer_params ≡ a.0.functions_tainting_pointer_params))

pub Finds-Remembers : (ir : Ir) (a b : Discovery) → Finds ir a b → Remembers a.0 b.0
Finds-Remembers ir a b (inl (f, less, kept)) = kept
Finds-Remembers ir a b (inr (f, same, same')) = (λ x m. rw same m, λ g n m. rw same' m)

Remembers-trans : (s t u : State) → Remembers s t → Remembers t u → Remembers s u
Remembers-trans s t u h k = (λ x m. k.0 x (h.0 x m), λ g n m. k.1 g n (h.1 g n m))

pub Finds-trans : (ir : Ir) (a b c : Discovery) → Finds ir a b → Finds ir b c → Finds ir a c
Finds-trans ir a b c (inl (f, less, kept)) h = after h (Finds-Remembers ir b c h)
  where
    after : Finds ir b c → Remembers b.0 c.0 → Finds ir a c
    after (inl (g, less', _)) kept' = inl (g, omega arith, Remembers-trans a.0 b.0 c.0 kept kept')
    after (inr (g, same, same')) kept' =
        inl (g ∙ f, rw (same, same') less, Remembers-trans a.0 b.0 c.0 kept kept')
Finds-trans ir a b c (inr (f, same, same')) (inl (g, less, kept)) = inl (
  g,
  rw (same, same') at less,
  Remembers-trans a.0 b.0 c.0 (Finds-Remembers ir a b (inr (f, same, same'))) kept,
)
Finds-trans ir a b c (inr (f, same, same')) (inr (g, same2, same2')) =
    inr (g ∙ f, same2 ∙ same, same2' ∙ same')

module _ (ir : Ir) where
  -- A parameter is discovered, or was known.
  pub taint_param-Finds :
      (g : Function) (n : ℕ) (s : State) (found : Bool)
      → g ∈ ir.functions
      → n ∈ numbers ir ir.values
      → Finds ir (s, found) ((taint_param g n s).0, found || (taint_param g n s).1)
  unfolding taint_param
  taint_param-Finds g n s found hg hn =
      elim (Bool-cases (contains n (or_nothing (lookup g s.functions_tainting_pointer_params)))) [
        | inr new ↦ inl (
          ground (arith, new),
          rw (insert_new n _ new) (
              omega (
                arith,
                params_left-put-lt (numbers ir ir.values) s.functions_tainting_pointer_params g n
                    ir.functions hn hg new,
              )),
          (λ x m. m, kept),
        )
        | inl old ↦ inr (
          ground (arith, old),
          refl,
          put_old (lookup g s.functions_tainting_pointer_params) refl old,
        )
      ]
    where
      kept :
          (h : Function) (k : ℕ)
          → k ∈ or_nothing (lookup h s.functions_tainting_pointer_params)
          → k
            ∈ or_nothing (
                lookup h (
                  put g
                    (insert n (or_nothing (lookup g s.functions_tainting_pointer_params)))
                    s.functions_tainting_pointer_params))
      kept h k m = elim (Bool-cases (h == g)) [
        | inl same ↦
            let q : h ≡ g = ground arith in
            rw (lookup-put h g (insert n _) s.functions_tainting_pointer_params, same)
              (rw (contains-insert k n _) (ground (arith, rw q at m)))
        | inr other ↦ rw (lookup-put h g (insert n _) s.functions_tainting_pointer_params, other) m
      ]

      put_old :
          (o : Option (List ℕ))
          → lookup g s.functions_tainting_pointer_params ≡ o
          → n ∈ or_nothing o
          → put g
              (insert n (or_nothing (lookup g s.functions_tainting_pointer_params)))
              s.functions_tainting_pointer_params
            ≡ s.functions_tainting_pointer_params
      put_old none e m = cc
      put_old (some ns) e m = rw (e, insert_old n ns m) (put_same g ns _ e)
