-- ===== src/Upward/Arguments.antt =====
-- The calls of functions that taint a parameter, as steps of `Moves`.
use linux_analysis.Prelude.{
  ℕ, ℤ, ◌≡◌, refl, inl, inr, Bool, true, false, ◌||◌, some, List, [], ◌∷◌, foldl, foldl_steps,
  get_elem?, Map, contains, insert_new, sort, ◌∈◌, ◌⊆◌, Bool-cases, Option-cases, if◌then◌else◌,
  arith,
}
use linux_analysis.Llvm.{
  Ir, Value, Function, Kind, Gep, Call, IsModule, as_store, as_gep, as_call, is_alloca, arg_no,
  referred, defined_instructions,
}
use linux_analysis.State.{State}
use linux_analysis.Provenance.{get_pointer_parameter_origin}
use linux_analysis.Provenance.Ends.{subset_head}
use linux_analysis.Provenance.Inside.{store-mem, origin-mem}
use linux_analysis.Stores.{mark_pointer, taint_param}
use linux_analysis.Downward.{sort_entries}
use linux_analysis.Downward.Progress.{get_elem?-mem}
use linux_analysis.Downward.Ends.{defined_instructions-mem}
use linux_analysis.Upward.{
  Discovery, accessed_fields, raise_caller, pass_through, pointed_variable, visit_field_store,
  visit_field, taint_variable, visit_argument, visit_tainting_call, taint_arguments_of,
  taint_passed_pointers,
}
use linux_analysis.Upward.Discoveries.{taint_param-Finds, arg_no-mem}
use linux_analysis.Upward.Moves.{Moves, Moves-refl, Moves-trans, Moves-Finds, Moves-mark}
use linux_analysis.Upward.Callers.{raise_caller-Moves}

referred_call : (k : Kind) (c : Call) → as_call k ≡ some c → referred k ≡ c.arguments
referred_call k c e = ground arith

referred_gep : (k : Kind) (g : Gep) → as_gep k ≡ some g → referred k ≡ g.base ∷ []
referred_gep k g e = ground arith

module _ (ir : Ir) (is_module : IsModule ir) where
  pub arguments-mem :
      (i : Value) (c : Call)
      → i ∈ ir.values
      → as_call (ir.kind i) ≡ some c
      → c.arguments ⊆ ir.values
  arguments-mem i c m e = rw (referred_call (ir.kind i) c e) at (is_module.referred_mem i m)

  gep_base-mem :
      (v : Value) (g : Gep)
      → v ∈ ir.values
      → as_gep (ir.kind v) ≡ some g
      → ir.strip_pointer_casts g.base ∈ ir.values
  gep_base-mem v g m e =
      let sub = rw (referred_gep (ir.kind v) g e) at (is_module.referred_mem v m) in
      is_module.strip_mem g.base (subset_head g.base [] ir.values sub)

  -- A parameter that is recorded for a caller.
  pub taint_param-Moves :
      (i v : Value) (g : Function) (n : ℕ) (s : State) (d : Bool)
      → v ∈ ir.values
      → ir.function_of i ≡ some g
      → arg_no (ir.kind v) ≡ n
      → Moves ir (s, d) ((taint_param g n s).0, d || (taint_param g n s).1)
  unfolding taint_param
  taint_param-Moves i v g n s d m e number =
      Moves-Finds ir (s, d) _ refl refl refl refl (λ x l m e. e)
        (taint_param-Finds ir g n s d (is_module.function_mem i g e)
          (rw number at (arg_no-mem ir v ir.values m)))

  pass_through-Moves :
      (f : Function) (call p : Value) (a : Discovery)
      → p ∈ ir.values
      → Moves ir a (pass_through ir f call (arg_no (ir.kind p)) a)
  unfolding pass_through
  pass_through-Moves f call p a m = elim (Option-cases (ir.function_of call)) [
    | inl e ↦ rw (e, pass_through) (Moves-refl ir a)
    | inr (g, e) ↦
        let n = arg_no (ir.kind p) in
        let moves = taint_param-Moves call p g n a.0 a.1 m e refl in
        rw (e, pass_through)
          (elim (Bool-cases (taint_param g n a.0).1) [
            | inr known ↦ rw known (same_flag a.1 (rw known at moves))
            | inl new ↦ rw new (
                Moves-trans ir a _ _ (new_flag a.1 (rw new at moves))
                  (raise_caller-Moves ir is_module f call (taint_param g n a.0).0 true))
          ])
  ]
    where
      same_flag : (d : Bool) {t : State} → Moves ir a (t, d || false) → Moves ir a (t, d)
      same_flag true h = h
      same_flag false h = h

      new_flag : (d : Bool) {t : State} → Moves ir a (t, d || true) → Moves ir a (t, true)
      new_flag true h = h
      new_flag false h = h

  pub mark_pointer-Moves :
      (p inst : Value) (s : State) (d : Bool)
      → p ∈ ir.values
      → Moves ir (s, d) (mark_pointer p inst s, d)
  unfolding mark_pointer
  mark_pointer-Moves p inst s d m = elim (Bool-cases (contains p s.tainted_pointers)) [
    | inl old ↦ rw old (Moves-refl ir (s, d))
    | inr new ↦ rw new (
        Moves-mark ir p inst (s, d) _ m new (insert_new p _ new) refl refl refl (λ x l m e. e)
          (inr (refl, refl, refl)))
  ]

  visit_field_store-Moves :
      (call gep : Value) (s : State) (u : Value) (d : Bool)
      → u ∈ ir.values
      → Moves ir (s, d) (visit_field_store ir call gep s u, d)
  unfolding visit_field_store
  visit_field_store-Moves call gep s u d m = elim (Option-cases (as_store (ir.kind u))) [
    | inl e ↦ rw (e, visit_field_store) (Moves-refl ir (s, d))
    | inr (st, e) ↦
        rw (e, visit_field_store) (marked st.value _ (store-mem ir is_module u st m e).0)
  ]
    where
      marked :
          (x : Value) (b : Bool)
          → x ∈ ir.values
          → Moves ir (s, d) (if b then mark_pointer (ir.strip_pointer_casts x) call s else s, d)
      marked x true h =
          mark_pointer-Moves (ir.strip_pointer_casts x) call s d (is_module.strip_mem x h)
      marked x false h = Moves-refl ir (s, d)

  pub visit_field-Moves :
      (call : Value) (fields : List ℤ) (s : State) (u : Value) (d : Bool)
      → u ∈ ir.values
      → Moves ir (s, d) (visit_field ir call fields s u, d)
  unfolding visit_field
  visit_field-Moves call fields s u d m = elim (Option-cases (as_gep (ir.kind u))) [
    | inl e ↦ rw (e, visit_field) (Moves-refl ir (s, d))
    | inr (gep, e) ↦ rw (e, visit_field) (stores _)
  ]
    where
      stores :
          (b : Bool)
          → Moves ir (s, d) (if b then foldl (visit_field_store ir call u) s (ir.users u) else s, d)
      stores false = Moves-refl ir (s, d)
      stores true =
          foldl_steps (λ s t. Moves ir (s, d) (t, d)) (λ s. Moves-refl ir (s, d))
            (λ s t u. Moves-trans ir (s, d) (t, d) (u, d)) (visit_field_store ir call u)
            (ir.users u)
            (λ t i h. visit_field_store-Moves call u t i d (is_module.users_mem u m i h)) s

  taint_variable-Moves :
      (f : Function) (call : Value) (i : ℕ) (x : Value) (s : State) (d : Bool)
      → x ∈ ir.values
      → Moves ir (s, d) (taint_variable ir f call i x s, d)
  unfolding taint_variable
  taint_variable-Moves f call i x s d m = elim (Bool-cases (contains x s.tainted_pointers)) [
    | inl old ↦ rw old (Moves-refl ir (s, d))
    | inr new ↦ rw new (Moves-trans ir (s, d) (s1, d) _ first (fields _))
  ]
    where
      s1 : State
      s1 = mark_pointer x call (raise_caller ir f call s)

      first : Moves ir (s, d) (s1, d)
      first =
          Moves-trans ir (s, d) (raise_caller ir f call s, d) (s1, d)
            (raise_caller-Moves ir is_module f call s d) (mark_pointer-Moves x call _ d m)

      fields :
          (b : Bool)
          → Moves ir
              (s1, d)
              (
                if b
                    then foldl (visit_field ir call (accessed_fields f i s1)) s1 (ir.users x)
                    else s1,
                d,
              )
      fields false = Moves-refl ir (s1, d)
      fields true =
          foldl_steps (λ s t. Moves ir (s, d) (t, d)) (λ s. Moves-refl ir (s, d))
            (λ s t u. Moves-trans ir (s, d) (t, d) (u, d))
            (visit_field ir call (accessed_fields f i s1)) (ir.users x)
            (λ t u h. visit_field-Moves call _ t u d (is_module.users_mem x m u h)) s1

  pub pointed_variable-mem :
      (arg x : Value) → arg ∈ ir.values → pointed_variable ir arg ≡ some x → x ∈ ir.values
  unfolding pointed_variable
  pointed_variable-mem arg x m e = elim (Bool-cases (is_alloca (ir.kind arg))) [
    | inl local ↦ let same : arg ≡ x = cc (rw local at e) in rw (← same) m
    | inr other ↦ elim (Option-cases (as_gep (ir.kind arg))) [
      | inl n ↦ cc (rw (other, n, pointed_variable) at e)
      | inr (gep, g) ↦
          let same : ir.strip_pointer_casts gep.base ≡ x =
            cc (rw (other, g, pointed_variable) at e) in
          rw (← same) (gep_base-mem arg gep m g)
    ]
  ]

  pub visit_argument-Moves :
      (f : Function) (call : Value) (args : List Value) (a : Discovery) (i : ℕ)
      → args ⊆ ir.values
      → Moves ir a (visit_argument ir f call args a i)
  unfolding visit_argument
  visit_argument-Moves f call args a i sub = elim (Option-cases (get_elem? args i)) [
    | inl e ↦ rw (e, visit_argument) (Moves-refl ir a)
    | inr (arg, e) ↦
        let m = sub arg (get_elem?-mem i arg args e) in
        rw (e, visit_argument)
          (elim (Option-cases (get_pointer_parameter_origin ir arg)) [
            | inr (p, o) ↦
                rw (o, visit_argument)
                  (pass_through-Moves f call p a (origin-mem ir is_module arg p m o))
            | inl o ↦
                rw (o, visit_argument)
                  (elim (Option-cases (pointed_variable ir arg)) [
                    | inl n ↦ rw (n, visit_argument) (Moves-refl ir a)
                    | inr (x, n) ↦
                        rw (n, visit_argument)
                          (taint_variable-Moves f call i x a.0 a.1 (pointed_variable-mem arg x m n))
                  ])
          ])
  ]

  pub visit_tainting_call-Moves :
      (f : Function) (params : List ℕ) (a : Discovery) (i : Value)
      → i ∈ ir.values
      → Moves ir a (visit_tainting_call ir f params a i)
  unfolding visit_tainting_call
  visit_tainting_call-Moves f params a i m = elim (Option-cases (as_call (ir.kind i))) [
    | inl e ↦ rw (e, visit_tainting_call) (Moves-refl ir a)
    | inr (c, e) ↦ rw (e, visit_tainting_call) (arguments c (arguments-mem i c m e) _)
  ]
    where
      arguments :
          (c : Call)
          → c.arguments ⊆ ir.values
          → (b : Bool)
          → Moves ir a (if b then foldl (visit_argument ir f i c.arguments) a (sort params) else a)
      arguments c sub false = Moves-refl ir a
      arguments c sub true =
          foldl_steps (Moves ir) (Moves-refl ir) (Moves-trans ir)
            (visit_argument ir f i c.arguments) (sort params)
            (λ b n _. visit_argument-Moves f i c.arguments b n sub) a

  pub taint_arguments-Moves :
      (m : Map (List ℕ)) (a : Discovery) → Moves ir a (foldl (taint_arguments_of ir) a m)
  unfolding taint_arguments_of
  taint_arguments-Moves [] a = Moves-refl ir a
  taint_arguments-Moves ((f, params) ∷ m) a =
      Moves-trans ir a _ _
        (foldl_steps (Moves ir) (Moves-refl ir) (Moves-trans ir) (visit_tainting_call ir f params)
          (defined_instructions ir)
          (λ b i h.
            visit_tainting_call-Moves f params b i (defined_instructions-mem ir is_module i h))
          a)
        (taint_arguments-Moves m _)

  pub taint_passed_pointers-Moves : (s : State) → Moves ir (s, false) (taint_passed_pointers ir s)
  unfolding taint_passed_pointers
  taint_passed_pointers-Moves s =
      taint_arguments-Moves (sort_entries s.functions_tainting_pointer_params) (s, false)
