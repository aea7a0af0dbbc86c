-- ===== src/Downward/Uses.antt =====
-- The uses of a tainted value taint what `Flow` says, and put it on the worklist.
use linux_analysis.Prelude.{
  ℕ, ◌≡◌, refl, Bool, true, false, not, ◌&&◌, ◌||◌, Option, none, some, List, [], ◌∷◌, ◌++◌, foldl,
  flat_map, get_elem?, Map, lookup, contains, contains-append, sort, insert_new, inl, inr, ◌==◌,
  Bool-cases, Option-cases, is_some, if◌then◌else◌, arith,
}
use linux_analysis.Llvm.{
  Ir, Value, Function, Kind, Store, store_inst, call_inst, return_inst, argument, constant_int,
  global_variable, function_value, other_value, is_global,
}
use linux_analysis.State.{Config, State}
use linux_analysis.Provenance.{get_pointer_parameter_origin}
use linux_analysis.Stores.{mark_pointer, taint_param}
use linux_analysis.Downward.{
  first_argument, resolve_targets, taint_parameter, taint_target, set_call_level, propagate,
  visit_store, visit_return, visit_call, visit_user_kind, visit_user, process,
}
use linux_analysis.Downward.Flow.{
  Taints, parameter_at, parameters_at, passes_on, call_parameters, entered, flows, successors,
}

pub Taints-none :
    (s t : State) → t.tainted_values ≡ s.tainted_values → t.worklist ≡ s.worklist → Taints [] s t
Taints-none s t e f = record {
  tainted = λ x. rw e (ground arith);
  stacked = λ x. rw f (ground arith);
}

pub Taints-append :
    (xs ys : List Value) (s t u : State) → Taints xs s t → Taints ys t u → Taints (xs ++ ys) s u
Taints-append xs ys s t u a b = record {
  tainted = λ x. ground (arith, a.tainted x, b.tainted x, contains-append x xs ys);
  stacked = λ x. ground (arith, a.tainted x, a.stacked x, b.stacked x, contains-append x xs ys);
}

stack_one : (q b c : Bool) → (q ≡ true → c ≡ false) → (q || b) ≡ (b || ((q || false) && not c))
stack_one true true c h = refl
stack_one true false c h = rw (h refl)
stack_one false true c h = refl
stack_one false false c h = refl

Taints-one :
    (x : Value) (s t : State)
    → contains x s.tainted_values ≡ false
    → t.tainted_values ≡ x ∷ s.tainted_values
    → t.worklist ≡ x ∷ s.worklist
    → Taints (x ∷ []) s t
Taints-one x s t new e f = record {
  tainted = λ y. rw e (ground arith);
  stacked = λ y. rw f (
      stack_one (y == x) (contains y s.worklist) (contains y s.tainted_values)
        (λ same. let q : y ≡ x = ground arith in rw q new));
}

Taints-old :
    (x : Value) (s t : State)
    → contains x s.tainted_values ≡ true
    → t.tainted_values ≡ s.tainted_values
    → t.worklist ≡ s.worklist
    → Taints (x ∷ []) s t
Taints-old x s t old e f = record {
  tainted = λ y. rw e (known y);
  stacked = λ y. rw (f, known y) (ground (arith, known y));
}
  where
    known :
        (y : Value)
        → contains y s.tainted_values ≡ (contains y s.tainted_values || (y == x || false))
    known y = elim (Bool-cases (y == x)) [
      | inl same ↦ let q : y ≡ x = ground arith in rw (q, old) (ground arith)
      | inr other ↦ rw other (ground arith)
    ]

module _ (ir : Ir) where
  propagate-Taints : (v u : Value) (s : State) → Taints (u ∷ []) s (propagate ir v u s)
  unfolding propagate
  propagate-Taints v u s = elim (Bool-cases (contains u s.tainted_values)) [
    | inl old ↦ rw old (Taints-old u s s old refl refl)
    | inr new ↦ rw new (Taints-one u s _ new (insert_new u _ new) refl)
  ]

  taint_parameter-Taints :
      (v : Value) (i : ℕ) (s : State) (f : Function)
      → Taints (parameter_at ir i f) s (taint_parameter ir v i s f)
  unfolding taint_parameter
  taint_parameter-Taints v i s f = elim (Option-cases (get_elem? (ir.params f) i)) [
    | inl e ↦ rw (e, taint_parameter, parameter_at) (Taints-none s s refl refl)
    | inr (p, e) ↦
        rw (e, taint_parameter, parameter_at)
          (elim (Bool-cases (contains p s.tainted_values)) [
            | inl old ↦ rw old (Taints-old p s s old refl refl)
            | inr new ↦ rw new (Taints-one p s _ new (insert_new p _ new) refl)
          ])
  ]

  taint_targets-Taints :
      (v : Value) (i : ℕ) (fs : List Function) (s : State)
      → Taints (parameters_at ir i fs) s (foldl (taint_target ir v i) s fs)
  unfolding taint_target
  taint_targets-Taints v i [] s = Taints-none s s refl refl
  taint_targets-Taints v i (f ∷ fs) s =
      Taints-append _ _ s (taint_target ir v i s f) _ first (taint_targets-Taints v i fs _)
    where
      first :
          Taints
            (if ir.is_declaration f then [] else parameter_at ir i f)
            s
            (taint_target ir v i s f)
      first = elim (Bool-cases (ir.is_declaration f)) [
        | inl e ↦ rw e (Taints-none s s refl refl)
        | inr e ↦ rw e (taint_parameter-Taints v i s f)
      ]

  set_call_level-Taints : (v u : Value) (s : State) → Taints [] s (set_call_level ir v u s)
  unfolding set_call_level
  set_call_level-Taints v u s = elim (Option-cases (lookup u s.value_level)) [
    | inl e ↦ rw (e, set_call_level) (Taints-none s _ refl refl)
    | inr (l, e) ↦ rw (e, set_call_level) (Taints-none s s refl refl)
  ]

  visit_store-Taints :
      (v u : Value) (st : Store) (s : State)
      → Taints
          (if not (
              is_global (ir.kind (ir.strip_pointer_casts st.pointer))
              || is_some (get_pointer_parameter_origin ir st.pointer))
            then u ∷ []
            else [])
          s
          (visit_store ir v u st s)
  unfolding visit_store mark_pointer taint_param
  visit_store-Taints v u st s = elim (Bool-cases (is_global (ir.kind ptr))) [
    | inl e ↦ rw e (Taints-none s s refl refl)
    | inr e ↦ rw e (elim (Option-cases (get_pointer_parameter_origin ir st.pointer)) [
      | inr (a, o) ↦
          rw (o, visit_store)
            (elim (Option-cases (ir.function_of u)) [
              | inl n ↦ rw (n, visit_store) (Taints-none s s refl refl)
              | inr (f, n) ↦ rw (n, visit_store) (Taints-none s _ refl refl)
            ])
      | inl o ↦
          rw (o, visit_store)
            (elim (Bool-cases (contains ptr s.tainted_pointers)) [
              | inl old ↦ rw old (propagate-Taints v u s)
              | inr new ↦ rw new (
                  Taints-append [] (u ∷ []) s _ _ (Taints-none s _ refl refl)
                    (propagate-Taints v u _))
            ])
    ])
  ]
    where
      ptr : Value
      ptr = ir.strip_pointer_casts st.pointer

  visit_return-Taints :
      (v u : Value) (result : Option Value) (s : State)
      → Taints
          (if passes_on ir v (return_inst result) then u ∷ [] else [])
          s
          (visit_return ir v u result s)
  unfolding visit_return
  visit_return-Taints v u none s = propagate-Taints v u s
  visit_return-Taints v u (some r) s = elim (Bool-cases (r == v)) [
    | inr other ↦ rw other (propagate-Taints v u s)
    | inl same ↦ rw same (elim (Option-cases (ir.function_of u)) [
      | inl e ↦ rw (e, visit_return) (Taints-none s s refl refl)
      | inr (f, e) ↦ rw (e, visit_return) (Taints-none s _ refl refl)
    ])
  ]

  module _ (cfg : Config) (targets : Map (List Function)) where
    direct-Taints :
        (v u : Value) (i : ℕ) (f : Function) (operand : Value) (s : State)
        → Taints (call_parameters ir cfg targets i (some f) operand) s (
            if ir.is_declaration f
            then s
            else (let s1 = set_call_level ir v u s in
                if cfg.interproc_mode then taint_parameter ir v i s1 f else s1))
    direct-Taints v u i f operand s = elim (Bool-cases (ir.is_declaration f)) [
      | inl d ↦ rw d (elim (Bool-cases cfg.interproc_mode) [
        | inl m ↦ rw m (Taints-none s s refl refl)
        | inr m ↦ rw m (Taints-none s s refl refl)
      ])
      | inr d ↦ rw d (elim (Bool-cases cfg.interproc_mode) [
        | inl m ↦ rw m (
            Taints-append [] _ s _ _ (set_call_level-Taints v u s) (taint_parameter-Taints v i _ f))
        | inr m ↦ rw m (set_call_level-Taints v u s)
      ])
    ]

    visit_call-Taints :
        (v u : Value) (callee : Option Function) (operand : Value) (args : List Value) (s : State)
        → Taints
            (entered ir cfg targets v (call_inst callee operand args))
            s
            (visit_call ir cfg targets v u callee operand args s)
    unfolding visit_call
    visit_call-Taints v u callee operand args s = elim (Option-cases (first_argument v args)) [
      | inl e ↦ rw (e, visit_call, entered) (Taints-none s s refl refl)
      | inr (i, e) ↦ rw (e, visit_call, entered) (called callee i)
    ]
      where
        called :
            (c : Option Function) (i : ℕ)
            → Taints (call_parameters ir cfg targets i c operand) s (elim c [
              | some f ↦
                  if ir.is_declaration f
                  then s
                  else (let s1 = set_call_level ir v u s in
                      if cfg.interproc_mode then taint_parameter ir v i s1 f else s1)
              | none ↦
                  if cfg.indirect_call_mode && cfg.interproc_mode
                  then foldl (taint_target ir v i) s (resolve_targets ir targets operand)
                  else s
            ])
        called (some f) i = direct-Taints v u i f operand s
        called none i = elim (Bool-cases (cfg.indirect_call_mode && cfg.interproc_mode)) [
          | inl m ↦ rw m (taint_targets-Taints v i _ s)
          | inr m ↦ rw m (Taints-none s s refl refl)
        ]

    visit_user_kind-Taints :
        (v : Value) (s : State) (u : Value) (k : Kind)
        → Taints
            (entered ir cfg targets v k ++ (if passes_on ir v k then u ∷ [] else []))
            s
            (visit_user_kind ir cfg targets v s u k)
    unfolding visit_user_kind
    visit_user_kind-Taints v s u (call_inst callee operand args) =
        Taints-append _ (u ∷ []) s _ _ (visit_call-Taints v u callee operand args s)
          (propagate-Taints v u _)
    visit_user_kind-Taints v s u (return_inst result) = visit_return-Taints v u result s
    visit_user_kind-Taints v s u (store_inst x p) = elim (Bool-cases (x == v)) [
      | inl same ↦ rw same (visit_store-Taints v u (record { value = x; pointer = p }) s)
      | inr other ↦ rw other (propagate-Taints v u s)
    ]
    visit_user_kind-Taints v s u (argument n) = Taints-none s s refl refl
    visit_user_kind-Taints v s u (constant_int c) = Taints-none s s refl refl
    visit_user_kind-Taints v s u global_variable = Taints-none s s refl refl
    visit_user_kind-Taints v s u function_value = Taints-none s s refl refl
    visit_user_kind-Taints v s u other_value = Taints-none s s refl refl
    visit_user_kind-Taints v s u _ = propagate-Taints v u s

    visit_user-Taints :
        (v : Value) (s : State) (u : Value)
        → Taints (flows ir cfg targets v u) s (visit_user ir cfg targets v s u)
    unfolding visit_user
    visit_user-Taints v s u = visit_user_kind-Taints v s u (ir.kind u)

    visit_users-Taints :
        (v : Value) (us : List Value) (s : State)
        → Taints (flat_map (flows ir cfg targets v) us) s (foldl (visit_user ir cfg targets v) s us)
    visit_users-Taints v [] s = Taints-none s s refl refl
    visit_users-Taints v (u ∷ us) s =
        Taints-append _ _ s _ _ (visit_user-Taints v s u) (visit_users-Taints v us _)

    pub process-Taints :
        (v : Value) (s : State)
        → Taints (successors ir cfg targets v) s (process ir cfg targets v s)
    unfolding process
    process-Taints v s = visit_users-Taints v (sort (ir.users v)) s
