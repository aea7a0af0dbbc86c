-- ===== src/Downward/Progress.antt =====
-- What one use adds to the search: every push taints a new value of the module, and where
-- `changed` is set a value or a pointer has been tainted.
use linux_analysis.Prelude.{
  ℕ, zero, suc, ◌+◌, ◌≤◌, ◌<◌, ◌≡◌, refl, ◌⊎◌, inl, inr, false, ◌&&◌, ◌∙◌, Option, none, some, List,
  [], ◌∷◌, foldl, length, get_elem?, Map, lookup, contains, insert_new, sort, contains-sort,
  missing, missing-cons, ◌∈◌, ◌⊆◌, ◌==◌, ==_refl, Bool-cases, Option-cases, if◌then◌else◌, arith,
}
use linux_analysis.Llvm.{
  Ir, Value, Function, Kind, Store, IsModule, store_inst, call_inst, return_inst, argument,
  constant_int, global_variable, function_value, other_value, is_global,
}
use linux_analysis.State.{Config, State}
use linux_analysis.Provenance.{get_pointer_parameter_origin}
use linux_analysis.Provenance.Ends.{subset_head, subset_tail}
use linux_analysis.Provenance.Complete.{subset_cons}
use linux_analysis.Stores.{mark_pointer, taint_param}
use linux_analysis.Downward.{
  first_argument, resolve_targets, taint_parameter, taint_target, set_call_level, propagate,
  visit_store, visit_return, visit_call, visit_user_kind, visit_user, process,
}

-- What is left to taint.
abbrev pub left : List Value → State → ℕ
left all s = missing all s.tainted_values + missing all s.tainted_pointers

-- What is left to pop, at most.
abbrev pub potential : List Value → State → ℕ
potential all s = length s.worklist + missing all s.tainted_values

pub record Grows (all : List Value) (s t : State) : Type 0 where
  pub stack : potential all t ≤ potential all s
  pub values : missing all t.tainted_values ≤ missing all s.tainted_values
  pub pointers : missing all t.tainted_pointers ≤ missing all s.tainted_pointers
  pub inside : s.worklist ⊆ all → t.worklist ⊆ all
  pub progress : (t.changed ≡ s.changed) ⊎ (left all t < left all s)

module _ (all : List Value) where
  pub Grows-trans : (s t u : State) → Grows all s t → Grows all t u → Grows all s u
  Grows-trans s t u a b = record {
    stack = omega (arith, a.stack, b.stack);
    values = omega (arith, a.values, b.values);
    pointers = omega (arith, a.pointers, b.pointers);
    inside = λ h. b.inside (a.inside h);
    progress = elim a.progress [
      | inr less ↦ inr (omega (arith, b.values, b.pointers))
      | inl same ↦ elim b.progress [
        | inr less ↦ inr (omega (arith, a.values, a.pointers))
        | inl same' ↦ inl (same' ∙ same)
      ]
    ];
  }

  pub Grows-same :
      (s t : State)
      → t.worklist ≡ s.worklist
      → t.tainted_values ≡ s.tainted_values
      → t.tainted_pointers ≡ s.tainted_pointers
      → t.changed ≡ s.changed
      → Grows all s t
  Grows-same s t e f g h = record {
    stack = rw (e, f) (omega arith);
    values = rw f (omega arith);
    pointers = rw g (omega arith);
    inside = λ sub. rw e sub;
    progress = inl h;
  }

  pub left-push :
      (x : Value) (s t : State)
      → x ∈ all
      → contains x s.tainted_values ≡ false
      → t.tainted_values ≡ x ∷ s.tainted_values
      → t.tainted_pointers ≡ s.tainted_pointers
      → left all t < left all s
  left-push x s t m new e g = rw (e, g) (omega (arith, missing-cons all s.tainted_values x m new))

  -- A value that is tainted and pushed.
  pub Grows-push :
      (x : Value) (s t : State)
      → x ∈ all
      → contains x s.tainted_values ≡ false
      → t.tainted_values ≡ x ∷ s.tainted_values
      → t.worklist ≡ x ∷ s.worklist
      → t.tainted_pointers ≡ s.tainted_pointers
      → Grows all s t
  Grows-push x s t m new e f g =
      let less = missing-cons all s.tainted_values x m new in
      record {
        stack = rw (e, f) (omega (arith, less));
        values = rw e (omega (arith, less));
        pointers = rw g (omega arith);
        inside = λ sub. rw f (subset_cons x s.worklist all m sub);
        progress = inr (left-push x s t m new e g);
      }

  pub Grows-mark :
      (p : Value) (s t : State)
      → p ∈ all
      → contains p s.tainted_pointers ≡ false
      → t.tainted_pointers ≡ p ∷ s.tainted_pointers
      → t.tainted_values ≡ s.tainted_values
      → t.worklist ≡ s.worklist
      → Grows all s t
  Grows-mark p s t m new e f g =
      let less = missing-cons all s.tainted_pointers p m new in
      record {
        stack = rw (f, g) (omega arith);
        values = rw f (omega arith);
        pointers = rw e (omega (arith, less));
        inside = λ sub. rw g sub;
        progress = inr (rw (e, f) (omega (arith, less)));
      }

pub get_elem?-mem : (i : ℕ) (x : ℕ) (xs : List ℕ) → get_elem? xs i ≡ some x → x ∈ xs
get_elem?-mem i x [] e = cc
get_elem?-mem zero x (y ∷ xs) e = ground arith
get_elem?-mem (suc i) x (y ∷ xs) e = ground (arith, get_elem?-mem i x xs e)

module _ (ir : Ir) (is_module : IsModule ir) where
  abbrev Up : State → State → Type 0
  Up s t = Grows ir.values s t

  still : (s : State) → Up s s
  still s = Grows-same ir.values s s refl refl refl refl

  propagate-Grows : (v u : Value) (s : State) → u ∈ ir.values → Up s (propagate ir v u s)
  unfolding propagate
  propagate-Grows v u s m = elim (Bool-cases (contains u s.tainted_values)) [
    | inl old ↦ rw old (still s)
    | inr new ↦ rw new (Grows-push ir.values u s _ m new (insert_new u _ new) refl refl)
  ]

  taint_parameter-Grows :
      (v : Value) (i : ℕ) (s : State) (f : Function) → Up s (taint_parameter ir v i s f)
  unfolding taint_parameter
  taint_parameter-Grows v i s f = elim (Option-cases (get_elem? (ir.params f) i)) [
    | inl e ↦ rw (e, taint_parameter) (still s)
    | inr (p, e) ↦
        rw (e, taint_parameter)
          (elim (Bool-cases (contains p s.tainted_values)) [
            | inl old ↦ rw old (still s)
            | inr new ↦ rw new (
                Grows-push ir.values p s _ (is_module.params_mem f p (get_elem?-mem i p _ e)) new
                  (insert_new p _ new) refl refl)
          ])
  ]

  taint_targets-Grows :
      (v : Value) (i : ℕ) (fs : List Function) (s : State) → Up s (foldl (taint_target ir v i) s fs)
  unfolding taint_target
  taint_targets-Grows v i [] s = still s
  taint_targets-Grows v i (f ∷ fs) s =
      Grows-trans ir.values s (taint_target ir v i s f) _ first (taint_targets-Grows v i fs _)
    where
      first : Up s (taint_target ir v i s f)
      first = elim (Bool-cases (ir.is_declaration f)) [
        | inl e ↦ rw e (still s)
        | inr e ↦ rw e (taint_parameter-Grows v i s f)
      ]

  set_call_level-Grows : (v u : Value) (s : State) → Up s (set_call_level ir v u s)
  unfolding set_call_level
  set_call_level-Grows v u s = elim (Option-cases (lookup u s.value_level)) [
    | inl e ↦ rw (e, set_call_level) (Grows-same ir.values s _ refl refl refl refl)
    | inr (l, e) ↦ rw (e, set_call_level) (still s)
  ]

  visit_store-Grows :
      (v u : Value) (st : Store) (s : State)
      → u ∈ ir.values
      → ir.strip_pointer_casts st.pointer ∈ ir.values
      → Up s (visit_store ir v u st s)
  unfolding visit_store mark_pointer taint_param
  visit_store-Grows v u st s m hp = elim (Bool-cases (is_global (ir.kind ptr))) [
    | inl e ↦ rw e (still s)
    | inr e ↦ rw e (elim (Option-cases (get_pointer_parameter_origin ir st.pointer)) [
      | inr (a, o) ↦
          rw (o, visit_store)
            (elim (Option-cases (ir.function_of u)) [
              | inl n ↦ rw (n, visit_store) (still s)
              | inr (f, n) ↦ rw (n, visit_store) (Grows-same ir.values s _ refl refl refl refl)
            ])
      | inl o ↦
          rw (o, visit_store)
            (elim (Bool-cases (contains ptr s.tainted_pointers)) [
              | inl old ↦ rw old (propagate-Grows v u s m)
              | inr new ↦ rw new (
                  Grows-trans ir.values s _ _
                    (Grows-mark ir.values ptr s _ hp new (insert_new ptr _ new) refl refl)
                    (propagate-Grows v u _ m))
            ])
    ])
  ]
    where
      ptr : Value
      ptr = ir.strip_pointer_casts st.pointer

  visit_return-Grows :
      (v u : Value) (result : Option Value) (s : State)
      → u ∈ ir.values
      → Up s (visit_return ir v u result s)
  unfolding visit_return
  visit_return-Grows v u none s m = propagate-Grows v u s m
  visit_return-Grows v u (some r) s m = elim (Bool-cases (r == v)) [
    | inr other ↦ rw other (propagate-Grows v u s m)
    | inl same ↦ rw same (elim (Option-cases (ir.function_of u)) [
      | inl e ↦ rw (e, visit_return) (still s)
      | inr (f, e) ↦ rw (e, visit_return) (Grows-same ir.values s _ refl refl refl refl)
    ])
  ]

  module _ (cfg : Config) (targets : Map (List Function)) where
    visit_call-Grows :
        (v u : Value) (callee : Option Function) (operand : Value) (args : List Value) (s : State)
        → Up s (visit_call ir cfg targets v u callee operand args s)
    unfolding visit_call
    visit_call-Grows v u callee operand args s = elim (Option-cases (first_argument v args)) [
      | inl e ↦ rw (e, visit_call) (still s)
      | inr (i, e) ↦ rw (e, visit_call) (called callee i)
    ]
      where
        called :
            (c : Option Function) (i : ℕ)
            → Up s (elim c [
              | some f ↦
                  if ir.is_declaration f
                  then s
                  else (let s1 = set_call_level ir v u s in
                      if cfg.interproc_mode then taint_parameter ir v i s1 f else s1)
              | none ↦
                  if cfg.indirect_call_mode && cfg.interproc_mode
                  then foldl (taint_target ir v i) s (resolve_targets ir targets operand)
                  else s
            ])
        called (some f) i = elim (Bool-cases (ir.is_declaration f)) [
          | inl d ↦ rw d (still s)
          | inr d ↦ rw d (elim (Bool-cases cfg.interproc_mode) [
            | inl m ↦ rw m (
                Grows-trans ir.values s _ _ (set_call_level-Grows v u s)
                  (taint_parameter-Grows v i _ f))
            | inr m ↦ rw m (set_call_level-Grows v u s)
          ])
        ]
        called none i = elim (Bool-cases (cfg.indirect_call_mode && cfg.interproc_mode)) [
          | inl m ↦ rw m (taint_targets-Grows v i (resolve_targets ir targets operand) s)
          | inr m ↦ rw m (still s)
        ]

    visit_user_kind-Grows :
        (v : Value) (s : State) (u : Value) (k : Kind)
        → u ∈ ir.values
        → ((x p : Value) → k ≡ store_inst x p → ir.strip_pointer_casts p ∈ ir.values)
        → Up s (visit_user_kind ir cfg targets v s u k)
    unfolding visit_user_kind
    visit_user_kind-Grows v s u (call_inst callee operand args) m hp =
        Grows-trans ir.values s _ _ (visit_call-Grows v u callee operand args s)
          (propagate-Grows v u _ m)
    visit_user_kind-Grows v s u (return_inst result) m hp = visit_return-Grows v u result s m
    visit_user_kind-Grows v s u (store_inst x p) m hp = elim (Bool-cases (x == v)) [
      | inl same ↦
          rw same (visit_store-Grows v u (record { value = x; pointer = p }) s m (hp x p refl))
      | inr other ↦ rw other (propagate-Grows v u s m)
    ]
    visit_user_kind-Grows v s u (argument n) m hp = still s
    visit_user_kind-Grows v s u (constant_int c) m hp = still s
    visit_user_kind-Grows v s u global_variable m hp = still s
    visit_user_kind-Grows v s u function_value m hp = still s
    visit_user_kind-Grows v s u other_value m hp = still s
    visit_user_kind-Grows v s u _ m hp = propagate-Grows v u s m

    visit_users-Grows :
        (v : Value) (us : List Value) (s : State)
        → us ⊆ ir.values
        → Up s (foldl (visit_user ir cfg targets v) s us)
    unfolding visit_user
    visit_users-Grows v [] s h = still s
    visit_users-Grows v (u ∷ us) s h =
        let m = subset_head u us _ h in
        Grows-trans ir.values s (visit_user ir cfg targets v s u) _
          (visit_user_kind-Grows v s u (ir.kind u) m (λ x p e.
            is_module.strip_mem p
              (is_module.referred_mem u m p (rw e (ground (arith, ==_refl p))))))
          (visit_users-Grows v us _ (subset_tail u us _ h))

    pub process-Grows : (v : Value) (s : State) → v ∈ ir.values → Up s (process ir cfg targets v s)
    unfolding process
    process-Grows v s m =
        visit_users-Grows v (sort (ir.users v)) s
          (λ x h. is_module.users_mem v m x (rw (← contains-sort x (ir.users v)) h))
