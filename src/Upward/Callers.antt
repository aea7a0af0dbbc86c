-- ===== src/Upward/Callers.antt =====
-- The calls of functions that return taint, as steps of `Moves`.
use linux_analysis.Prelude.{
  ◌≡◌, refl, inl, inr, Bool, foldl_steps, lookup, contains, insert_new, sort, ◌∈◌, Bool-cases,
  Option-cases,
}
use linux_analysis.Llvm.{Ir, Value, Function, IsModule, as_call, defined_instructions}
use linux_analysis.State.{State}
use linux_analysis.Downward.Ends.{defined_instructions-mem}
use linux_analysis.Upward.{
  is_callee, caller_level, raise_caller, taint_call, visit_returning_call, taint_calls_of,
  taint_returning_calls,
}
use linux_analysis.Upward.Moves.{
  Moves, Moves-refl, Moves-trans, Moves-Finds, Moves-push, put-KeepsLevels,
}

module _ (ir : Ir) (is_module : IsModule ir) where
  pub raise_caller-Moves :
      (f : Function) (call : Value) (s : State) (d : Bool)
      → Moves ir (s, d) (raise_caller ir f call s, d)
  unfolding raise_caller
  raise_caller-Moves f call s d = elim (Option-cases (ir.function_of call)) [
    | inl e ↦ rw (e, raise_caller) (Moves-refl ir (s, d))
    | inr (g, e) ↦
        rw (e, raise_caller)
          (elim (Option-cases (lookup g s.function_level)) [
            | inl n ↦
                rw (n, raise_caller)
                  (Moves-Finds ir (s, d) _ refl refl refl refl (λ x l m e. e)
                    (inr (refl, refl, refl)))
            | inr (l, n) ↦ rw (n, raise_caller) (Moves-refl ir (s, d))
          ])
  ]

  pub raise_caller-same :
      (f : Function) (call : Value) (s : State)
      → ((raise_caller ir f call s).tainted_pointers ≡ s.tainted_pointers)
        × ((raise_caller ir f call s).pointer_taint_origin ≡ s.pointer_taint_origin)
        × ((raise_caller ir f call s).functions_returning_taint ≡ s.functions_returning_taint)
        × ((raise_caller ir f call s).functions_tainting_pointer_params
            ≡ s.functions_tainting_pointer_params)
  unfolding raise_caller
  raise_caller-same f call s = elim (Option-cases (ir.function_of call)) [
    | inl e ↦ rw (e, raise_caller) (refl, refl, refl, refl)
    | inr (g, e) ↦
        rw (e, raise_caller)
          (elim (Option-cases (lookup g s.function_level)) [
            | inl n ↦ rw (n, raise_caller) (refl, refl, refl, refl)
            | inr (l, n) ↦ rw (n, raise_caller) (refl, refl, refl, refl)
          ])
  ]

  taint_call-Moves :
      (f : Function) (call : Value) (s : State) (d : Bool)
      → call ∈ ir.values
      → Moves ir (s, d) (taint_call ir f call s, d)
  unfolding taint_call
  taint_call-Moves f call s d m = elim (Bool-cases (contains call s.tainted_values)) [
    | inl old ↦ rw old (Moves-refl ir (s, d))
    | inr new ↦ rw new (
        let (pointers, origins, returning, params) = raise_caller-same f call s in
        Moves-push ir call (s, d) _ m new (insert_new call _ new) refl pointers origins
          (put-KeepsLevels s call (caller_level f s) new) (inr (refl, returning, params)))
  ]

  pub visit_returning_call-Moves :
      (f : Function) (s : State) (i : Value) (d : Bool)
      → i ∈ ir.values
      → Moves ir (s, d) (visit_returning_call ir f s i, d)
  unfolding visit_returning_call
  visit_returning_call-Moves f s i d m = elim (Option-cases (as_call (ir.kind i))) [
    | inl e ↦ rw (e, visit_returning_call) (Moves-refl ir (s, d))
    | inr (c, e) ↦
        rw (e, visit_returning_call)
          (elim (Bool-cases (is_callee f c.callee)) [
            | inl h ↦ rw h (taint_call-Moves f i s d m)
            | inr h ↦ rw h (Moves-refl ir (s, d))
          ])
  ]

  pub taint_calls_of-Moves :
      (f : Function) (s : State) (d : Bool) → Moves ir (s, d) (taint_calls_of ir s f, d)
  unfolding taint_calls_of
  taint_calls_of-Moves f s d =
      foldl_steps (λ s t. Moves ir (s, d) (t, d)) (λ s. Moves-refl ir (s, d))
        (λ s t u. Moves-trans ir (s, d) (t, d) (u, d)) (visit_returning_call ir f)
        (defined_instructions ir)
        (λ t i m. visit_returning_call-Moves f t i d (defined_instructions-mem ir is_module i m)) s

  pub taint_returning_calls-Moves :
      (s : State) (d : Bool) → Moves ir (s, d) (taint_returning_calls ir s, d)
  unfolding taint_returning_calls
  taint_returning_calls-Moves s d =
      foldl_steps (λ s t. Moves ir (s, d) (t, d)) (λ s. Moves-refl ir (s, d))
        (λ s t u. Moves-trans ir (s, d) (t, d) (u, d)) (taint_calls_of ir)
        (sort s.functions_returning_taint) (λ t f m. taint_calls_of-Moves f t d) s
