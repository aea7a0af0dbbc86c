-- ===== src/Upward/Uses.antt =====
-- One use of a tainted value, and one load from a tainted pointer, as steps of `Moves`.
use linux_analysis.Prelude.{
  ℕ, ℤ, ◌≡◌, refl, inl, inr, Bool, true, false, not, ◌||◌, Option, none, some, List, foldl_steps,
  contains, contains-sort, insert_new, insert_old, missing-cons, sort, ◌∈◌, ◌==◌, Bool-cases,
  Option-cases, if◌then◌else◌, arith,
}
use linux_analysis.Llvm.{
  Ir, Value, Function, Store, IsModule, as_store, as_load, as_return, arg_no, is_instruction,
  defined_instructions,
}
use linux_analysis.State.{State}
use linux_analysis.Level.{get_level, ensure_level_set}
use linux_analysis.Level.Laws.{lookup-ensured_levels}
use linux_analysis.Provenance.{is_empty, get_pointer_parameter_origin, extract_struct_field_indices}
use linux_analysis.Provenance.Inside.{store-mem, origin-mem}
use linux_analysis.Stores.{mark_pointer, record_fields, process_store_for_taint}
use linux_analysis.Loads.{
  matches_pointer, kill_check, is_load_before_taint_origin, taint_load, scan_load, scan_pointer,
  scan_loads_from_tainted_pointers,
}
use linux_analysis.Downward.Ends.{defined_instructions-mem}
use linux_analysis.Upward.{
  Discovery, store_effect, add_returning, return_effect, push, taint_user, visit_user_upward,
  process_upward,
}
use linux_analysis.Upward.Moves.{
  Moves, Moves-refl, Moves-trans, Moves-Finds, Moves-push, KeepsLevels, put-KeepsLevels,
  Moves-push_later,
}
use linux_analysis.Upward.Arguments.{mark_pointer-Moves, taint_param-Moves}

module _ (ir : Ir) where
  no_news : (a : Discovery) (d : Bool) (t : State) → Moves ir a (t, d) → Moves ir a (t, d || false)
  no_news a true t h = h
  no_news a false t h = h

  record_fields-Moves :
      (f : Function) (i : ℕ) (fields : List ℤ) (s : State) (d : Bool)
      → Moves ir (s, d) (record_fields f i fields s, d)
  unfolding record_fields
  record_fields-Moves f i fields s d = elim (Bool-cases (is_empty fields)) [
    | inl e ↦ rw e (Moves-refl ir (s, d))
    | inr e ↦
        rw e (Moves-Finds ir (s, d) _ refl refl refl refl (λ x l m e. e) (inr (refl, refl, refl)))
  ]

module _ (ir : Ir) (is_module : IsModule ir) where
  process_store-Moves :
      (u : Value) (st : Store) (v : Value) (s : State) (d : Bool)
      → u ∈ ir.values
      → as_store (ir.kind u) ≡ some st
      → Moves ir
          (s, d)
          ((process_store_for_taint ir u st v s).0, d || (process_store_for_taint ir u st v s).1)
  unfolding process_store_for_taint
  process_store-Moves u st v s d m store = elim (Bool-cases (st.value == v)) [
    | inr other ↦ rw other (no_news ir (s, d) d s (Moves-refl ir (s, d)))
    | inl same ↦ elim (Option-cases (get_pointer_parameter_origin ir st.pointer)) [
      | inl free ↦ rw (same, free, process_store_for_taint) (no_news ir (s, d) d s1 marked)
      | inr (a, origin) ↦ elim (Option-cases (ir.function_of u)) [
        | inl outside ↦
            rw (same, origin, outside, process_store_for_taint) (no_news ir (s, d) d s1 marked)
        | inr (f, within) ↦
            let i = arg_no (ir.kind a) in
            let found =
              taint_param-Moves ir is_module u a f i s1 d
                (origin-mem ir is_module st.pointer a (store-mem ir is_module u st m store).1
                  origin)
                within refl in
            rw (same, origin, within, process_store_for_taint)
              (Moves-trans ir (s, d) (s1, d) _ marked
                (Moves-trans ir (s1, d) _ _ found
                  (record_fields-Moves ir f i (extract_struct_field_indices ir st.pointer) _ _)))
      ]
    ]
  ]
    where
      s1 : State
      s1 = mark_pointer (ir.strip_pointer_casts st.pointer) u s

      marked : Moves ir (s, d) (s1, d)
      marked =
          mark_pointer-Moves ir is_module (ir.strip_pointer_casts st.pointer) u s d
            (is_module.strip_mem st.pointer (store-mem ir is_module u st m store).1)

  store_effect-Moves :
      (v u : Value) (a : Discovery) → u ∈ ir.values → Moves ir a (store_effect ir v u a)
  unfolding store_effect
  store_effect-Moves v u a m = elim (Option-cases (as_store (ir.kind u))) [
    | inl e ↦ rw (e, store_effect) (Moves-refl ir a)
    | inr (st, e) ↦ rw (e, store_effect) (process_store-Moves u st v a.0 a.1 m e)
  ]

  add_returning-Moves :
      (f : Function) (a : Discovery) → f ∈ ir.functions → Moves ir a (add_returning f a)
  unfolding add_returning
  add_returning-Moves f a m =
      Moves-Finds ir a _ refl refl refl refl (λ x l m e. e)
        (elim (Bool-cases (contains f a.0.functions_returning_taint)) [
          | inl old ↦ inr (ground (arith, old), insert_old f _ old, refl)
          | inr new ↦
              let less = missing-cons ir.functions a.0.functions_returning_taint f m new in
              inl (
                ground (arith, new),
                rw (insert_new f _ new) (omega (arith, less)),
                (λ x h. rw (insert_new f _ new) (ground arith), λ g n h. h),
              )
        ])

  return_effect-Moves : (v u : Value) (a : Discovery) → Moves ir a (return_effect ir v u a)
  unfolding return_effect
  return_effect-Moves v u a = returned (as_return (ir.kind u))
    where
      returned :
          (o : Option (Option Value))
          → Moves ir a (elim o [
            | some (some r) ↦
                if r == v
                then elim (ir.function_of u) [ none ↦ a | some f ↦ add_returning f a ]
                else a
            | _ ↦ a
          ])
      returned none = Moves-refl ir a
      returned (some none) = Moves-refl ir a
      returned (some (some r)) = elim (Bool-cases (r == v)) [
        | inr other ↦ rw other (Moves-refl ir a)
        | inl same ↦ rw same (elim (Option-cases (ir.function_of u)) [
          | inl e ↦ rw e (Moves-refl ir a)
          | inr (f, e) ↦ rw e (add_returning-Moves f a (is_module.function_mem u f e))
        ])
      ]

  pub use_effects-Moves :
      (v u : Value) (a : Discovery)
      → u ∈ ir.values
      → Moves ir a (return_effect ir v u (store_effect ir v u a))
  use_effects-Moves v u a m =
      Moves-trans ir a (store_effect ir v u a) _ (store_effect-Moves v u a m)
        (return_effect-Moves v u _)

  pub visit_user_upward-Moves :
      (v : Value) (a : Discovery) (u : Value)
      → u ∈ ir.values
      → Moves ir a (visit_user_upward ir v a u)
  unfolding visit_user_upward taint_user
  visit_user_upward-Moves v a u m =
      elim (Bool-cases (not (is_instruction (ir.kind u)) || contains u a.0.tainted_values)) [
        | inl passed ↦ rw passed (Moves-refl ir a)
        | inr fresh ↦
            let new : contains u a.0.tainted_values ≡ false = ground arith in rw fresh (pushed new)
      ]
    where
      mid : Discovery
      mid = (taint_user ir v u a.0, a.1)

      end : Discovery
      end = return_effect ir v u (store_effect ir v u mid)

      pushed : contains u a.0.tainted_values ≡ false → Moves ir a (push ir u end)
      pushed new =
          Moves-push_later ir u a mid end m (insert_new u a.0.tainted_values new)
            (rw (insert_new u a.0.tainted_values new)
              (missing-cons ir.values a.0.tainted_values u m new))
            refl refl refl (put-KeepsLevels a.0 u (get_level ir a.0 v) new) (inr (refl, refl, refl))
            (use_effects-Moves v u mid m)

  pub process_upward-Moves :
      (v : Value) (a : Discovery) → v ∈ ir.values → Moves ir a (process_upward ir v a)
  unfolding process_upward
  process_upward-Moves v a m =
      foldl_steps (Moves ir) (Moves-refl ir) (Moves-trans ir) (visit_user_upward ir v)
        (sort (ir.users v))
        (λ b u h.
          visit_user_upward-Moves v b u
            (is_module.users_mem v m u (rw (← contains-sort u (ir.users v)) h)))
        a

  scan_load-Moves :
      (killed : Option (List Value)) (ptr : Value) (a : State × Bool) (i : Value) (d : Bool)
      → i ∈ ir.values
      → Moves ir (a.0, d) ((scan_load ir killed ptr a i).0, d)
  unfolding scan_load taint_load ensure_level_set
  scan_load-Moves killed ptr a i d m = elim (Option-cases (as_load (ir.kind i))) [
    | inl e ↦ rw (e, scan_load) (Moves-refl ir (a.0, d))
    | inr (p, e) ↦
        rw (e, scan_load)
          (elim (Bool-cases (matches_pointer ir (ir.strip_pointer_casts p) ptr)) [
            | inr b ↦ rw b (Moves-refl ir (a.0, d))
            | inl b ↦ rw b (elim (Bool-cases (contains i (a.0).tainted_values)) [
              | inl c ↦ rw c (Moves-refl ir (a.0, d))
              | inr c ↦ rw c (elim (Bool-cases (kill_check ir i ptr killed)) [
                | inl k ↦ rw k leveled
                | inr k ↦ rw k (elim (Bool-cases (is_load_before_taint_origin ir a.0 i ptr)) [
                  | inl f ↦ rw f leveled
                  | inr f ↦ rw f (
                      Moves-push ir i (a.0, d) _ m c (insert_new i _ c) refl refl refl ensured
                        (inr (refl, refl, refl)))
                ])
              ])
            ])
          ])
  ]
    where
      ensured : KeepsLevels a.0 (ensure_level_set ir i a.0)
      ensured = λ x l m e. lookup-ensured_levels ir i x l a.0 e

      leveled : Moves ir (a.0, d) (ensure_level_set ir i a.0, d)
      leveled = Moves-Finds ir (a.0, d) _ refl refl refl refl ensured (inr (refl, refl, refl))

  abbrev Kept : Bool → State × Bool → State × Bool → Type 0
  Kept d a b = Moves ir (a.0, d) (b.0, d)

  -- A scan for loads taints values of the module and discovers no function.
  pub scan_loads-Moves :
      (pointers : List Value) (killed : Option (List Value)) (s : State) (d : Bool)
      → Moves ir (s, d) ((scan_loads_from_tainted_pointers ir pointers killed s).0, d)
  unfolding scan_loads_from_tainted_pointers scan_pointer
  scan_loads-Moves pointers killed s d =
      foldl_steps (Kept d) (λ a. Moves-refl ir (a.0, d))
        (λ a b c. Moves-trans ir (a.0, d) (b.0, d) (c.0, d)) (scan_pointer ir killed) pointers
        (λ a ptr _.
          foldl_steps (Kept d) (λ a. Moves-refl ir (a.0, d))
            (λ a b c. Moves-trans ir (a.0, d) (b.0, d) (c.0, d)) (scan_load ir killed ptr)
            (defined_instructions ir)
            (λ b i h. scan_load-Moves killed ptr b i d (defined_instructions-mem ir is_module i h))
            a)
        (s, false)
