-- ===== src/Seeds/Start.antt =====
-- What the search starts from.
use linux_analysis.Prelude.{
  ℕ, ℤ, ◌+◌, ◌≤◌, ◌≡◌, refl, ap, inl, inr, Bool, true, false, not, ◌&&◌, Option, none, some, List,
  [], ◌∷◌, foldl, length, get_elem?, contains, insert_new, eq_ℤ, missing, missing-le, ◌*◌, ◌∈◌, ◌⊆◌,
  ◌==◌, ==_refl, Bool-cases, Option-cases, if◌then◌else◌, arith,
}
use linux_analysis.Llvm.{
  Ir, Value, Function, Kind, IsModule, store_inst, call_inst, return_inst, as_constant_int,
  is_global, referred, function_instructions,
}
use linux_analysis.State.{Config, State, initial_state}
use linux_analysis.Provenance.{get_pointer_parameter_origin, extract_struct_field_indices}
use linux_analysis.Provenance.Ends.{subset_head, subset_tail}
use linux_analysis.Stores.{mark_pointer, taint_param, record_fields}
use linux_analysis.Downward.{taint_parameter}
use linux_analysis.Downward.Progress.{
  Grows, Grows-trans, Grows-same, Grows-push, Grows-mark, get_elem?-mem, potential, left,
}
use linux_analysis.Downward.Ends.{block_instructions-mem}
use linux_analysis.Seeds.{
  Seeding, seed_return, seed_store, seed_arguments, seed_effect, seed_source, taint_source,
  seed_constant, seed_operand, opcode_matches, seed_instruction, seed_function, seeds, text_eq,
}

-- Seeding pushes what it taints: the worklist stays the list of the tainted values.
record Keeps (all : List Value) (s t : State) : Type 0 where
  grows : Grows all s t
  paired : s.worklist ≡ s.tainted_values → t.worklist ≡ t.tainted_values

module _ (all : List Value) where
  Keeps-same :
      (s t : State)
      → t.worklist ≡ s.worklist
      → t.tainted_values ≡ s.tainted_values
      → t.tainted_pointers ≡ s.tainted_pointers
      → t.changed ≡ s.changed
      → Keeps all s t
  Keeps-same s t e f g h = record { grows = Grows-same all s t e f g h; paired = λ p. rw (e, f) p }

  Keeps-refl : (s : State) → Keeps all s s
  Keeps-refl s = Keeps-same s s refl refl refl refl

  Keeps-trans : (s t u : State) → Keeps all s t → Keeps all t u → Keeps all s u
  Keeps-trans s t u a b = record {
    grows = Grows-trans all s t u a.grows b.grows;
    paired = λ p. b.paired (a.paired p);
  }

  Keeps-push :
      (x : Value) (s t : State)
      → x ∈ all
      → contains x s.tainted_values ≡ false
      → t.tainted_values ≡ x ∷ s.tainted_values
      → t.worklist ≡ x ∷ s.worklist
      → t.tainted_pointers ≡ s.tainted_pointers
      → Keeps all s t
  Keeps-push x s t m new e f g = record {
    grows = Grows-push all x s t m new e f g;
    paired = λ p. rw (e, f) (ap (λ xs. x ∷ xs) p);
  }

module _ (ir : Ir) (is_module : IsModule ir) (cfg : Config) where
  abbrev Ok : State → State → Type 0
  Ok s t = Keeps ir.values s t

  taint_parameter-Keeps :
      (v : Value) (i : ℕ) (s : State) (f : Function) → Ok s (taint_parameter ir v i s f)
  unfolding taint_parameter
  taint_parameter-Keeps v i s f = elim (Option-cases (get_elem? (ir.params f) i)) [
    | inl e ↦ rw (e, taint_parameter) (Keeps-refl ir.values s)
    | inr (p, e) ↦
        rw (e, taint_parameter)
          (elim (Bool-cases (contains p s.tainted_values)) [
            | inl old ↦ rw old (Keeps-refl ir.values s)
            | inr new ↦ rw new (
                Keeps-push ir.values p s _ (is_module.params_mem f p (get_elem?-mem i p _ e)) new
                  (insert_new p _ new) refl refl)
          ])
  ]

  seed_arguments-Keeps :
      (i constant : Value) (f : Function) (n : ℕ) (args : List Value) (s : State)
      → Ok s (seed_arguments ir cfg i constant f n args s)
  unfolding seed_arguments
  seed_arguments-Keeps i constant f n [] s = Keeps-refl ir.values s
  seed_arguments-Keeps i constant f n (a ∷ rest) s =
      Keeps-trans ir.values s _ _
        (one (a == constant && cfg.interproc_mode && not (ir.is_declaration f)))
        (seed_arguments-Keeps i constant f (n + 1) rest _)
    where
      one : (b : Bool) → Ok s (if b then taint_parameter ir i n s f else s)
      one true = taint_parameter-Keeps i n s f
      one false = Keeps-refl ir.values s

  seed_return-Keeps :
      (i constant : Value) (r : Option Value) (s : State) → Ok s (seed_return ir cfg i constant r s)
  unfolding seed_return
  seed_return-Keeps i constant none s = Keeps-refl ir.values s
  seed_return-Keeps i constant (some r) s = elim (Bool-cases (r == constant)) [
    | inr other ↦ rw other (Keeps-refl ir.values s)
    | inl same ↦ rw same (elim (Option-cases (ir.function_of i)) [
      | inl e ↦ rw (e, seed_return) (Keeps-refl ir.values s)
      | inr (f, e) ↦ rw (e, seed_return) (Keeps-same ir.values s _ refl refl refl refl)
    ])
  ]

  record_fields-Keeps :
      (f : Function) (n : ℕ) (fields : List ℤ) (s t : State)
      → Ok s t
      → Ok s (record_fields f n fields t)
  unfolding record_fields
  record_fields-Keeps f n [] s t h = h
  record_fields-Keeps f n (_ ∷ _) s t h =
      Keeps-trans ir.values s t _ h (Keeps-same ir.values t _ refl refl refl refl)

  seed_store-Keeps :
      (i p : Value) (s : State)
      → ir.strip_pointer_casts p ∈ ir.values
      → Ok s (seed_store ir cfg i p s)
  unfolding seed_store mark_pointer taint_param
  seed_store-Keeps i p s m = elim (Bool-cases (is_global (ir.kind ptr))) [
    | inl e ↦ rw e (Keeps-refl ir.values s)
    | inr e ↦ rw e (elim (Option-cases (get_pointer_parameter_origin ir p)) [
      | inr (a, o) ↦
          rw (o, seed_store)
            (elim (Option-cases (ir.function_of i)) [
              | inl n ↦ rw (n, seed_store) (Keeps-refl ir.values s)
              | inr (f, n) ↦
                  rw (n, seed_store)
                    (record_fields-Keeps f _ (extract_struct_field_indices ir p) s _
                      (Keeps-same ir.values s _ refl refl refl refl))
            ])
      | inl o ↦
          rw (o, seed_store)
            (elim (Bool-cases (contains ptr s.tainted_pointers)) [
              | inl old ↦ rw old (Keeps-refl ir.values s)
              | inr new ↦ rw new (record {
                grows = Grows-mark ir.values ptr s _ m new (insert_new ptr _ new) refl refl;
                paired = λ h. h;
              })
            ])
    ])
  ]
    where
      ptr : Value
      ptr = ir.strip_pointer_casts p

  seed_effect-Keeps :
      (i constant : Value) (k : Kind) (s : State)
      → referred k ⊆ ir.values
      → Ok s (seed_effect ir cfg i constant k s)
  unfolding seed_effect
  seed_effect-Keeps i constant (return_inst r) s sub = seed_return-Keeps i constant r s
  seed_effect-Keeps i constant (store_inst v p) s sub =
      seed_store-Keeps i p s (is_module.strip_mem p (sub p (ground (arith, ==_refl p))))
  seed_effect-Keeps i constant (call_inst (some f) operand args) s sub =
      seed_arguments-Keeps i constant f 0 args s
  seed_effect-Keeps i constant (call_inst none operand args) s sub = Keeps-refl ir.values s
  seed_effect-Keeps i constant _ s sub = Keeps-refl ir.values s

  taint_source-Keeps :
      (i constant : Value) (s : State) → i ∈ ir.values → Ok s (taint_source ir cfg i constant s)
  unfolding taint_source seed_source
  taint_source-Keeps i constant s m = elim (Bool-cases (contains i s.tainted_values)) [
    | inl old ↦ rw old (Keeps-refl ir.values s)
    | inr new ↦ rw new (
        Keeps-trans ir.values s (seed_source ir cfg i s) _
          (Keeps-push ir.values i s _ m new (insert_new i _ new) refl refl)
          (seed_effect-Keeps i constant (ir.kind i) (seed_source ir cfg i s)
            (is_module.referred_mem i m)))
  ]

  abbrev Ok' : Seeding → Seeding → Type 0
  Ok' a b = Ok a.state b.state

  seed_operand-Keeps :
      (i : Value) (a : Seeding) (op : Value) → i ∈ ir.values → Ok' a (seed_operand ir cfg i a op)
  unfolding seed_operand seed_constant
  seed_operand-Keeps i a op m = elim (Bool-cases a.found) [
    | inl e ↦ rw e (Keeps-refl ir.values a.state)
    | inr e ↦ rw e (elim (Option-cases (as_constant_int (ir.kind op))) [
      | inl n ↦ rw (n, seed_operand) (Keeps-refl ir.values a.state)
      | inr (c, n) ↦
          rw (n, seed_operand)
            (elim (Bool-cases (eq_ℤ c cfg.constant_to_track)) [
              | inr d ↦ rw d (Keeps-refl ir.values a.state)
              | inl d ↦ rw d (
                  counted (
                    not (cfg.occurrence_index == 0)
                    && not ((a.occurrence + 1) == cfg.occurrence_index)))
            ])
    ])
  ]
    where
      counted :
          (b : Bool)
          → Ok a.state
              (if b then record a { occurrence = a.occurrence + 1 } else record {
                state = taint_source ir cfg i op a.state;
                occurrence = a.occurrence + 1;
                found = not (cfg.occurrence_index == 0);
              }).state
      counted true = Keeps-refl ir.values a.state
      counted false = taint_source-Keeps i op a.state m

  seed_operands-Keeps :
      (i : Value) (ops : List Value) (a : Seeding)
      → i ∈ ir.values
      → Ok' a (foldl (seed_operand ir cfg i) a ops)
  seed_operands-Keeps i [] a m = Keeps-refl ir.values a.state
  seed_operands-Keeps i (op ∷ ops) a m =
      Keeps-trans ir.values a.state _ _ (seed_operand-Keeps i a op m)
        (seed_operands-Keeps i ops _ m)

  seed_instructions-Keeps :
      (is : List Value) (a : Seeding)
      → is ⊆ ir.values
      → Ok' a (foldl (seed_instruction ir cfg) a is)
  unfolding seed_instruction
  seed_instructions-Keeps [] a sub = Keeps-refl ir.values a.state
  seed_instructions-Keeps (i ∷ is) a sub =
      Keeps-trans ir.values a.state _ _ (one (opcode_matches ir cfg i))
        (seed_instructions-Keeps is _ (subset_tail i is _ sub))
    where
      one : (b : Bool) → Ok' a (if b then foldl (seed_operand ir cfg i) a (ir.operands i) else a)
      one true = seed_operands-Keeps i (ir.operands i) a (subset_head i is _ sub)
      one false = Keeps-refl ir.values a.state

  seed_functions-Keeps :
      (fs : List Function) (a : Seeding) → Ok' a (foldl (seed_function ir cfg) a fs)
  unfolding seed_function
  seed_functions-Keeps [] a = Keeps-refl ir.values a.state
  seed_functions-Keeps (f ∷ fs) a =
      Keeps-trans ir.values a.state _ _ (one (text_eq (ir.function_name f) cfg.function_name))
        (seed_functions-Keeps fs _)
    where
      one :
          (b : Bool)
          → Ok' a (if b then foldl (seed_instruction ir cfg) a (function_instructions ir f) else a)
      one true =
          seed_instructions-Keeps (function_instructions ir f) a
            (block_instructions-mem ir is_module (ir.blocks f))
      one false = Keeps-refl ir.values a.state

-- In a module, when seeding is done, the worklist and the tainted values are the same list, all of
-- them are values of the module, the worklist and the values left to taint number at most the
-- values, and what is left to taint, of values and of pointers, is at most twice that.
pub seeds_start :
    (ir : Ir) (is_module : IsModule ir) (cfg : Config)
    → ((seeds ir cfg).state.worklist ≡ (seeds ir cfg).state.tainted_values)
      × ((seeds ir cfg).state.worklist ⊆ ir.values)
      × (potential ir.values (seeds ir cfg).state ≤ length ir.values)
      × (left ir.values (seeds ir cfg).state ≤ 2 * length ir.values)
unfolding seeds
seeds_start ir is_module cfg = (
  kept.paired refl,
  kept.grows.inside (λ x m. cc),
  omega (arith, kept.grows.stack, all_missing),
  omega (arith, kept.grows.values, kept.grows.pointers, all_missing),
)
  where
    kept :
        Keeps ir.values initial_state
          (foldl
            (seed_function ir cfg)
            (record { state = initial_state; occurrence = 0; found = false })
            ir.functions).state
    kept =
        seed_functions-Keeps ir is_module cfg ir.functions
          (record { state = initial_state; occurrence = 0; found = false })

    all_missing : missing ir.values [] ≤ length ir.values
    all_missing = missing-le ir.values []
