-- ===== src/Upward/Passed.antt =====
-- What the last iteration of the upward search (passes/TaintTrackerPass/TaintTrackerPass.cpp) has
-- visited at the calls of functions that taint a parameter.
use linux_analysis.Prelude.{
  ℕ, ◌≡◌, sym, ap, inl, inr, Bool, true, false, none, some, List, [], ◌∷◌, foldl, foldl_reaches,
  foldl_steps, get_elem?, Map, lookup, contains, contains-sort, insert, contains-insert, sort, ◌∈◌,
  ==_refl, Bool-cases, Option-cases, lookup-put, if◌then◌else◌, arith,
}
use linux_analysis.Llvm.{Ir, Value, Function, Call, IsModule, arg_no, defined_instructions}
use linux_analysis.State.{State}
use linux_analysis.Provenance.{get_pointer_parameter_origin}
use linux_analysis.Stores.{taint_param, mark_pointer}
use linux_analysis.Downward.{sort_entries}
use linux_analysis.Downward.Ends.{defined_instructions-mem}
use linux_analysis.Upward.{
  Discovery, taint_returning_calls, raise_caller, pass_through, visit_field, accessed_fields,
  pointed_variable, taint_variable, visit_argument, visit_tainting_call, taint_arguments_of,
  taint_passed_pointers,
}
use linux_analysis.Upward.Discoveries.{Finds-Remembers}
use linux_analysis.Upward.Climbs.{Climbs, Climbs-trans}
use linux_analysis.Upward.Callers.{taint_returning_calls-Moves, raise_caller-same}
use linux_analysis.Upward.Arguments.{
  visit_argument-Moves, visit_field-Moves, pointed_variable-mem, taint_passed_pointers-Moves,
  visit_tainting_call-Moves, taint_arguments-Moves, arguments-mem,
}
use linux_analysis.Upward.Fixed.{Fixed}
use linux_analysis.Downward.Entries.{HasEntry, HasEntry-lookup, HasEntry-sort_entries}
use linux_analysis.Downward.Progress.{get_elem?-mem}
use linux_analysis.Upward.Closed.{Calls, known_params, IsClosed, taint_returning_calls-reaches}

-- Parameter `n` of `f` at the call `i`, with a predicate that the visit brings about.
module _ (ir : Ir) (is_module : IsModule ir) (P : Discovery → Type 0)
    (lasts : (a b : Discovery) → Climbs ir a b → P a → P b) (f : Function) (n : ℕ) (i : Value)
    (c : Call) (call : Calls ir f i c)
    (reach : (a : Discovery) → P (visit_argument ir f i c.arguments a n)) where
  visit_tainting_call-reaches :
      (params : List ℕ) (a : Discovery) → n ∈ params → P (visit_tainting_call ir f params a i)
  unfolding visit_tainting_call
  visit_tainting_call-reaches params a m =
      let sub =
        arguments-mem ir is_module i c (defined_instructions-mem ir is_module i call.defined)
          call.is_call in
      rw (call.is_call, visit_tainting_call)
        (rw call.callee (
          foldl_reaches P (visit_argument ir f i c.arguments) (sort params) n
            (rw (contains-sort n params) m) reach
            (λ b k _ h.
              lasts b _ (visit_argument-Moves ir is_module f i c.arguments b k sub).climbs h)
            a))

  taint_arguments-reaches :
      (params : List ℕ) (m : Map (List ℕ)) (a : Discovery)
      → n ∈ params
      → HasEntry f params m
      → P (foldl (taint_arguments_of ir) a m)
  unfolding taint_arguments_of
  taint_arguments-reaches params [] a h e = elim e [ ]
  taint_arguments-reaches params ((g, ps) ∷ m) a h (inr later) =
      taint_arguments-reaches params m _ h later
  taint_arguments-reaches params ((g, ps) ∷ m) a h (inl here) =
      let same : g ≡ f = ap (λ (e : ℕ × List ℕ). e.0) here in
      let same' : ps ≡ params = ap (λ (e : ℕ × List ℕ). e.1) here in
      lasts _ _ (taint_arguments-Moves ir is_module m _).climbs (
        rw (same, same')
          (foldl_reaches P (visit_tainting_call ir f params) (defined_instructions ir) i
            call.defined (λ b. visit_tainting_call-reaches params b h)
            (λ b j mem p.
              lasts b _
                (visit_tainting_call-Moves ir is_module f params b j
                  (defined_instructions-mem ir is_module j mem)).climbs
                p)
            a))

  taint_passed_pointers-reaches :
      (s : State) → n ∈ known_params s f → P (taint_passed_pointers ir s)
  unfolding taint_passed_pointers
  taint_passed_pointers-reaches s m =
      elim (Option-cases (lookup f s.functions_tainting_pointer_params)) [
        | inl e ↦ cc (rw e at m)
        | inr (params, e) ↦
            taint_arguments-reaches params (sort_entries s.functions_tainting_pointer_params)
              (s, false) (rw e at m)
              (HasEntry-sort_entries f params s.functions_tainting_pointer_params
                (HasEntry-lookup f params s.functions_tainting_pointer_params e))
      ]

module _ (ir : Ir) (is_module : IsModule ir) where
  taint_param-mem : (g : Function) (n : ℕ) (s : State) → n ∈ known_params (taint_param g n s).0 g
  unfolding taint_param
  taint_param-mem g n s =
      rw
        (
          lookup-put g g (insert n (known_params s g)) s.functions_tainting_pointer_params,
          ==_refl g,
          contains-insert n n (known_params s g),
        )
        (ground (arith, ==_refl n))

  pass_through-reaches :
      (f g : Function) (call : Value) (n : ℕ) (a : Discovery)
      → ir.function_of call ≡ some g
      → n ∈ known_params (pass_through ir f call n a).0 g
  unfolding pass_through
  pass_through-reaches f g call n a e = rw (e, pass_through) (discovered _)
    where
      discovered :
          (new : Bool)
          → n
            ∈ known_params
                (if◌then◌else◌ {A = Discovery} new
                  (raise_caller ir f call (taint_param g n a.0).0, true)
                  ((taint_param g n a.0).0, a.1)).0
                g
      discovered true =
          let (_, _, _, same) = raise_caller-same ir is_module f call (taint_param g n a.0).0 in
          rw same (taint_param-mem g n a.0)
      discovered false = taint_param-mem g n a.0

  mark_pointer-mem : (x inst : Value) (s : State) → x ∈ (mark_pointer x inst s).tainted_pointers
  unfolding mark_pointer
  mark_pointer-mem x inst s = elim (Bool-cases (contains x s.tainted_pointers)) [
    | inl old ↦ rw old old
    | inr new ↦ rw (new, contains-insert x x s.tainted_pointers) (ground (arith, ==_refl x))
  ]

  taint_variable-reaches :
      (f : Function) (call : Value) (i : ℕ) (x : Value) (s : State)
      → x ∈ ir.values
      → x ∈ (taint_variable ir f call i x s).tainted_pointers
  unfolding taint_variable
  taint_variable-reaches f call i x s m = elim (Bool-cases (contains x s.tainted_pointers)) [
    | inl old ↦ rw old old
    | inr new ↦ rw new (fields _)
  ]
    where
      s1 : State
      s1 = mark_pointer x call (raise_caller ir f call s)

      fields :
          (b : Bool)
          → x
            ∈ (if b
                then foldl (visit_field ir call (accessed_fields f i s1)) s1 (ir.users x)
                else s1).tainted_pointers
      fields false = mark_pointer-mem x call (raise_caller ir f call s)
      fields true =
          foldl_steps (λ (s t : State). x ∈ s.tainted_pointers → x ∈ t.tainted_pointers) (λ s h. h)
            (λ s t u h k p. k (h p)) (visit_field ir call (accessed_fields f i s1)) (ir.users x)
            (λ t u h.
              (visit_field-Moves ir is_module call (accessed_fields f i s1) t u false
                  (is_module.users_mem x m u h)).climbs.pointed
                x)
            s1 (mark_pointer-mem x call (raise_caller ir f call s))

  visit_argument-passed :
      (f g : Function) (call : Value) (args : List Value) (n : ℕ) (arg p : Value) (a : Discovery)
      → get_elem? args n ≡ some arg
      → get_pointer_parameter_origin ir arg ≡ some p
      → ir.function_of call ≡ some g
      → arg_no (ir.kind p) ∈ known_params (visit_argument ir f call args a n).0 g
  unfolding visit_argument
  visit_argument-passed f g call args n arg p a here origin within =
      rw (here, origin, visit_argument)
        (pass_through-reaches f g call (arg_no (ir.kind p)) a within)

  visit_argument-addressed :
      (f : Function) (call : Value) (args : List Value) (n : ℕ) (arg x : Value) (a : Discovery)
      → x ∈ ir.values
      → get_elem? args n ≡ some arg
      → get_pointer_parameter_origin ir arg ≡ none
      → pointed_variable ir arg ≡ some x
      → x ∈ (visit_argument ir f call args a n).0.tainted_pointers
  unfolding visit_argument
  visit_argument-addressed f call args n arg x a m here free var =
      rw (here, free, var, visit_argument) (taint_variable-reaches f call n x a.0 m)

  -- At the end every caller has been visited.
  pub Fixed-IsClosed : (s t : State) → Fixed ir is_module s t → IsClosed ir t
  Fixed-IsClosed s t fixed = record {
    returned = λ f i c m call.
        (whole.tainted i
          (taint_returning_calls-reaches ir is_module f i c fixed.last (rw returning m) call));
    passed = λ f g n i c arg p m call here origin within.
        let reached =
          taint_passed_pointers-reaches ir is_module (λ a. arg_no (ir.kind p) ∈ known_params a.0 g)
            (λ a b h. (Finds-Remembers ir a b h.finds).1 g (arg_no (ir.kind p))) f n i c call
            (λ a. visit_argument-passed f g i c.arguments n arg p a here origin within)
            (taint_returning_calls ir fixed.last) (known f n m) in
        (Finds-Remembers ir (taint_passed_pointers ir (taint_returning_calls ir fixed.last))
            (t, false) fixed.settled.climbs.finds).1
          g (arg_no (ir.kind p)) reached;
    addressed = λ f n i c arg x m call here free var.
        let arg_mem =
          arguments-mem ir is_module i c (defined_instructions-mem ir is_module i call.defined)
            call.is_call arg (get_elem?-mem n arg c.arguments here) in
        let reached =
          taint_passed_pointers-reaches ir is_module (λ a. x ∈ a.0.tainted_pointers)
            (λ a b h. h.pointed x) f n i c call
            (λ a.
              visit_argument-addressed f i c.arguments n arg x a
                (pointed_variable-mem ir is_module arg x arg_mem var) here free var)
            (taint_returning_calls ir fixed.last) (known f n m) in
        fixed.settled.climbs.pointed x reached;
  }
    where
      whole : Climbs ir (taint_returning_calls ir fixed.last, false) (t, false)
      whole =
          Climbs-trans ir (taint_returning_calls ir fixed.last, false) _ (t, false)
            (taint_passed_pointers-Moves ir is_module (taint_returning_calls ir fixed.last)).climbs
            fixed.settled.climbs

      nothing_new :
          (t.functions_returning_taint ≡ fixed.last.functions_returning_taint)
          × (t.functions_tainting_pointer_params ≡ fixed.last.functions_tainting_pointer_params)
      nothing_new = elim fixed.still.finds [
        | inl (on, _, _) ↦ cc
        | inr (_, returning, params) ↦ (returning, params)
      ]

      returning : fixed.last.functions_returning_taint ≡ t.functions_returning_taint
      returning = sym nothing_new.0

      known :
          (f : Function) (n : ℕ)
          → n ∈ known_params t f
          → n ∈ known_params (taint_returning_calls ir fixed.last) f
      known f n m =
          (Finds-Remembers ir (fixed.last, false) (taint_returning_calls ir fixed.last, false)
              (taint_returning_calls-Moves ir is_module fixed.last false).climbs.finds).1
            f n (rw nothing_new.1 at m)
