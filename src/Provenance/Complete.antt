-- ===== src/Provenance/Complete.antt =====
-- The search of `getPointerParameterOrigin` misses no parameter: where it answers null, the values
-- that it visited are closed under the chains of `Derives` and none is a pointer parameter.
use linux_analysis.Prelude.{
  ℕ, zero, suc, ◌≡◌, refl, ◌∙◌, ap, ◌↔◌, inl, inr, Bool, true, false, ◌&&◌, Option, none, some,
  List, [], ◌∷◌, contains, ◌∈◌, ◌⊆◌, ◌==◌, ==_refl, Bool-cases, Option-cases, if◌then◌else◌, arith,
}
use linux_analysis.Llvm.{
  Ir, Value, Kind, IsModule, as_store, is_alloca, is_argument, load_inst, gep_inst, phi_node,
  argument,
}
use linux_analysis.Provenance.{
  ◌>>=◌, Visit, or_else, is_pointer_argument, phi_origin, stored_origin, origin_case, visit_origin,
  enough, get_pointer_parameter_origin,
}
use linux_analysis.Provenance.Ends.{provenance_terminates}
use linux_analysis.Provenance.Derives.{
  Derives, parameter, step, stored_values, feeds, >>=-eq-some, origin_sound,
}

pub subset_cons : (x : Value) (xs t : List Value) → x ∈ t → xs ⊆ t → (x ∷ xs) ⊆ t
subset_cons x xs t h sub y m = elim (Bool-cases (contains y xs)) [
  | inl old ↦ sub y old
  | inr new ↦ let e : y ≡ x = ground arith in rw e h
]

module _ (ir : Ir) where
  abbrev next : Value → List Value
  next y = feeds ir (ir.kind (ir.strip_pointer_casts y))

  -- A value from which the search has gone on, and which is no pointer parameter.
  record IsDone (seen : List Value) (y : Value) : Type 0 where
    no_argument : is_pointer_argument ir (ir.strip_pointer_casts y) ≡ false
    visited : next y ⊆ seen

  record Adds (seen seen' : List Value) : Type 0 where
    keeps : seen ⊆ seen'
    done : (y : Value) → y ∈ seen' → contains y seen ≡ false → IsDone seen' y

  Adds-refl : (s : List Value) → Adds s s
  Adds-refl s = record { keeps = λ y m. m; done = λ y m n. cc }

  Adds-trans : (s t u : List Value) → Adds s t → Adds t u → Adds s u
  Adds-trans s t u a b = record {
    keeps = λ y m. b.keeps y (a.keeps y m);
    done = λ y m new. elim (Bool-cases (contains y t)) [
      | inl old ↦
          let d = a.done y old new in
          record { no_argument = d.no_argument; visited = λ w h. b.keeps w (d.visited w h) }
      | inr fresh ↦ b.done y m fresh
    ];
  }

  abbrev IsComplete : (Value → List Value → Visit (Option Value)) → Type 0
  IsComplete visit =
      (x : Value) (seen t : List Value) → visit x seen ≡ some (none, t) → Adds seen t × (x ∈ t)

  module _ (visit : Value → List Value → Visit (Option Value)) (full : IsComplete visit) where
    phi_origin_complete :
        (first : Option Value) (xs seen t : List Value)
        → phi_origin ir visit first xs seen ≡ some (none, t)
        → (first ≡ none) × Adds seen t × (xs ⊆ t)
    unfolding phi_origin
    phi_origin_complete first [] seen t e =
        let same : seen ≡ t = ground arith in (ground arith, rw same (Adds-refl t), λ y m. cc)
    phi_origin_complete first (x ∷ xs) seen t e =
        let (r, now, later) = >>=-eq-some (visit x seen) _ e in
        let (nothing, more, rest) = phi_origin_complete (or_else first r.0) xs r.1 t later in
        let (first_none, r_none) = both first r.0 nothing in
        let (adds, here) =
          full x seen r.1 (now ∙ ap (λ (o : Option Value). some (o, r.1)) r_none) in
        (first_none, Adds-trans seen r.1 t adds more, subset_cons x xs t (more.keeps x here) rest)
      where
        both : (a b : Option Value) → or_else a b ≡ none → (a ≡ none) × (b ≡ none)
        both none b h = (refl, h)
        both (some a) b h = cc

    -- One store of the loop, given the rest of the loop.
    module _ (us seen t : List Value)
        (rest : (s : List Value)
          → stored_origin ir visit us s ≡ some (none, t)
          → Adds s t × (stored_values ir us ⊆ t)) where
      later :
          (w : Value) (o : Option Value) (s : List Value)
          → visit w seen ≡ some (o, s)
          → (elim o [ none ↦ stored_origin ir visit us s | some b ↦ some (some b, s) ])
            ≡ some (none, t)
          → Adds seen t × ((w ∷ stored_values ir us) ⊆ t)
      later w none s now e =
          let (adds, here) = full w seen s now in
          let (more, sub) = rest s e in
          (Adds-trans seen s t adds more, subset_cons w _ t (more.keeps w here) sub)
      later w (some b) s now e = cc

      direct :
          (w : Value) (b : Bool)
          → (if b
              then some (some w, seen)
              else (visit w seen >>= λ r. elim r.0 [
                | none ↦ stored_origin ir visit us r.1
                | some c ↦ some (some c, r.1)
              ]))
            ≡ some (none, t)
          → Adds seen t × ((w ∷ stored_values ir us) ⊆ t)
      direct w true e = cc
      direct w false e =
          let (r, now, after) = >>=-eq-some (visit w seen) _ e in later w r.0 r.1 now after

    stored_origin_complete :
        (us seen t : List Value)
        → stored_origin ir visit us seen ≡ some (none, t)
        → Adds seen t × (stored_values ir us ⊆ t)
    unfolding stored_origin
    stored_origin_complete [] seen t e =
        let same : seen ≡ t = ground arith in (rw same (Adds-refl t), λ y m. cc)
    stored_origin_complete (u ∷ us) seen t e = elim (Option-cases (as_store (ir.kind u))) [
      | inl no_store ↦
          rw (no_store, stored_values)
            (stored_origin_complete us seen t (rw (no_store, stored_origin) at e))
      | inr (st, is_store) ↦
          rw (is_store, stored_values)
            (direct us seen t (λ s e'. stored_origin_complete us s t e')
              (ir.strip_pointer_casts st.value)
              (is_pointer_argument ir (ir.strip_pointer_casts st.value))
              (rw (is_store, stored_origin) at e))
    ]

    origin_case_complete :
        (v : Value) (seen : List Value) (k : Kind) (t : List Value)
        → origin_case ir visit v seen k ≡ some (none, t)
        → Adds seen t × ((is_argument k && ir.is_pointer_ty v) ≡ false) × (feeds ir k ⊆ t)
    unfolding origin_case
    origin_case_complete v seen (phi_node xs) t e =
        let (_, adds, sub) = phi_origin_complete none xs seen t e in (adds, refl, sub)
    origin_case_complete v seen (gep_inst base _ _) t e =
        let (adds, here) = full base seen t e in
        (adds, refl, subset_cons base [] t here (λ y m. cc))
    origin_case_complete v seen (load_inst p) t e =
        let (adds, sub) = loaded (is_alloca (ir.kind from)) e in (adds, refl, sub)
      where
        from : Value
        from = ir.strip_pointer_casts p

        loaded :
            (b : Bool)
            → (if b then stored_origin ir visit (ir.users from) seen else visit from seen)
              ≡ some (none, t)
            → Adds seen t × ((if b then stored_values ir (ir.users from) else from ∷ []) ⊆ t)
        loaded true e' = stored_origin_complete (ir.users from) seen t e'
        loaded false e' =
            let (adds, here) = full from seen t e' in (adds, subset_cons from [] t here (λ y m. cc))
    origin_case_complete v seen (argument i) t e =
        let same : seen ≡ t = ground arith in (rw same (Adds-refl t), ground arith, λ y m. cc)
    origin_case_complete v seen _ t e =
        let same : seen ≡ t = ground arith in (rw same (Adds-refl t), refl, λ y m. cc)

  visit_origin-IsComplete : (n : ℕ) → IsComplete (visit_origin ir n)
  unfolding visit_origin
  visit_origin-IsComplete zero x seen t e = cc
  visit_origin-IsComplete (suc n) x seen t e = elim (Bool-cases (contains x seen)) [
    | inl old ↦ let same : seen ≡ t = ground arith in (rw same (Adds-refl t), rw (← same) old)
    | inr new ↦
        let w = ir.strip_pointer_casts x in
        let (adds, no_arg, sub) =
          origin_case_complete (visit_origin ir n) (visit_origin-IsComplete n) w (x ∷ seen)
            (ir.kind w) t (rw new at e) in
        (completed x seen t adds no_arg sub, adds.keeps x (ground (arith, ==_refl x)))
  ]
    where
      completed :
          (x : Value) (seen t : List Value)
          → Adds (x ∷ seen) t
          → is_pointer_argument ir (ir.strip_pointer_casts x) ≡ false
          → next x ⊆ t
          → Adds seen t
      completed x seen t adds no_arg sub = record {
        keeps = λ y m. adds.keeps y (ground arith);
        done = λ y m fresh. elim (Bool-cases (y == x)) [
          | inl same ↦
              let e : y ≡ x = ground arith in rw e (record { no_argument = no_arg; visited = sub })
          | inr other ↦ adds.done y m (ground arith)
        ];
      }

  -- Where all visited values are done, no chain leads from one of them to a parameter.
  closed-not-Derives :
      (t : List Value)
      → ((y : Value) → y ∈ t → IsDone t y)
      → {a v : Value} → v ∈ t
      → ¬ Derives ir a v
  closed-not-Derives t all_done m (parameter {v} e arg) =
      let d = all_done v m in cc (d.no_argument, rw (← e) at arg)
  closed-not-Derives t all_done m (step {v} h d) =
      closed-not-Derives t all_done ((all_done v m).visited _ h) d

-- In a module the pass's question is decided: `getPointerParameterOrigin` is null exactly when
-- no chain of loads, GEPs, PHIs and casts leads from the pointer to a pointer parameter, and a
-- parameter that it returns is one that such a chain leads to.
pub origin_decides :
    (ir : Ir)
    → IsModule ir
    → (v : Value) → v ∈ ir.values
    → ((a : Value) → get_pointer_parameter_origin ir v ≡ some a → Derives ir a v)
      × (get_pointer_parameter_origin ir v ≡ none ↔ ((a : Value) → ¬ Derives ir a v))
origin_decides ir is_module v m = (
  origin_sound ir is_module.strip_idem v,
  (
    λ e a.
        let ((seen, run), _) = provenance_terminates ir is_module v m in
        let (adds, here) =
          visit_origin-IsComplete ir (enough ir) v [] seen
            (run ∙ ap (λ (o : Option Value). some (o, seen)) e) in
        closed-not-Derives ir seen (λ y h. adds.done y h refl) here,
    λ none_derives. elim (Option-cases (get_pointer_parameter_origin ir v)) [
      | inl e ↦ e
      | inr (a, e) ↦ absurd (none_derives a (origin_sound ir is_module.strip_idem v a e))
    ],
  ),
)
