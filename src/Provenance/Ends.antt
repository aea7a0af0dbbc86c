-- ===== src/Provenance/Ends.antt =====
-- The searches of `Provenance` end: in a module, one unit of fuel for each value is enough.
use linux_analysis.Prelude.{
  ℕ, zero, suc, ℤ, ◌<◌, ◌≡◌, refl, inl, inr, Bool, true, false, Option, none, some, List, [], ◌∷◌,
  contains, ◌∈◌, ◌⊆◌, missing, missing_mono, missing-cons, missing-le, ==_refl, Bool-cases,
  Option-cases, if◌then◌else◌, arith,
}
use linux_analysis.Llvm.{
  Ir, Value, Kind, Store, IsModule, as_store, referred, is_alloca, store_inst, load_inst, gep_inst,
  phi_node, argument,
}
use linux_analysis.Provenance.{
  ◌>>=◌, Visit, is_empty, is_pointer_argument, stored_indices, indices_case, visit_indices,
  phi_origin, stored_origin, origin_case, visit_origin, enough, extract_struct_field_indices,
  get_pointer_parameter_origin,
}

pub subset_head : (x : ℕ) (xs ys : List ℕ) → (x ∷ xs) ⊆ ys → x ∈ ys
subset_head x xs ys h = h x (ground arith)

pub subset_tail : (x : ℕ) (xs ys : List ℕ) → (x ∷ xs) ⊆ ys → xs ⊆ ys
subset_tail x xs ys h y m = h y (ground arith)

pub as_store-inv :
    (k : Kind) (st : Store) → as_store k ≡ some st → k ≡ store_inst st.value st.pointer
as_store-inv k st e = ground arith

-- A call returns, and forgets no visited value.
abbrev pub Settles {ℓ} : {A : Type ℓ} → List Value → Visit A → Type ℓ
Settles {A = A} seen o = (r : A × List Value) × (o ≡ some r) × (seen ⊆ r.1)

module _ {ℓ κ} {A : Type ℓ} {B : Type κ} where
  Settles-bind :
      (seen : List Value) (m : Visit A) (f : A × List Value → Visit B)
      → Settles seen m
      → ((r : A × List Value) → seen ⊆ r.1 → Settles r.1 (f r))
      → Settles seen (m >>= f)
  Settles-bind seen m f (r, e, grow) next =
      let (t, e', grow') = next r grow in (t, rw e e', λ x h. grow' x (grow x h))

module _ {ℓ} {A : Type ℓ} where
  Settles-if :
      (b : Bool) (seen : List Value) (m o : Visit A)
      → Settles seen m
      → Settles seen o
      → Settles seen (if b then m else o)
  Settles-if true seen m o hm ho = hm
  Settles-if false seen m o hm ho = ho

  Settles-pure : (seen : List Value) (a : A) → Settles seen (some (a, seen))
  Settles-pure seen a = ((a, seen), refl, λ x m. m)

  Settles-more :
      (x : Value) (seen : List Value) (m : Visit A) → Settles (x ∷ seen) m → Settles seen m
  Settles-more x seen m (r, e, grow) = (r, e, λ y h. grow y (ground arith))

module _ (ir : Ir) (mod_ir : IsModule ir) where
  -- Calls with fewer than `n` values left to visit settle.
  abbrev Ends {ℓ} : {A : Type ℓ} → ℕ → (Value → List Value → Visit A) → Type ℓ
  Ends n visit =
      (x : Value) (seen : List Value)
      → x ∈ ir.values
      → missing ir.values seen < n
      → Settles seen (visit x seen)

  store_value_mem :
      (u : Value) (st : Store)
      → u ∈ ir.values
      → as_store (ir.kind u) ≡ some st
      → ir.strip_pointer_casts st.value ∈ ir.values
  store_value_mem u st h e = mod_ir.strip_mem st.value (
      mod_ir.referred_mem u h st.value
        (rw (as_store-inv (ir.kind u) st e) (ground (arith, ==_refl st.value))))

  module _ {n : ℕ} where
    fewer :
        (seen seen' : List Value)
        → missing ir.values seen < n
        → seen ⊆ seen'
        → missing ir.values seen' < n
    fewer seen seen' h grow = omega (arith, missing_mono ir.values seen seen' grow)

    stored_indices-Settles :
        (visit : Value → List Value → Visit (List ℤ))
        → Ends n visit
        → (us seen : List Value) → us ⊆ ir.values
        → missing ir.values seen < n
        → Settles seen (stored_indices ir visit us seen)
    unfolding stored_indices
    stored_indices-Settles visit ends [] seen sub h = Settles-pure seen []
    stored_indices-Settles visit ends (u ∷ us) seen sub h =
        let rest = λ (t : List Value) (ht : missing ir.values t < n).
          stored_indices-Settles visit ends us t (subset_tail u us _ sub) ht in
        elim (Option-cases (as_store (ir.kind u))) [
          | inl e ↦ rw (e, stored_indices) (rest seen h)
          | inr (st, e) ↦
              rw (e, stored_indices)
                (Settles-bind seen (visit (ir.strip_pointer_casts st.value) seen) _
                  (ends _ seen (store_value_mem u st (subset_head u us _ sub) e) h)
                  (λ r grow.
                    Settles-if (is_empty r.0) r.1 _ _ (rest r.1 (fewer seen r.1 h grow))
                      (Settles-pure r.1 r.0)))
        ]

    indices_case-Settles :
        (visit : Value → List Value → Visit (List ℤ))
        → Ends n visit
        → (seen : List Value) (k : Kind) → referred k ⊆ ir.values
        → missing ir.values seen < n
        → Settles seen (indices_case ir visit seen k)
    unfolding indices_case
    indices_case-Settles visit ends seen (gep_inst base t is) sub h =
        Settles-bind seen (visit base seen) _ (ends base seen (subset_head base [] _ sub) h)
          (λ r grow. Settles-pure r.1 _)
    indices_case-Settles visit ends seen (load_inst p) sub h =
        let p_mem = subset_head p [] _ sub in
        Settles-if (is_alloca (ir.kind p)) seen _ _
          (stored_indices-Settles visit ends (ir.users p) seen (mod_ir.users_mem p p_mem) h)
          (ends p seen p_mem h)
    indices_case-Settles visit ends seen _ sub h = Settles-pure seen []

    phi_origin-Settles :
        (visit : Value → List Value → Visit (Option Value))
        → Ends n visit
        → (first : Option Value) (xs seen : List Value) → xs ⊆ ir.values
        → missing ir.values seen < n
        → Settles seen (phi_origin ir visit first xs seen)
    unfolding phi_origin
    phi_origin-Settles visit ends first [] seen sub h = Settles-pure seen first
    phi_origin-Settles visit ends first (x ∷ xs) seen sub h =
        Settles-bind seen (visit x seen) _ (ends x seen (subset_head x xs _ sub) h) (λ r grow.
          phi_origin-Settles visit ends _ xs r.1 (subset_tail x xs _ sub) (fewer seen r.1 h grow))

    stored_origin-Settles :
        (visit : Value → List Value → Visit (Option Value))
        → Ends n visit
        → (us seen : List Value) → us ⊆ ir.values
        → missing ir.values seen < n
        → Settles seen (stored_origin ir visit us seen)
    unfolding stored_origin
    stored_origin-Settles visit ends [] seen sub h = Settles-pure seen none
    stored_origin-Settles visit ends (u ∷ us) seen sub h =
        let rest = λ (t : List Value) (ht : missing ir.values t < n).
          stored_origin-Settles visit ends us t (subset_tail u us _ sub) ht in
        elim (Option-cases (as_store (ir.kind u))) [
          | inl e ↦ rw (e, stored_origin) (rest seen h)
          | inr (st, e) ↦
              rw (e, stored_origin)
                (Settles-if (is_pointer_argument ir (ir.strip_pointer_casts st.value)) seen _ _
                  (Settles-pure seen _)
                  (Settles-bind seen (visit (ir.strip_pointer_casts st.value) seen) _
                    (ends _ seen (store_value_mem u st (subset_head u us _ sub) e) h)
                    (λ r grow. first_answer visit us r.0 r.1 (rest r.1 (fewer seen r.1 h grow)))))
        ]
      where
        first_answer :
            (visit : Value → List Value → Visit (Option Value)) (us : List Value) (o : Option Value)
            (t : List Value)
            → Settles t (stored_origin ir visit us t)
            → Settles t (elim o [ none ↦ stored_origin ir visit us t | some a ↦ some (some a, t) ])
        first_answer visit us none t rest = rest
        first_answer visit us (some a) t rest = Settles-pure t (some a)

    origin_case-Settles :
        (visit : Value → List Value → Visit (Option Value))
        → Ends n visit
        → (v : Value) (seen : List Value) (k : Kind) → referred k ⊆ ir.values
        → missing ir.values seen < n
        → Settles seen (origin_case ir visit v seen k)
    unfolding origin_case
    origin_case-Settles visit ends v seen (argument i) sub h = Settles-pure seen _
    origin_case-Settles visit ends v seen (phi_node xs) sub h =
        phi_origin-Settles visit ends none xs seen sub h
    origin_case-Settles visit ends v seen (gep_inst base t is) sub h =
        ends base seen (subset_head base [] _ sub) h
    origin_case-Settles visit ends v seen (load_inst p) sub h =
        let from_mem = mod_ir.strip_mem p (subset_head p [] _ sub) in
        let from = ir.strip_pointer_casts p in
        Settles-if (is_alloca (ir.kind from)) seen _ _
          (stored_origin-Settles visit ends (ir.users from) seen (mod_ir.users_mem from from_mem) h)
          (ends from seen from_mem h)
    origin_case-Settles visit ends v seen _ sub h = Settles-pure seen none

  visit_indices-Ends : (n : ℕ) → Ends n (visit_indices ir n)
  unfolding visit_indices
  visit_indices-Ends zero x seen m h = absurd (omega arith)
  visit_indices-Ends (suc n) x seen m h = elim (Bool-cases (contains x seen)) [
    | inl e ↦ rw e (Settles-pure seen [])
    | inr e ↦ rw e (
        Settles-more x seen _ (
          indices_case-Settles (visit_indices ir n) (visit_indices-Ends n) (x ∷ seen) (ir.kind x)
            (mod_ir.referred_mem x m) (omega (arith, missing-cons ir.values seen x m e))))
  ]

  visit_origin-Ends : (n : ℕ) → Ends n (visit_origin ir n)
  unfolding visit_origin
  visit_origin-Ends zero x seen m h = absurd (omega arith)
  visit_origin-Ends (suc n) x seen m h = elim (Bool-cases (contains x seen)) [
    | inl e ↦ rw e (Settles-pure seen none)
    | inr e ↦ rw e (
        Settles-more x seen _ (
          origin_case-Settles (visit_origin ir n) (visit_origin-Ends n) (ir.strip_pointer_casts x)
            (x ∷ seen) (ir.kind (ir.strip_pointer_casts x))
            (mod_ir.referred_mem _ (mod_ir.strip_mem x m))
            (omega (arith, missing-cons ir.values seen x m e))))
  ]

  answered {ℓ} :
      {A : Type ℓ} (d : A) (o : Visit A) (r : A × List Value)
      → o ≡ some r
      → (seen : List Value) × (o ≡ some (elim o [ none ↦ d | some t ↦ t.0 ], seen))
  answered d none r e = cc
  answered d (some t) r e = (t.1, refl)

  -- In a module, from any of its values, both searches return, and what the calls of the pass
  -- see is the answer of the search and not the default for exhausted fuel.
  pub provenance_terminates :
      (v : Value)
      → v ∈ ir.values
      → ((seen : List Value) × (visit_origin ir (enough ir) v []
            ≡ some (get_pointer_parameter_origin ir v, seen)))
        × ((seen : List Value) × (visit_indices ir (enough ir) v []
              ≡ some (extract_struct_field_indices ir v, seen)))
  unfolding get_pointer_parameter_origin extract_struct_field_indices
  provenance_terminates v m =
      let fits : missing ir.values [] < enough ir = omega (arith, missing-le ir.values []) in
      let (r, e, _) = visit_origin-Ends (enough ir) v [] m fits in
      let (t, e', _) = visit_indices-Ends (enough ir) v [] m fits in
      (answered none _ r e, answered [] _ t e')
