-- ===== src/Provenance/Derives.antt =====
-- What `getPointerParameterOrigin` decides: whether a chain of loads, GEPs, PHIs and casts leads
-- from a pointer to a pointer parameter.
use linux_analysis.Prelude.{
  ℕ, zero, suc, ◌≡◌, refl, ◌∙◌, ap, ◌⊎◌, inl, inr, Bool, true, false, ◌&&◌, Option, none, some,
  List, [], ◌∷◌, contains, ◌∈◌, Bool-cases, Option-cases, if◌then◌else◌, arith,
}
use linux_analysis.Llvm.{
  Ir, Value, Kind, as_store, is_alloca, is_argument, load_inst, gep_inst, phi_node, argument,
}
use linux_analysis.Provenance.{
  ◌>>=◌, Visit, or_else, is_pointer_argument, phi_origin, stored_origin, origin_case, visit_origin,
  enough, get_pointer_parameter_origin,
}

module _ (ir : Ir) where
  -- What the stores among the users store, without casts.
  abbrev pub stored_values : List Value → List Value
  stored_values [] = []
  stored_values (u ∷ us) = elim (as_store (ir.kind u)) [
    | some st ↦ ir.strip_pointer_casts st.value ∷ stored_values us
    | none ↦ stored_values us
  ]

  -- The pointers that a value of this class is read or computed from.
  abbrev pub feeds : Kind → List Value
  feeds (phi_node xs) = xs
  feeds (gep_inst base t is) = base ∷ []
  feeds (load_inst p) =
      let from = ir.strip_pointer_casts p in
      if is_alloca (ir.kind from) then stored_values (ir.users from) else from ∷ []
  feeds _ = []

-- A chain from a value to the pointer parameter `a`.
pub data Derives (ir : Ir) (a : Value) : Value → Type 0 where
  parameter :
      {v : Value} → ir.strip_pointer_casts v ≡ a → is_pointer_argument ir a ≡ true → Derives ir a v
  step :
      {v w : Value}
      → w ∈ feeds ir (ir.kind (ir.strip_pointer_casts v))
      → Derives ir a w
      → Derives ir a v

pub >>=-eq-some {ℓ κ} :
    {A : Type ℓ} {B : Type κ} (m : Option A) (f : A → Option B) {b : B}
    → (m >>= f) ≡ some b
    → (a : A) × (m ≡ some a) × (f a ≡ some b)
>>=-eq-some none f h = cc
>>=-eq-some (some a) f h = (a, refl, h)

module _ (ir : Ir)
    (strip_idem : (v : Value)
      → ir.strip_pointer_casts (ir.strip_pointer_casts v) ≡ ir.strip_pointer_casts v) where
  abbrev IsSound : (Value → List Value → Visit (Option Value)) → Type 0
  IsSound visit =
      (x : Value) (seen : List Value) (a : Value) (t : List Value)
      → visit x seen ≡ some (some a, t)
      → Derives ir a x

  abbrev SomeDerives : Value → List Value → Type 0
  SomeDerives a xs = (w : Value) × (w ∈ xs) × Derives ir a w

  SomeDerives-cons : (a x : Value) (xs : List Value) → SomeDerives a xs → SomeDerives a (x ∷ xs)
  SomeDerives-cons a x xs (w, m, d) = (w, ground arith, d)

  SomeDerives-head : (a x : Value) (xs : List Value) → Derives ir a x → SomeDerives a (x ∷ xs)
  SomeDerives-head a x xs d = (x, ground arith, d)

  phi_origin_sound :
      (visit : Value → List Value → Visit (Option Value))
      → IsSound visit
      → (first : Option Value) (xs seen : List Value) (a : Value) (t : List Value)
      → phi_origin ir visit first xs seen ≡ some (some a, t)
      → (first ≡ some a) ⊎ SomeDerives a xs
  unfolding phi_origin
  phi_origin_sound visit ok first [] seen a t e = inl (ground arith)
  phi_origin_sound visit ok first (x ∷ xs) seen a t e =
      let (r, now, later) = >>=-eq-some (visit x seen) _ e in
      go first r now (phi_origin_sound visit ok (or_else first r.0) xs r.1 a t later)
    where
      go :
          (first : Option Value) (r : Option Value × List Value)
          → visit x seen ≡ some r
          → (or_else first r.0 ≡ some a) ⊎ SomeDerives a xs
          → (first ≡ some a) ⊎ SomeDerives a (x ∷ xs)
      go first r now (inr more) = inr (SomeDerives-cons a x xs more)
      go none r now (inl here) = inr (
          SomeDerives-head a x xs
            (ok x seen a r.1 (now ∙ ap (λ (o : Option Value). some (o, r.1)) here)))
      go (some b) r now (inl here) = inl here

  module _ (visit : Value → List Value → Visit (Option Value)) (ok : IsSound visit) where
    -- One store of the loop, given the rest of the loop.
    module _ (us seen : List Value) (a : Value) (t : List Value)
        (rest : (s : List Value)
          → stored_origin ir visit us s ≡ some (some a, t)
          → SomeDerives a (stored_values ir us)) where
      later :
          (w : Value) (o : Option Value) (s : List Value)
          → visit w seen ≡ some (o, s)
          → (elim o [ none ↦ stored_origin ir visit us s | some b ↦ some (some b, s) ])
            ≡ some (some a, t)
          → SomeDerives a (w ∷ stored_values ir us)
      later w none s now e = SomeDerives-cons a w _ (rest s e)
      later w (some b) s now e = SomeDerives-head a w _ (ok w seen a s (now ∙ ground arith))

      direct :
          (w : Value)
          → ir.strip_pointer_casts w ≡ w
          → (b : Bool) → is_pointer_argument ir w ≡ b
          → (if b
              then some (some w, seen)
              else (visit w seen >>= λ r. elim r.0 [
                | none ↦ stored_origin ir visit us r.1
                | some c ↦ some (some c, r.1)
              ]))
            ≡ some (some a, t)
          → SomeDerives a (w ∷ stored_values ir us)
      direct w same true arg e =
          let q : w ≡ a = ground arith in
          SomeDerives-head a w _ (parameter (same ∙ q) (rw (← q) arg))
      direct w same false arg e =
          let (r, now, after) = >>=-eq-some (visit w seen) _ e in later w r.0 r.1 now after

    stored_origin_sound :
        (us seen : List Value) (a : Value) (t : List Value)
        → stored_origin ir visit us seen ≡ some (some a, t)
        → SomeDerives a (stored_values ir us)
    unfolding stored_origin
    stored_origin_sound [] seen a t e = cc
    stored_origin_sound (u ∷ us) seen a t e = elim (Option-cases (as_store (ir.kind u))) [
      | inl no_store ↦
          rw (no_store, stored_values)
            (stored_origin_sound us seen a t (rw (no_store, stored_origin) at e))
      | inr (st, is_store) ↦
          rw (is_store, stored_values)
            (direct us seen a t (λ s e'. stored_origin_sound us s a t e')
              (ir.strip_pointer_casts st.value) (strip_idem st.value)
              (is_pointer_argument ir (ir.strip_pointer_casts st.value)) refl
              (rw (is_store, stored_origin) at e))
    ]

    origin_case_sound :
        (v : Value) (seen : List Value) (k : Kind) (a : Value) (t : List Value)
        → origin_case ir visit v seen k ≡ some (some a, t)
        → ((v ≡ a) × ((is_argument k && ir.is_pointer_ty v) ≡ true)) ⊎ SomeDerives a (feeds ir k)
    unfolding origin_case
    origin_case_sound v seen (phi_node xs) a t e =
        elim (phi_origin_sound visit ok none xs seen a t e) [
          | inl absent ↦ cc
          | inr more ↦ inr more
        ]
    origin_case_sound v seen (gep_inst base _ _) a t e =
        inr (SomeDerives-head a base [] (ok base seen a t e))
    origin_case_sound v seen (load_inst p) a t e = inr (loaded (is_alloca (ir.kind from)) e)
      where
        from : Value
        from = ir.strip_pointer_casts p

        loaded :
            (b : Bool)
            → (if b then stored_origin ir visit (ir.users from) seen else visit from seen)
              ≡ some (some a, t)
            → SomeDerives a (if b then stored_values ir (ir.users from) else from ∷ [])
        loaded true e' = stored_origin_sound (ir.users from) seen a t e'
        loaded false e' = SomeDerives-head a from [] (ok from seen a t e')
    origin_case_sound v seen (argument i) a t e = inl (ground arith)
    origin_case_sound v seen _ a t e = cc

  visit_origin-IsSound : (n : ℕ) → IsSound (visit_origin ir n)
  unfolding visit_origin
  visit_origin-IsSound zero x seen a t e = cc
  visit_origin-IsSound (suc n) x seen a t e = elim (Bool-cases (contains x seen)) [
    | inl old ↦ cc (rw old at e)
    | inr new ↦ traced (
        origin_case_sound (visit_origin ir n) (visit_origin-IsSound n) w (x ∷ seen) (ir.kind w) a t
          (rw new at e))
  ]
    where
      w : Value
      w = ir.strip_pointer_casts x

      traced :
          ((w ≡ a) × (is_pointer_argument ir w ≡ true)) ⊎ SomeDerives a (feeds ir (ir.kind w))
          → Derives ir a x
      traced (inl (same, arg)) = parameter same (rw (← same) arg)
      traced (inr (y, m, d)) = step m d

  -- A parameter that the search answers is a pointer parameter that a chain leads to.
  pub origin_sound : (v a : Value) → get_pointer_parameter_origin ir v ≡ some a → Derives ir a v
  unfolding get_pointer_parameter_origin
  origin_sound v a e = go (visit_origin ir (enough ir) v []) refl e
    where
      go :
          (o : Visit (Option Value))
          → visit_origin ir (enough ir) v [] ≡ o
          → (elim o [ none ↦ none | some r ↦ r.0 ]) ≡ some a
          → Derives ir a v
      go none h e' = cc
      go (some (o, t)) h e' = visit_origin-IsSound (enough ir) v [] a t (h ∙ ground arith)
