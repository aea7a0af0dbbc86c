-- ===== src/Provenance/Inside.antt =====
-- The chains of `Derives` stay inside the module.
use linux_analysis.Prelude.{◌≡◌, inl, inr, some, List, [], ◌∷◌, ◌∈◌, ◌⊆◌, Bool-cases, Option-cases}
use linux_analysis.Llvm.{
  Ir, Value, Kind, Store, IsModule, as_store, referred, is_alloca, load_inst, gep_inst, phi_node,
}
use linux_analysis.Provenance.{get_pointer_parameter_origin}
use linux_analysis.Provenance.Ends.{as_store-inv, subset_head, subset_tail}
use linux_analysis.Provenance.Complete.{subset_cons}
use linux_analysis.Provenance.Derives.{Derives, parameter, step, stored_values, feeds, origin_sound}

pub subset_none : (ys : List Value) → [] ⊆ ys
subset_none ys x m = cc

module _ (ir : Ir) (is_module : IsModule ir) where
  -- The operands of a store of the module are values of the module.
  pub store-mem :
      (u : Value) (st : Store)
      → u ∈ ir.values
      → as_store (ir.kind u) ≡ some st
      → (st.value ∈ ir.values) × (st.pointer ∈ ir.values)
  store-mem u st m e =
      let sub = rw (as_store-inv (ir.kind u) st e) at (is_module.referred_mem u m) in
      (
        subset_head st.value (st.pointer ∷ []) ir.values sub,
        subset_head st.pointer [] ir.values (subset_tail st.value (st.pointer ∷ []) ir.values sub),
      )

  stored_values-mem : (us : List Value) → us ⊆ ir.values → stored_values ir us ⊆ ir.values
  stored_values-mem [] sub = subset_none ir.values
  stored_values-mem (u ∷ us) sub = elim (Option-cases (as_store (ir.kind u))) [
    | inl e ↦ rw (e, stored_values) (stored_values-mem us (subset_tail u us _ sub))
    | inr (st, e) ↦
        rw (e, stored_values)
          (subset_cons (ir.strip_pointer_casts st.value) _ ir.values
            (is_module.strip_mem st.value (store-mem u st (subset_head u us _ sub) e).0)
            (stored_values-mem us (subset_tail u us _ sub)))
  ]

  feeds-mem : (k : Kind) → referred k ⊆ ir.values → feeds ir k ⊆ ir.values
  feeds-mem (phi_node xs) sub = sub
  feeds-mem (gep_inst base t is) sub = sub
  feeds-mem (load_inst p) sub =
      let from = is_module.strip_mem p (subset_head p [] _ sub) in
      elim (Bool-cases (is_alloca (ir.kind (ir.strip_pointer_casts p)))) [
        | inl local ↦ rw local (stored_values-mem _ (is_module.users_mem _ from))
        | inr other ↦ rw other (subset_cons _ [] ir.values from (subset_none ir.values))
      ]
  feeds-mem _ sub = subset_none ir.values

  Derives-mem : {a v : Value} → Derives ir a v → v ∈ ir.values → a ∈ ir.values
  Derives-mem {v} (parameter e h) m = rw e at (is_module.strip_mem v m)
  Derives-mem {v} (step {w} fed d) m = Derives-mem d (
      feeds-mem (ir.kind (ir.strip_pointer_casts v))
        (is_module.referred_mem _ (is_module.strip_mem v m)) w fed)

  pub origin-mem :
      (v a : Value) → v ∈ ir.values → get_pointer_parameter_origin ir v ≡ some a → a ∈ ir.values
  origin-mem v a m e = Derives-mem (origin_sound ir is_module.strip_idem v a e) m
