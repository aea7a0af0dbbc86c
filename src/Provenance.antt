-- ===== src/Provenance.antt =====
-- Where a pointer comes from: `derivesFromPointerParameter`, `extractStructFieldIndices` and
-- `getPointerParameterOrigin` (passes/TaintTrackerPass/TaintTrackerPass.cpp). Each recursion
-- takes fuel and answers `none` where it runs out; the set `Visited`, which the source shares
-- by pointer, is passed along.
pub mod Ends
pub mod Derives
pub mod Complete
pub mod Inside
use linux_analysis.Prelude.{
  ℕ, zero, suc, ℤ, ◌+◌, Bool, true, false, ◌&&◌, ◌||◌, Option, none, some, List, [], ◌∷◌, ◌++◌,
  contains, length, leb, get_last?, if◌then◌else◌,
}
use linux_analysis.Llvm.{
  Ir, Value, Kind, load_inst, gep_inst, phi_node, argument, is_argument, is_alloca, as_store,
  as_constant_int,
}

infixl 5 ◌>>=◌
abbrev pub ◌>>=◌ {ℓ κ} : {A : Type ℓ} {B : Type κ} → Option A → (A → Option B) → Option B
none >>= f = none
some a >>= f = f a

-- `isa<Argument>(V) && V->getType()->isPointerTy()`.
abbrev pub is_pointer_argument : Ir → Value → Bool
is_pointer_argument ir v = is_argument (ir.kind v) && ir.is_pointer_ty v

abbrev pub or_else : Option Value → Option Value → Option Value
or_else none b = b
or_else (some a) b = some a

abbrev pub is_empty {ℓ} : {A : Type ℓ} → List A → Bool
is_empty [] = true
is_empty (_ ∷ _) = false

-- A result, and the set of visited values after the call.
abbrev pub Visit {ℓ} : Type ℓ → Type ℓ
Visit A = Option (A × List Value)

module _ (ir : Ir) where
  -- Is some value that a user of the alloca stores a pointer parameter?
  stores_parameter : List Value → Bool
  stores_parameter [] = false
  stores_parameter (u ∷ us) =
      elim (as_store (ir.kind u)) [ some st ↦ is_pointer_argument ir st.value | none ↦ false ]
      || stores_parameter us

  derives_case : (Value → Option Bool) → Value → Kind → Option Bool
  unfolding stores_parameter
  derives_case visit v (gep_inst base t is) = visit base
  derives_case visit v (load_inst p) = some (is_alloca (ir.kind p) && stores_parameter (ir.users p))
  derives_case visit v _ = some false

  unfoldable pub derives_from_pointer_parameter : ℕ → Value → Option Bool
  unfolding derives_case
  derives_from_pointer_parameter zero v = none
  derives_from_pointer_parameter (suc fuel) v =
      let w = ir.strip_pointer_casts v in
      let rest = derives_case (derives_from_pointer_parameter fuel) w (ir.kind w) in
      if is_pointer_argument ir w then some true else rest

  -- The last index of a GEP with at least two, if it is constant.
  unfoldable pub last_field : List Value → List ℤ
  last_field is =
      if leb 2 (length is)
      then elim (get_last? is) [
        | none ↦ []
        | some i ↦ elim (as_constant_int (ir.kind i)) [ some c ↦ c ∷ [] | none ↦ [] ]
      ]
      else []

  -- The stores to the alloca: the first stored value that has indices decides.
  pub stored_indices :
      (Value → List Value → Visit (List ℤ)) → List Value → List Value → Visit (List ℤ)
  stored_indices visit [] seen = some ([], seen)
  stored_indices visit (u ∷ us) seen =
      let rest = stored_indices visit us in
      elim (as_store (ir.kind u)) [
        | some st ↦ visit (ir.strip_pointer_casts st.value) seen >>= λ r.
            if is_empty r.0 then rest r.1 else some (r.0, r.1)
        | none ↦ rest seen
      ]

  pub indices_case : (Value → List Value → Visit (List ℤ)) → List Value → Kind → Visit (List ℤ)
  unfolding stored_indices last_field
  indices_case visit seen (gep_inst base t is) =
      visit base seen >>= λ r. some (r.0 ++ last_field is, r.1)
  indices_case visit seen (load_inst p) =
      let stored = stored_indices visit (ir.users p) seen in
      let loaded = visit p seen in if is_alloca (ir.kind p) then stored else loaded
  indices_case visit seen _ = some ([], seen)

  pub visit_indices : ℕ → Value → List Value → Visit (List ℤ)
  unfolding indices_case
  visit_indices zero v seen = none
  visit_indices (suc fuel) v seen =
      let rest = indices_case (visit_indices fuel) (v ∷ seen) (ir.kind v) in
      if contains v seen then some ([], seen) else rest

  -- The incoming values of a PHI are all visited; the first parameter found is the answer.
  pub phi_origin :
      (Value → List Value → Visit (Option Value))
      → Option Value
      → List Value
      → List Value
      → Visit (Option Value)
  phi_origin visit first [] seen = some (first, seen)
  phi_origin visit first (x ∷ xs) seen =
      visit x seen >>= λ r. phi_origin visit (or_else first r.0) xs r.1

  -- The stores to the alloca: the first stored value with an origin decides.
  pub stored_origin :
      (Value → List Value → Visit (Option Value)) → List Value → List Value → Visit (Option Value)
  stored_origin visit [] seen = some (none, seen)
  stored_origin visit (u ∷ us) seen =
      let rest = stored_origin visit us in
      elim (as_store (ir.kind u)) [
        | some st ↦
            let stored = ir.strip_pointer_casts st.value in
            if is_pointer_argument ir stored
            then some (some stored, seen)
            else (visit stored seen >>= λ r. elim r.0 [
              | none ↦ rest r.1
              | some a ↦ some (some a, r.1)
            ])
        | none ↦ rest seen
      ]

  pub origin_case :
      (Value → List Value → Visit (Option Value)) → Value → List Value → Kind → Visit (Option Value)
  unfolding phi_origin stored_origin
  origin_case visit v seen (argument _) = some (if ir.is_pointer_ty v then some v else none, seen)
  origin_case visit v seen (phi_node xs) = phi_origin visit none xs seen
  origin_case visit v seen (gep_inst base t is) = visit base seen
  origin_case visit v seen (load_inst p) =
      let from = ir.strip_pointer_casts p in
      let stored = stored_origin visit (ir.users from) seen in
      let loaded = visit from seen in if is_alloca (ir.kind from) then stored else loaded
  origin_case visit v seen _ = some (none, seen)

  pub visit_origin : ℕ → Value → List Value → Visit (Option Value)
  unfolding origin_case
  visit_origin zero v seen = none
  visit_origin (suc fuel) v seen =
      let w = ir.strip_pointer_casts v in
      let rest = origin_case (visit_origin fuel) w (v ∷ seen) (ir.kind w) in
      if contains v seen then some (none, seen) else rest

  -- The calls that the rest of the pass makes, with an empty `Visited`. One unit of fuel for each
  -- value is enough, so the defaults for exhausted fuel are never met in a module.
  abbrev pub enough : ℕ
  enough = length ir.values + 1

  unfoldable pub extract_struct_field_indices : Value → List ℤ
  unfolding visit_indices
  extract_struct_field_indices v = elim (visit_indices enough v []) [ none ↦ [] | some r ↦ r.0 ]

  unfoldable pub get_pointer_parameter_origin : Value → Option Value
  unfolding visit_origin
  get_pointer_parameter_origin v = elim (visit_origin enough v []) [ none ↦ none | some r ↦ r.0 ]
