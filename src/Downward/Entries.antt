-- ===== src/Downward/Entries.antt =====
-- Sorting the entries of a map by their keys loses none.
use linux_analysis.Prelude.{
  ℕ, ◌≡◌, refl, ◌⊎◌, inl, inr, some, [], ◌∷◌, leb, Map, lookup, ◌==◌, some_inj, Bool-cases, arith,
}
use linux_analysis.Downward.{insert_entry, sort_entries}

-- The entry stands in the map, under its key or behind another with it.
abbrev pub HasEntry : {A : Type 0} → ℕ → A → Map A → Type 0
HasEntry k v [] = ⊥
HasEntry k v (e ∷ m) = (e ≡ (k, v)) ⊎ HasEntry k v m

module _ {A : Type 0} (k : ℕ) (v : A) where
  pub HasEntry-lookup : (m : Map A) → lookup k m ≡ some v → HasEntry k v m
  unfolding lookup
  HasEntry-lookup [] e = cc
  HasEntry-lookup ((j, w) ∷ m) e = elim (Bool-cases (k == j)) [
    | inl same ↦
        let q : j ≡ k = ground arith in
        let here : w ≡ v = some_inj (rw same at e) in inl (rw (q, here) refl)
    | inr other ↦ inr (HasEntry-lookup m (rw other at e))
  ]

  HasEntry-insert_entry :
      (e : ℕ × A) (m : Map A) → (e ≡ (k, v)) ⊎ HasEntry k v m → HasEntry k v (insert_entry e m)
  unfolding insert_entry
  HasEntry-insert_entry e [] h = h
  HasEntry-insert_entry e (f ∷ m) h = elim (Bool-cases (leb e.0 f.0)) [
    | inl before ↦ rw before h
    | inr after ↦ rw after (elim h [
      | inl here ↦ inr (HasEntry-insert_entry e m (inl here))
      | inr (inl next) ↦ inl next
      | inr (inr later) ↦ inr (HasEntry-insert_entry e m (inr later))
    ])
  ]

  pub HasEntry-sort_entries : (m : Map A) → HasEntry k v m → HasEntry k v (sort_entries m)
  unfolding sort_entries
  HasEntry-sort_entries [] h = h
  HasEntry-sort_entries (e ∷ m) (inl here) = HasEntry-insert_entry e (sort_entries m) (inl here)
  HasEntry-sort_entries (e ∷ m) (inr later) =
      HasEntry-insert_entry e (sort_entries m) (inr (HasEntry-sort_entries m later))
