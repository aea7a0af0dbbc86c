-- ===== src/Prelude/Maps.antt =====
-- Maps from addresses (`DenseMap`) as association lists with one entry for each key.
use Prim.Native.Nat.{ℕ}
use mathlib.Core.Path.{◌≡◌, refl}
use mathlib.Core.Bool.{Bool, true, false}
use mathlib.Core.Option.{Option, none, some}
use mathlib.Core.List.{List, [], ◌∷◌}
use native.Mathlib.Omega.{arith}
use mathlib.Core.Logic.{inl, inr}
use linux_analysis.Prelude.Tests.{◌==◌, if◌then◌else◌, Bool-cases}

abbrev pub Map {ℓ} : Type ℓ → Type ℓ
Map A = List (ℕ × A)

module _ {ℓ} {A : Type ℓ} where
  -- `map.find(k)`.
  unfoldable pub lookup : ℕ → Map A → Option A
  lookup k [] = none
  lookup k ((j, v) ∷ m) = if k == j then some v else lookup k m

  -- `map[k] = v`.
  unfoldable pub put : ℕ → A → Map A → Map A
  put k v [] = (k, v) ∷ []
  put k v ((j, w) ∷ m) = if k == j then (k, v) ∷ m else (j, w) ∷ put k v m

  -- Writing what is there changes nothing.
  pub put_same : (k : ℕ) (v : A) (m : Map A) → lookup k m ≡ some v → put k v m ≡ m
  unfolding lookup put
  put_same k v [] e = cc
  put_same k v ((j, w) ∷ m) e = elim (Bool-cases (k == j)) [
    | inl same ↦
        let q : k ≡ j = ground arith in
        let here : w ≡ v = ground (arith, rw same at e) in rw (same, q, here) refl
    | inr other ↦ rw (other, put_same k v m (rw other at e)) refl
  ]

  pub lookup-put :
      (j k : ℕ) (v : A) (m : Map A) → lookup j (put k v m) ≡ (if j == k then some v else lookup j m)
  unfolding lookup put
  lookup-put j k v [] = refl
  lookup-put j k v ((i, w) ∷ m) = ground (arith, lookup-put j k v m)

abbrev pub is_some {ℓ} : {A : Type ℓ} → Option A → Bool
is_some none = false
is_some (some a) = true
