-- ===== src/Prelude/Distinct.antt =====
-- Lists without repetition.
use Prim.Native.Nat.{ℕ, suc, ◌≤◌}
use mathlib.Core.Path.{◌≡◌, refl}
use mathlib.Core.Logic.{inl, inr}
use mathlib.Core.Bool.{Bool, true, false, not, ◌&&◌, ◌||◌}
use mathlib.Core.List.{List, [], ◌∷◌, ◌++◌}
use native.Mathlib.Omega.{arith}
use linux_analysis.Prelude.Tests.{◌==◌, if◌then◌else◌, Bool-cases, ==_refl}
use linux_analysis.Prelude.Lists.{length}
use linux_analysis.Prelude.Sets.{contains, ◌∈◌, ◌⊆◌}
use linux_analysis.Prelude.Maps.{Map, put}

abbrev pub is_distinct : List ℕ → Bool
is_distinct [] = true
is_distinct (x ∷ xs) = not (contains x xs) && is_distinct xs

pub distinct_before :
    (x : ℕ) (xs ys : List ℕ) → is_distinct (xs ++ x ∷ ys) ≡ true → contains x xs ≡ false
distinct_before x [] ys h = refl
distinct_before x (z ∷ xs) ys h = ground (arith, distinct_before x xs ys, here xs)
  where
    here : (zs : List ℕ) → x ∈ zs ++ x ∷ ys
    here [] = ground (arith, ==_refl x)
    here (w ∷ zs) = ground (arith, here zs)

-- The list without the first occurrence.
remove : ℕ → List ℕ → List ℕ
remove x [] = []
remove x (y ∷ ys) = if x == y then ys else y ∷ remove x ys

length-remove : (x : ℕ) (ys : List ℕ) → x ∈ ys → suc (length (remove x ys)) ≡ length ys
unfolding remove
length-remove x [] m = cc
length-remove x (y ∷ ys) m = ground (arith, length-remove x ys)

mem-remove : (x z : ℕ) (ys : List ℕ) → (z == x) ≡ false → z ∈ ys → z ∈ remove x ys
unfolding remove
mem-remove x z [] e m = m
mem-remove x z (y ∷ ys) e m = ground (arith, mem-remove x z ys)

-- Distinct elements of a list are no more than the list has.
pub distinct-le : (xs ys : List ℕ) → is_distinct xs ≡ true → xs ⊆ ys → length xs ≤ length ys
distinct-le [] ys d h = omega arith
distinct-le (x ∷ xs) ys d h =
    let m : x ∈ ys = h x (ground (arith, ==_refl x)) in
    let rest = distinct-le xs (remove x ys) (ground arith) (λ z hz.
      mem-remove x z ys
        (elim (Bool-cases (z == x)) [
          | inl same ↦ let q : z ≡ x = ground arith in ground (arith, rw q at hz)
          | inr other ↦ other
        ])
        (h z (ground arith))) in
    omega (arith, rest, length-remove x ys m)

abbrev pub keys {ℓ} : {A : Type ℓ} → Map A → List ℕ
keys [] = []
keys ((k, _) ∷ m) = k ∷ keys m

module _ {ℓ} {A : Type ℓ} where
  pub contains-keys-put :
      (g k : ℕ) (v : A) (m : Map A)
      → contains g (keys (put k v m)) ≡ (g == k || contains g (keys m))
  unfolding put
  contains-keys-put g k v [] = refl
  contains-keys-put g k v ((j, w) ∷ m) = ground (arith, contains-keys-put g k v m)

  pub distinct-keys-put :
      (k : ℕ) (v : A) (m : Map A)
      → is_distinct (keys m) ≡ true
      → is_distinct (keys (put k v m)) ≡ true
  unfolding put
  distinct-keys-put k v [] d = refl
  distinct-keys-put k v ((j, w) ∷ m) d =
      ground (arith, distinct-keys-put k v m, contains-keys-put j k v m)

  pub length-keys : (m : Map A) → length (keys m) ≡ length m
  length-keys [] = refl
  length-keys ((k, v) ∷ m) = omega (arith, length-keys m)
