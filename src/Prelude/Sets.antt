-- ===== src/Prelude/Sets.antt =====
-- Sets of addresses (`DenseSet`) as lists without repetition, and sorting by address.
use Prim.Native.Nat.{ℕ, ◌+◌, ◌≤◌, ◌<◌}
use mathlib.Core.Path.{◌≡◌, refl}
use mathlib.Core.Bool.{Bool, true, false, ◌||◌}
use mathlib.Core.List.{List, [], ◌∷◌, ◌++◌, foldl}
use native.Mathlib.Omega.{arith}
use mathlib.Core.Logic.{inl, inr}
use linux_analysis.Prelude.Tests.{leb, ◌==◌, if◌then◌else◌, Bool-cases}
use linux_analysis.Prelude.Lists.{length}

-- `set.count(x)`.
abbrev pub contains : ℕ → List ℕ → Bool
contains x [] = false
contains x (y ∷ ys) = x == y || contains x ys

infix 40 ◌∈◌ ◌⊆◌
abbrev pub ◌∈◌ : ℕ → List ℕ → Type 0
x ∈ xs = contains x xs ≡ true

abbrev pub ◌⊆◌ : List ℕ → List ℕ → Type 0
xs ⊆ ys = (x : ℕ) → x ∈ xs → x ∈ ys

-- `set.insert(x)`.
unfoldable pub insert : ℕ → List ℕ → List ℕ
insert x xs = if contains x xs then xs else x ∷ xs

pub contains-insert : (y x : ℕ) (xs : List ℕ) → contains y (insert x xs) ≡ (y == x || contains y xs)
unfolding insert
contains-insert y x xs = ground arith

pub insert_new : (x : ℕ) (xs : List ℕ) → contains x xs ≡ false → insert x xs ≡ x ∷ xs
unfolding insert
insert_new x xs e = rw e

pub insert_old : (x : ℕ) (xs : List ℕ) → x ∈ xs → insert x xs ≡ xs
unfolding insert
insert_old x xs e = rw e

pub contains-append :
    (x : ℕ) (xs ys : List ℕ) → contains x (xs ++ ys) ≡ (contains x xs || contains x ys)
contains-append x [] ys = refl
contains-append x (z ∷ xs) ys = ground (arith, contains-append x xs ys)

-- `llvm::sort` with `std::less` on pointers.
insert_sorted : ℕ → List ℕ → List ℕ
insert_sorted x [] = x ∷ []
insert_sorted x (y ∷ ys) = if leb x y then x ∷ y ∷ ys else y ∷ insert_sorted x ys

unfoldable pub sort : List ℕ → List ℕ
unfolding insert_sorted
sort [] = []
sort (x ∷ xs) = insert_sorted x (sort xs)

contains-insert_sorted :
    (y x : ℕ) (xs : List ℕ) → contains y (insert_sorted x xs) ≡ (y == x || contains y xs)
unfolding insert_sorted
contains-insert_sorted y x [] = refl
contains-insert_sorted y x (z ∷ zs) = ground (arith, contains-insert_sorted y x zs)

pub contains-sort : (y : ℕ) (xs : List ℕ) → contains y (sort xs) ≡ contains y xs
unfolding sort
contains-sort y [] = refl
contains-sort y (x ∷ xs) = ground (arith, contains-insert_sorted y x (sort xs), contains-sort y xs)

-- How many of the elements of `all` are not in `set`: what is left to discover.
unfoldable pub missing : List ℕ → List ℕ → ℕ
missing [] set = 0
missing (x ∷ all) set = (if contains x set then 0 else 1) + missing all set

pub missing_mono : (all a b : List ℕ) → a ⊆ b → missing all b ≤ missing all a
unfolding missing
missing_mono [] a b h = omega arith
missing_mono (x ∷ all) a b h = ground (arith, h x, missing_mono all a b h)

pub missing-cons :
    (all set : List ℕ) (x : ℕ)
    → x ∈ all
    → contains x set ≡ false
    → missing all (x ∷ set) < missing all set
unfolding missing
missing-cons [] set x h e = ground arith
missing-cons (y ∷ all) set x h e =
    ground (arith, missing-cons all set x, missing_mono all set (x ∷ set) (λ z m. ground arith))

pub missing-le : (all set : List ℕ) → missing all set ≤ length all
unfolding missing
missing-le [] set = omega arith
missing-le (x ∷ all) set = ground (arith, missing-le all set)

-- A relation that each step of a loop keeps holds between the ends of the loop.
pub foldl_steps {ℓ κ} :
    {A : Type ℓ} (R : A → A → Type κ)
    → ((a : A) → R a a)
    → ((a b c : A) → R a b → R b c → R a c)
    → (step : A → ℕ → A) (xs : List ℕ) → ((a : A) (x : ℕ) → x ∈ xs → R a (step a x))
    → (a : A) → R a (foldl step a xs)
foldl_steps R still trans step [] ok a = still a
foldl_steps R still trans step (x ∷ xs) ok a =
    trans a (step a x) _ (ok a x (ground arith))
      (foldl_steps R still trans step xs (λ b y m. ok b y (ground arith)) (step a x))

-- What the step at one element brings about, and all steps keep, holds at the end of the loop.
pub foldl_reaches {ℓ κ} :
    {A : Type ℓ} (P : A → Type κ) (step : A → ℕ → A) (xs : List ℕ) (x : ℕ)
    → x ∈ xs
    → ((a : A) → P (step a x))
    → ((a : A) (y : ℕ) → y ∈ xs → P a → P (step a y))
    → (a : A) → P (foldl step a xs)
foldl_reaches P step [] x m reach keep a = cc
foldl_reaches P step (y ∷ xs) x m reach keep a = elim (Bool-cases (x == y)) [
  | inr other ↦
      foldl_reaches P step xs x (ground arith) reach (λ b z h. keep b z (ground arith)) (step a y)
  | inl same ↦
      let q : x ≡ y = ground arith in
      foldl_steps (λ b c. P b → P c) (λ b p. p) (λ b c d f g p. g (f p)) step xs
        (λ b z h. keep b z (ground arith)) (step a y) (rw (← q) (reach a))
]
