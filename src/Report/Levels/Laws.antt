-- ===== src/Report/Levels/Laws.antt =====
-- The level that the report is about is the largest of a tainted value.
use linux_analysis.Prelude.{
  ℤ, ◌≡◌, refl, ◌⊎◌, inl, inr, false, Option, none, some, [], ◌∷◌, foldl, Map, contains, ◌∈◌, ◌≤ℤ◌,
  ltb_ℤ, Bool-cases, arith,
}
use linux_analysis.Llvm.{Value}
use linux_analysis.State.{State}
use linux_analysis.Downward.Entries.{HasEntry}
use linux_analysis.Report.Levels.{raise_max, visit_level, max_level}

-- At least as large as the level so far.
abbrev Above : Option ℤ → ℤ → Type 0
Above none m = Unit {0}
Above (some a) m = a ≤ℤ m

module _ (s : State) where
  -- Some tainted value of the entries has the level.
  abbrev Attained : ℤ → Map ℤ → Type 0
  Attained m es = (v : Value) × HasEntry v m es × (v ∈ s.tainted_values)

  abbrev Bounded : ℤ → Map ℤ → Type 0
  Bounded m es = (v : Value) (l : ℤ) → HasEntry v l es → v ∈ s.tainted_values → l ≤ℤ m

  raise_max-ne-none : (o : Option ℤ) (l : ℤ) → raise_max o l ≡ none → ⊥
  unfolding raise_max
  raise_max-ne-none none l e = cc
  raise_max-ne-none (some a) l e = elim (Bool-cases (ltb_ℤ a l)) [
    | inl b ↦ cc (rw b at e)
    | inr b ↦ cc (rw b at e)
  ]

  raise_max-Above : (o : Option ℤ) (l m : ℤ) → Above (raise_max o l) m → Above o m × (l ≤ℤ m)
  unfolding raise_max
  raise_max-Above none l m h = (tt, h)
  raise_max-Above (some a) l m h = elim (Bool-cases (ltb_ℤ a l)) [
    | inl b ↦ let h' : l ≤ℤ m = rw b at h in (ground (arith, h'), h')
    | inr b ↦ let h' : a ≤ℤ m = rw b at h in (h', ground (arith, h'))
  ]

  raise_max-or : (o : Option ℤ) (l : ℤ) → (raise_max o l ≡ o) ⊎ (raise_max o l ≡ some l)
  unfolding raise_max
  raise_max-or none l = inr refl
  raise_max-or (some a) l = elim (Bool-cases (ltb_ℤ a l)) [
    | inl b ↦ inr (rw b refl)
    | inr b ↦ inl (rw b refl)
  ]

  upper :
      (es : Map ℤ) (o : Option ℤ) (m : ℤ)
      → foldl (visit_level s) o es ≡ some m
      → Above o m × Bounded m es
  unfolding visit_level
  upper [] o m e = (rw e (omega arith), λ v l h. elim h [ ])
  upper ((v, l) ∷ es) o m e = elim (Bool-cases (contains v s.tainted_values)) [
    | inr out ↦
        let (above, bound) = upper es o m (rw out at e) in
        (
          above,
          λ w k h t. elim h [
            | inl here ↦ let q : v ≡ w = cc in let gone = rw q at out in cc
            | inr later ↦ bound w k later t
          ],
        )
    | inl tainted ↦
        let (above, bound) = upper es (raise_max o l) m (rw tainted at e) in
        let (old, new) = raise_max-Above o l m above in
        (
          old,
          λ w k h t. elim h [
            | inl here ↦ let q : l ≡ k = cc in rw (← q) new
            | inr later ↦ bound w k later t
          ],
        )
  ]

  attained :
      (es : Map ℤ) (o : Option ℤ) (m : ℤ)
      → foldl (visit_level s) o es ≡ some m
      → (o ≡ some m) ⊎ Attained m es
  unfolding visit_level
  attained [] o m e = inl e
  attained ((v, l) ∷ es) o m e = elim (Bool-cases (contains v s.tainted_values)) [
    | inr out ↦ elim (attained es o m (rw out at e)) [
      | inl start ↦ inl start
      | inr (w, h, t) ↦ inr (w, inr h, t)
    ]
    | inl tainted ↦ elim (attained es (raise_max o l) m (rw tainted at e)) [
      | inr (w, h, t) ↦ inr (w, inr h, t)
      | inl start ↦ elim (raise_max-or o l) [
        | inl same ↦ inl (cc)
        | inr raised ↦ let q : l ≡ m = cc in inr (v, inl (rw q refl), tainted)
      ]
    ]
  ]

  untainted :
      (es : Map ℤ) (o : Option ℤ)
      → foldl (visit_level s) o es ≡ none
      → (o ≡ none) × ((v : Value) (l : ℤ) → HasEntry v l es → contains v s.tainted_values ≡ false)
  unfolding visit_level
  untainted [] o e = (e, λ v l h. elim h [ ])
  untainted ((v, l) ∷ es) o e = elim (Bool-cases (contains v s.tainted_values)) [
    | inl tainted ↦
        let (gone, _) = untainted es (raise_max o l) (rw tainted at e) in
        absurd (raise_max-ne-none o l gone)
    | inr out ↦
        let (start, rest) = untainted es o (rw out at e) in
        (
          start,
          λ w k h. elim h [
            | inl here ↦ let q : v ≡ w = cc in rw (← q) out
            | inr later ↦ rest w k later
          ],
        )
  ]

-- The largest level is one of a tainted value and no tainted value's level is larger; there is
-- none exactly where no tainted value has a level.
pub max_level_lem :
    (s : State)
    → ((m : ℤ)
        → max_level s ≡ some m
        → ((v : Value) × HasEntry v m s.value_level × (v ∈ s.tainted_values))
          × ((v : Value) (l : ℤ) → HasEntry v l s.value_level → v ∈ s.tainted_values → l ≤ℤ m))
      × (max_level s ≡ none
          → (v : Value) (l : ℤ) → HasEntry v l s.value_level
          → contains v s.tainted_values ≡ false)
unfolding max_level
max_level_lem s = (
  λ m e. (
    elim (attained s s.value_level none m e) [ inl never ↦ cc | inr found ↦ found ],
    (upper s s.value_level none m e).1,
  ),
  λ e. (untainted s s.value_level none e).1,
)
