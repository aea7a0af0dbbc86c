-- ===== src/Tests/Texts.antt =====
-- Concrete operations on texts in the place of LLVM's, and the theorems on the pipeline text there.
use linux_analysis.Prelude.{
  ℕ, ◌+◌, ◌-◌, ◌*◌, ℤ, pos, leb, ◌≡◌, refl, ap, true, false, ◌&&◌, Option, none, some, List, [],
  ◌∷◌, ◌++◌, ◌==◌, ==_refl, if◌then◌else◌, arith,
}
use mathlib.Core.List.{reverse, reverse-append, reverse-reverse}
use linux_analysis.Llvm.{Text}
use linux_analysis.Plugin.{StringRefs, parameters, parse_pipeline}
use linux_analysis.Plugin.Texts.{join, none_has, IsStringRefs}
use linux_analysis.Plugin.RoundTrip.{pipeline, parse_pipeline-pipeline}
use linux_analysis.Plugin.Errors.{parameters_errors}
use linux_analysis.Tests.Sample.{sample_config}

abbrev front : Text → Text → Option Text
front [] t = some t
front (c ∷ p) [] = none
front (c ∷ p) (d ∷ t) = if c == d then front p t else none

front_lem : (p t : Text) → front p (p ++ t) ≡ some t
front_lem [] t = refl
front_lem (c ∷ p) t = rw (==_refl c) (front_lem p t)

abbrev back : Text → Text → Option Text
back p t = elim (front (reverse p) (reverse t)) [ none ↦ none | some u ↦ some (reverse u) ]

back_lem : (p t : Text) → back p (t ++ p) ≡ some t
back_lem p t =
    rw (back, reverse-append t p, front_lem (reverse p) (reverse t)) (ap some (reverse-reverse t))

abbrev put_first : ℕ → List Text → List Text
put_first x [] = (x ∷ []) ∷ []
put_first x (t ∷ ts) = (x ∷ t) ∷ ts

abbrev split : Text → ℕ → List Text
split [] c = [] ∷ []
split (x ∷ s) c = let rest = split s c in if x == c then [] ∷ rest else put_first x rest

split-join :
    (c : ℕ) (ts : List Text) (t : Text)
    → none_has c (t ∷ ts) ≡ true
    → split (join c t ts) c ≡ t ∷ ts
unfolding join
split-join c [] [] h = refl
split-join c (u ∷ us) [] h = rw (==_refl c) (ap (λ (ts : List Text). [] ∷ ts) (split-join c us u h))
split-join c [] (x ∷ t) h =
    let other : (x == c) ≡ false = ground arith in rw (other, split-join c [] t (ground arith)) refl
split-join c (u ∷ us) (x ∷ t) h =
    let other : (x == c) ≡ false = ground arith in
    rw (other, split-join c (u ∷ us) t (ground arith)) refl

abbrev digits : ℕ → Text → Option ℕ
digits n [] = some n
digits n (c ∷ t) =
    let rest = digits (10 * n + (c - b'0')) t in if leb b'0' c && leb c b'9' then rest else none

abbrev unsigned : Text → Option ℕ
unsigned [] = none
unsigned (c ∷ t) = digits 0 (c ∷ t)

abbrev signed : Text → Option ℤ
signed t = elim (unsigned t) [ none ↦ none | some n ↦ some (pos n) ]

abbrev texts : StringRefs
texts = record {
  consume_front = front;
  consume_back = back;
  split = split;
  get_as_signed = signed;
  get_as_unsigned = unsigned;
}

texts-IsStringRefs : IsStringRefs texts
texts-IsStringRefs = record {
  front = front_lem;
  back = back_lem;
  pieces = λ c t ts. split-join c ts t;
}

-- taint-tracker<f;;8;false;true;false;true;1;false>
abbrev eight : Text
eight = b'8' ∷ []

abbrev one : Text
one = b'1' ∷ []

parse_pipeline-pipeline_example :
    parse_pipeline texts (pipeline sample_config eight one)
    ≡ some (record { config = sample_config; bad_constant = false; bad_occurrence = false })
parse_pipeline-pipeline_example =
    parse_pipeline-pipeline texts texts-IsStringRefs sample_config eight one refl refl refl refl
      refl refl

abbrev word : Text
word = b'x' ∷ []

parameters_errors_example :
    (signed word ≡ none
      → parameters texts ([] ∷ [] ∷ word ∷ [])
        ≡ record (parameters texts ([] ∷ [] ∷ [] ∷ [])) { bad_constant = true })
    × (unsigned word ≡ none
        → parameters texts ([] ∷ [] ∷ eight ∷ one ∷ [] ∷ [] ∷ [] ∷ word ∷ [])
          ≡ record (parameters texts ([] ∷ [] ∷ eight ∷ one ∷ [] ∷ [] ∷ [] ∷ [] ∷ [])) {
            bad_occurrence = true;
          })
parameters_errors_example = parameters_errors texts [] [] eight one [] [] [] word [] refl
