-- ===== src/Plugin/Texts.antt =====
-- What the callback relies on of `StringRef`, as its documentation has it.
use linux_analysis.Prelude.{ℕ, ◌≡◌, Bool, true, ◌&&◌, not, some, List, [], ◌∷◌, ◌++◌, contains}
use linux_analysis.Llvm.{Text}
use linux_analysis.Plugin.{StringRefs}

-- The texts one behind another, with the separator between them.
unfoldable pub join : ℕ → Text → List Text → Text
join c t [] = t
join c t (u ∷ us) = t ++ c ∷ join c u us

-- No text has the separator.
abbrev pub none_has : ℕ → List Text → Bool
none_has c [] = true
none_has c (t ∷ ts) = not (contains c t) && none_has c ts

pub record IsStringRefs (llvm : StringRefs) : Type 0 where
  pub front : (p t : Text) → llvm.consume_front p (p ++ t) ≡ some t
  pub back : (p t : Text) → llvm.consume_back p (t ++ p) ≡ some t
  pub pieces :
      (c : ℕ) (t : Text) (ts : List Text)
      → none_has c (t ∷ ts) ≡ true
      → llvm.split (join c t ts) c ≡ t ∷ ts
