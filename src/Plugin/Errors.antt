-- ===== src/Plugin/Errors.antt =====
-- A number that cannot be read.
use linux_analysis.Prelude.{pos, ◌≡◌, refl, true, false, none, List, [], ◌∷◌}
use linux_analysis.Llvm.{Text}
use linux_analysis.Provenance.{is_empty}
use linux_analysis.Plugin.{StringRefs, given, flag, number_or, parameters}
use linux_analysis.Plugin.RoundTrip.{given-some}

module _ (llvm : StringRefs) (function opcode bad : Text) (rest : List Text) where
  bad_constant_lem :
      is_empty bad ≡ false
      → llvm.get_as_signed bad ≡ none
      → parameters llvm (function ∷ opcode ∷ bad ∷ rest)
        ≡ record (parameters llvm (function ∷ opcode ∷ [] ∷ rest)) { bad_constant = true }
  unfolding parameters flag given
  bad_constant_lem present fails =
      let unread : number_or (pos 3600) llvm.get_as_signed
            (given (function ∷ opcode ∷ bad ∷ rest) 2)
          ≡ (pos 3600, true) =
        rw (given-some (function ∷ opcode ∷ bad ∷ rest) 2 bad refl present)
          (rw (fails, number_or) refl) in
      rw unread refl

module _ (llvm : StringRefs) (function opcode constant debug down indirect up bad : Text)
    (rest : List Text) where
  bad_occurrence_lem :
      is_empty bad ≡ false
      → llvm.get_as_unsigned bad ≡ none
      → parameters llvm (function ∷ opcode ∷ constant ∷ debug ∷ down ∷ indirect ∷ up ∷ bad ∷ rest)
        ≡ record (parameters llvm
            (function ∷ opcode ∷ constant ∷ debug ∷ down ∷ indirect ∷ up ∷ [] ∷ rest)) {
              bad_occurrence = true;
            }
  unfolding parameters flag given
  bad_occurrence_lem present fails =
      let ts = function ∷ opcode ∷ constant ∷ debug ∷ down ∷ indirect ∷ up ∷ bad ∷ rest in
      let unread : number_or 1 llvm.get_as_unsigned (given ts 7) ≡ (1, true) =
        rw (given-some ts 7 bad refl present) (rw (fails, number_or) refl) in
      rw unread refl

-- A constant or an occurrence that LLVM cannot read is reported, and has no other effect than an
-- empty field has: its default is taken, and all other parameters stand.
pub parameters_errors :
    (llvm : StringRefs) (function opcode constant debug down indirect up bad : Text)
    (rest : List Text)
    → is_empty bad ≡ false
    → (llvm.get_as_signed bad ≡ none
        → parameters llvm (function ∷ opcode ∷ bad ∷ rest)
          ≡ record (parameters llvm (function ∷ opcode ∷ [] ∷ rest)) { bad_constant = true })
      × (llvm.get_as_unsigned bad ≡ none
          → parameters llvm
              (function ∷ opcode ∷ constant ∷ debug ∷ down ∷ indirect ∷ up ∷ bad ∷ rest)
            ≡ record (parameters llvm
                (function ∷ opcode ∷ constant ∷ debug ∷ down ∷ indirect ∷ up ∷ [] ∷ rest)) {
                  bad_occurrence = true;
                })
parameters_errors llvm function opcode constant debug down indirect up bad rest present = (
  bad_constant_lem llvm function opcode bad rest present,
  bad_occurrence_lem llvm function opcode constant debug down indirect up bad rest present,
)
