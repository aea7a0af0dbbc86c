-- ===== src/Names.antt =====
-- How the pass names values and places in its report: `getValueName` and `getDebugLoc`
-- (passes/TaintTrackerPass/TaintTrackerPass.cpp). Texts are lists of character codes.
pub mod Laws
use linux_analysis.Prelude.{
  ℕ, zero, suc, ◌+◌, ◌-◌, Bool, true, false, not, ◌&&◌, Option, none, some, List, [], ◌∷◌, ◌++◌,
  get_elem?, take, drop, leb, ◌==◌, if◌then◌else◌,
}
use linux_analysis.Llvm.{Ir, Value, Text, DebugLoc}
use linux_analysis.State.{Config}

-- Does the text begin with the pattern?
unfoldable pub starts_with : Text → Text → Bool
starts_with s [] = true
starts_with [] (p ∷ ps) = false
starts_with (c ∷ s) (p ∷ ps) = c == p && starts_with s ps

-- `std::string::find`: the position of the first occurrence.
unfoldable pub find : Text → Text → Option ℕ
unfolding starts_with
find pattern [] = if starts_with [] pattern then some 0 else none
find pattern (c ∷ s) =
    let rest = find pattern s in
    if starts_with (c ∷ s) pattern
    then some 0
    else elim rest [ none ↦ none | some n ↦ some (suc n) ]

abbrev is_char : ℕ → Option ℕ → Bool
is_char c none = false
is_char c (some d) = d == c

-- " !dbg !"
abbrev pub debug_marker : Text
debug_marker = b' ' ∷ b'!' ∷ b'd' ∷ b'b' ∷ b'g' ∷ b' ' ∷ b'!' ∷ []

abbrev pub newline : ℕ
newline = 10

-- Where the erased part begins: two characters before the marker if they are ", ".
unfoldable pub erase_start : Text → ℕ → ℕ
erase_start s pos =
    if leb 2 pos && is_char b',' (get_elem? s (pos - 2)) && is_char b' ' (get_elem? s (pos - 1))
    then pos - 2
    else pos

-- Erase from `start` to the end of the line that `pos` stands on.
unfoldable pub erase_line : Text → ℕ → ℕ → Text
unfolding find
erase_line s pos start = elim (find (newline ∷ []) (drop pos s)) [
  | none ↦ take start s
  | some n ↦ take start s ++ drop (pos + n) s
]

-- The printed text without its debug location, which is taken to run to the end of its line.
unfoldable pub strip_debug : Text → Text
unfolding find erase_start erase_line
strip_debug s = elim (find debug_marker s) [
  | none ↦ s
  | some pos ↦ erase_line s pos (erase_start s pos)
]

unfoldable pub get_value_name : Ir → Value → Text
unfolding strip_debug
get_value_name ir v = strip_debug (ir.printed v)

-- A location with a line that is not 0.
abbrev pub valid_location : Option DebugLoc → Option DebugLoc
valid_location none = none
valid_location (some l) = if l.line == 0 then none else some l

-- `DL && DL->getLine() != 0`.
abbrev pub valid_loc : Ir → Value → Option DebugLoc
valid_loc ir v = valid_location (ir.debug_loc v)

-- The loop over the block: skip to the instruction, then look at up to 10 more.
unfoldable pub look_ahead : Ir → Value → Bool → ℕ → List Value → Option DebugLoc
look_ahead ir i found n [] = none
look_ahead ir i false n (j ∷ js) = look_ahead ir i (j == i) n js
look_ahead ir i true n (j ∷ js) =
    let rest = look_ahead ir i true (n + 1) js in
    if leb 10 n then none else elim (valid_loc ir j) [ some l ↦ some l | none ↦ rest ]

-- A number is printed by `raw_ostream`, which is LLVM's.
module _ (decimal : ℕ → Text) where
  -- " <file:line:column>"
  abbrev pub location_text : DebugLoc → Text
  location_text l =
      b' '
      ∷ b'<'
      ∷ (l.filename
          ++ b':'
            ∷ (decimal l.line
                ++ ((if not (l.column == 0) then b':' ∷ decimal l.column else []) ++ b'>' ∷ [])))

  -- " <UNKNOWN>"
  abbrev pub unknown_text : Text
  unknown_text = b' ' ∷ b'<' ∷ b'U' ∷ b'N' ∷ b'K' ∷ b'N' ∷ b'O' ∷ b'W' ∷ b'N' ∷ b'>' ∷ []

  -- " (approx)"
  abbrev pub approx_text : Text
  approx_text = b' ' ∷ b'(' ∷ b'a' ∷ b'p' ∷ b'p' ∷ b'r' ∷ b'o' ∷ b'x' ∷ b')' ∷ []

  unfoldable pub get_debug_loc : Ir → Config → Value → Text
  unfolding look_ahead
  get_debug_loc ir cfg i = elim (valid_loc ir i) [
    | some l ↦ location_text l
    | none ↦
        if not cfg.approx_debug_info
        then unknown_text
        else elim (look_ahead ir i false 0 (ir.instructions (ir.block_of i))) [
          | some l ↦ location_text l ++ approx_text
          | none ↦ unknown_text
        ]
  ]
