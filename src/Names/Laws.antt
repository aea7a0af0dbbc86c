-- ===== src/Names/Laws.antt =====
-- What `getValueName` and `getDebugLoc` answer.
use linux_analysis.Prelude.{
  ℕ, zero, suc, ◌+◌, ◌-◌, ◌≡◌, inl, inr, refl, ap, ◌∙◌, true, false, Option, none, some, List, [],
  ◌∷◌, ◌++◌, get_elem?, take, drop, length, ◌==◌, Bool-cases, Option-cases, if◌then◌else◌, arith,
}
use linux_analysis.Llvm.{Ir, Value, Text, DebugLoc}
use linux_analysis.State.{Config}
use linux_analysis.Names.{
  starts_with, find, is_char, debug_marker, newline, erase_start, erase_line, strip_debug,
  valid_loc, look_ahead, location_text, unknown_text, approx_text, get_debug_loc,
}

take-append : (xs ys : Text) (n : ℕ) → take (length xs + n) (xs ++ ys) ≡ xs ++ take n ys
take-append [] ys n = let e : 0 + n ≡ n = omega arith in rw e
take-append (x ∷ xs) ys n =
    let e : suc (length xs) + n ≡ suc (length xs + n) = omega arith in rw (e, take-append xs ys n)

drop-append : (xs ys : Text) (n : ℕ) → drop (length xs + n) (xs ++ ys) ≡ drop n ys
drop-append [] ys n = let e : 0 + n ≡ n = omega arith in rw e
drop-append (x ∷ xs) ys n =
    let e : suc (length xs) + n ≡ suc (length xs + n) = omega arith in rw (e, drop-append xs ys n)

get_elem?-append : (xs ys : Text) (n : ℕ) → get_elem? (xs ++ ys) (length xs + n) ≡ get_elem? ys n
get_elem?-append [] ys n = let e : 0 + n ≡ n = omega arith in rw e
get_elem?-append (x ∷ xs) ys n =
    let e : suc (length xs) + n ≡ suc (length xs + n) = omega arith in
    rw (e, get_elem?-append xs ys n)

erase_start-comma :
    (before rest : Text)
    → erase_start (before ++ b',' ∷ rest) (length before + 1) ≡ length before + 1
unfolding erase_start
erase_start-comma before rest =
    let e : length before + 1 - 1 ≡ length before + 0 = omega arith in
    let no_space : is_char b' ' (get_elem? (before ++ b',' ∷ rest) (length before + 1 - 1))
        ≡ false =
      rw (e, get_elem?-append before (b',' ∷ rest) 0) in
    ground (arith, no_space)

-- No newline stands in a marker, so none is found where the rest has none.
find-newline-marker :
    (rest : Text)
    → find (newline ∷ []) rest ≡ none
    → find (newline ∷ []) (debug_marker ++ rest) ≡ none
unfolding find starts_with
find-newline-marker rest e = rw e

erase_line-comma :
    (before rest : Text)
    → find (newline ∷ []) rest ≡ none
    → erase_line (before ++ b',' ∷ (debug_marker ++ rest)) (length before + 1) (length before + 1)
      ≡ before ++ b',' ∷ []
unfolding erase_line
erase_line-comma before rest one_line =
    rw
      (
        drop-append before (b',' ∷ (debug_marker ++ rest)) 1,
        find-newline-marker rest one_line,
        erase_line,
      )
      (take-append before (b',' ∷ (debug_marker ++ rest)) 1)

-- LLVM prints a debug location as ", !dbg !7". When the first marker of a text stands directly
-- behind a comma and no newline follows it, the name keeps that comma: it is the text in front
-- of the comma followed by the comma.
pub strip_debug-comma :
    (before rest : Text)
    → find debug_marker (before ++ b',' ∷ (debug_marker ++ rest)) ≡ some (length before + 1)
    → find (newline ∷ []) rest ≡ none
    → strip_debug (before ++ b',' ∷ (debug_marker ++ rest)) ≡ before ++ b',' ∷ []
unfolding strip_debug
strip_debug-comma before rest first one_line =
    rw (first, strip_debug)
      (ap (erase_line (before ++ b',' ∷ (debug_marker ++ rest)) (length before + 1))
          (erase_start-comma before (debug_marker ++ rest))
        ∙ erase_line-comma before rest one_line)

abbrev pub first_valid : Ir → List Value → Option DebugLoc
first_valid ir [] = none
first_valid ir (j ∷ js) = elim (valid_loc ir j) [ some l ↦ some l | none ↦ first_valid ir js ]

-- What stands behind an instruction in its block.
abbrev pub behind : Value → List Value → List Value
behind i [] = []
behind i (j ∷ js) = if j == i then js else behind i js

look_ahead-found :
    (ir : Ir) (i : Value) (k n : ℕ) (l : List Value)
    → k + n ≡ 10
    → look_ahead ir i true n l ≡ first_valid ir (take k l)
unfolding look_ahead
look_ahead-found ir i zero n [] h = refl
look_ahead-found ir i zero n (j ∷ js) h = ground arith
look_ahead-found ir i (suc k) n [] h = refl
look_ahead-found ir i (suc k) n (j ∷ js) h =
    ground (arith, look_ahead-found ir i k (n + 1) js (omega arith))

look_ahead_lem :
    (ir : Ir) (i : Value) (l : List Value)
    → look_ahead ir i false 0 l ≡ first_valid ir (take 10 (behind i l))
unfolding look_ahead
look_ahead_lem ir i [] = refl
look_ahead_lem ir i (j ∷ js) = elim (Bool-cases (j == i)) [
  | inl e ↦ rw e (look_ahead-found ir i 10 0 js (omega arith))
  | inr e ↦ rw e (look_ahead_lem ir i js)
]

-- The text for the place of an instruction is its own location if that has a line; else, with
-- approximate locations on, the first location with a line among the ten instructions behind it in
-- its block, marked as approximate; else " <UNKNOWN>", also where approximate locations are off.
pub get_debug_loc_lem :
    (decimal : ℕ → Text) (ir : Ir) (cfg : Config) (i : Value)
    → get_debug_loc decimal ir cfg i ≡ elim (valid_loc ir i) [
      | some l ↦ location_text decimal l
      | none ↦
          if cfg.approx_debug_info
          then elim (first_valid ir (take 10 (behind i (ir.instructions (ir.block_of i))))) [
            | some l ↦ location_text decimal l ++ approx_text decimal
            | none ↦ unknown_text decimal
          ]
          else unknown_text decimal
    ]
unfolding get_debug_loc
get_debug_loc_lem decimal ir cfg i = elim (Option-cases (valid_loc ir i)) [
  | inr (l, e) ↦ rw (e, get_debug_loc)
  | inl e ↦
      rw (e, get_debug_loc)
        (elim (Bool-cases cfg.approx_debug_info) [
          | inl b ↦ rw (b, look_ahead_lem ir i (ir.instructions (ir.block_of i)), get_debug_loc)
          | inr b ↦ rw b
        ])
]
