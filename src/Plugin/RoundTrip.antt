-- ===== src/Plugin/RoundTrip.antt =====
-- Writing a configuration as a pipeline text, and reading it.
use linux_analysis.Prelude.{
  ℕ, pos, ◌≡◌, refl, ap, Bool, true, false, Option, some, List, [], ◌∷◌, ◌++◌, get_elem?, contains,
  arith,
}
use linux_analysis.Llvm.{Text}
use linux_analysis.State.{Config}
use linux_analysis.Provenance.{is_empty}
use linux_analysis.Plugin.{
  StringRefs, given, is_true_text, flag, number_or, text_or, pass_name, parameters, parse_pipeline,
}
use linux_analysis.Plugin.Texts.{join, none_has, IsStringRefs}

abbrev pub flag_text : Bool → Text
flag_text true = b't' ∷ b'r' ∷ b'u' ∷ b'e' ∷ []
flag_text false = b'f' ∷ b'a' ∷ b'l' ∷ b's' ∷ b'e' ∷ []

-- The fields behind the first, with texts for the two numbers.
abbrev pub fields : Config → Text → Text → List Text
fields cfg constant occurrence =
    cfg.target_opcode
    ∷ constant
    ∷ flag_text cfg.verbose
    ∷ flag_text cfg.interproc_mode
    ∷ flag_text cfg.indirect_call_mode
    ∷ flag_text cfg.upward_interproc_mode
    ∷ occurrence
    ∷ flag_text cfg.approx_debug_info
    ∷ []

-- taint-tracker<function;opcode;constant;debug;interproc;indirectcall;upward;occurrence;approx>
unfoldable pub pipeline : Config → Text → Text → Text
pipeline cfg constant occurrence =
    pass_name
    ++ ((b'<' ∷ [])
        ++ (join b';' cfg.function_name (fields cfg constant occurrence) ++ (b'>' ∷ [])))

is_true_text-flag_text : (b : Bool) → is_true_text (flag_text b) ≡ b
unfolding is_true_text
is_true_text-flag_text true = refl
is_true_text-flag_text false = refl

pub given-some :
    (ts : List Text) (i : ℕ) (t : Text)
    → get_elem? ts i ≡ some t
    → is_empty t ≡ false
    → given ts i ≡ some t
unfolding given
given-some ts i [] e h = cc
given-some ts i (c ∷ t) e h = rw (e, given) refl

flag-flag_text :
    (ts : List Text) (i : ℕ) (b : Bool) → get_elem? ts i ≡ some (flag_text b) → flag ts i ≡ b
unfolding flag
flag-flag_text ts i true e =
    rw (given-some ts i (flag_text true) e refl, flag) (is_true_text-flag_text true)
flag-flag_text ts i false e =
    rw (given-some ts i (flag_text false) e refl, flag) (is_true_text-flag_text false)

given_text :
    (ts : List Text) (i : ℕ) (t : Text) → get_elem? ts i ≡ some t → text_or [] (given ts i) ≡ t
unfolding given
given_text ts i [] e = rw (e, given) refl
given_text ts i (c ∷ t) e = rw (e, given) refl

number_read :
    {A : Type 0} (default : A) (read : Text → Option A) (o : Option Text) (t : Text) (n : A)
    → o ≡ some t
    → read t ≡ some n
    → number_or default read o ≡ (n, false)
number_read default read o t n e h = rw e (rw (h, number_or) refl)

none_has-flag_text : (b : Bool) → contains b';' (flag_text b) ≡ false
none_has-flag_text true = refl
none_has-flag_text false = refl

module _ (llvm : StringRefs) (cfg : Config) (constant occurrence : Text)
    (named : is_empty cfg.function_name ≡ false) (written : is_empty constant ≡ false)
    (written' : is_empty occurrence ≡ false)
    (reads : llvm.get_as_signed constant ≡ some cfg.constant_to_track)
    (reads' : llvm.get_as_unsigned occurrence ≡ some cfg.occurrence_index) where
  parameters-fields :
      parameters llvm (cfg.function_name ∷ fields cfg constant occurrence)
      ≡ record { config = cfg; bad_constant = false; bad_occurrence = false }
  unfolding parameters
  parameters-fields =
      let ts = cfg.function_name ∷ fields cfg constant occurrence in
      rw
        (
          given-some ts 0 cfg.function_name refl named,
          given_text ts 1 cfg.target_opcode refl,
          number_read (pos 3600) llvm.get_as_signed (given ts 2) constant cfg.constant_to_track
              (given-some ts 2 constant refl written) reads,
          flag-flag_text ts 3 cfg.verbose refl,
          flag-flag_text ts 4 cfg.interproc_mode refl,
          flag-flag_text ts 5 cfg.indirect_call_mode refl,
          flag-flag_text ts 6 cfg.upward_interproc_mode refl,
          number_read 1 llvm.get_as_unsigned (given ts 7) occurrence cfg.occurrence_index
              (given-some ts 7 occurrence refl written') reads',
          flag-flag_text ts 8 cfg.approx_debug_info refl,
        )
        refl

-- A configuration that is written with its nine fields is read back, and nothing is warned of:
-- the function has a name, no field has a semicolon in it, and the texts for the numbers are
-- texts that LLVM reads as them.
pub parse_pipeline-pipeline :
    (llvm : StringRefs)
    → IsStringRefs llvm
    → (cfg : Config) (constant occurrence : Text) → is_empty cfg.function_name ≡ false
    → is_empty constant ≡ false
    → is_empty occurrence ≡ false
    → none_has b';' (cfg.function_name ∷ cfg.target_opcode ∷ constant ∷ occurrence ∷ []) ≡ true
    → llvm.get_as_signed constant ≡ some cfg.constant_to_track
    → llvm.get_as_unsigned occurrence ≡ some cfg.occurrence_index
    → parse_pipeline llvm (pipeline cfg constant occurrence)
      ≡ some (record { config = cfg; bad_constant = false; bad_occurrence = false })
unfolding parse_pipeline pipeline
parse_pipeline-pipeline llvm laws cfg constant occurrence named written written' clean reads
      reads' =
    let body = join b';' cfg.function_name (fields cfg constant occurrence) in
    let split : llvm.split body b';' ≡ cfg.function_name ∷ fields cfg constant occurrence =
      laws.pieces b';' cfg.function_name (fields cfg constant occurrence) (
        ground (
          arith,
          none_has-flag_text cfg.verbose,
          none_has-flag_text cfg.interproc_mode,
          none_has-flag_text cfg.indirect_call_mode,
          none_has-flag_text cfg.upward_interproc_mode,
          none_has-flag_text cfg.approx_debug_info,
        )) in
    rw
      (
        laws.front pass_name ((b'<' ∷ []) ++ (body ++ (b'>' ∷ []))),
        laws.front (b'<' ∷ []) (body ++ (b'>' ∷ [])),
        laws.back (b'>' ∷ []) body,
        split,
        parse_pipeline,
      )
      (ap some (parameters-fields llvm cfg constant occurrence named written written' reads reads'))
