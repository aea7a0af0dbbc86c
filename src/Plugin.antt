-- ===== src/Plugin.antt =====
-- The pipeline text of the plugin (passes/TaintTrackerPass/TaintTrackerPass.cpp): the callback that
-- `llvmGetPassPluginInfo` registers, which reads the parameters of the pass.
pub mod Texts
pub mod RoundTrip
pub mod Errors
use linux_analysis.Prelude.{
  ℕ, ℤ, pos, Bool, true, false, ◌||◌, Option, none, some, List, [], ◌∷◌, get_elem?, if◌then◌else◌,
}
use linux_analysis.Llvm.{Text}
use linux_analysis.State.{Config}
use linux_analysis.Seeds.{text_eq}

-- The operations of LLVM's `StringRef` that the callback calls.
pub record StringRefs : Type 0 where
  -- the rest behind the prefix, if the text has it; before the suffix
  pub consume_front : Text → Text → Option Text
  pub consume_back : Text → Text → Option Text
  -- split(Params, Separator, -1, true)
  pub split : Text → ℕ → List Text
  -- getAsInteger(10, …) into an int64_t and into an unsigned; `none` where it returns true
  pub get_as_signed : Text → Option ℤ
  pub get_as_unsigned : Text → Option ℕ

-- The parameters, and the warnings that are printed.
pub record Parsed : Type 0 where
  pub config : Config
  pub bad_constant : Bool
  pub bad_occurrence : Bool

-- `Params.size() >= i + 1 && !Params[i].empty()`.
unfoldable pub given : List Text → ℕ → Option Text
given params i = elim (get_elem? params i) [
  | none ↦ none
  | some [] ↦ none
  | some (c ∷ t) ↦ some (c ∷ t)
]

abbrev pub text_or {ℓ} : {A : Type ℓ} → A → Option A → A
text_or default none = default
text_or default (some t) = t

-- "true", "1", "TRUE", "yes".
unfoldable pub is_true_text : Text → Bool
unfolding text_eq
is_true_text t =
    text_eq t (b't' ∷ b'r' ∷ b'u' ∷ b'e' ∷ [])
    || text_eq t (b'1' ∷ [])
    || text_eq t (b'T' ∷ b'R' ∷ b'U' ∷ b'E' ∷ [])
    || text_eq t (b'y' ∷ b'e' ∷ b's' ∷ [])

unfoldable pub flag : List Text → ℕ → Bool
unfolding given is_true_text
flag params i = elim (given params i) [ none ↦ false | some t ↦ is_true_text t ]

-- "gss_fill_context"
abbrev pub default_function : Text
default_function =
    b'g' ∷ b's' ∷ b's' ∷ b'_' ∷ b'f' ∷ b'i' ∷ b'l' ∷ b'l' ∷ b'_' ∷ b'c' ∷ b'o' ∷ b'n' ∷ b't' ∷ b'e'
    ∷ b'x' ∷ b't' ∷ []

-- "taint-tracker"
abbrev pub pass_name : Text
pass_name =
    b't' ∷ b'a' ∷ b'i' ∷ b'n' ∷ b't' ∷ b'-' ∷ b't' ∷ b'r' ∷ b'a' ∷ b'c' ∷ b'k' ∷ b'e' ∷ b'r' ∷ []

-- A number, and whether the text for it could not be read.
abbrev pub number_or {ℓ} : {A : Type ℓ} → A → (Text → Option A) → Option Text → A × Bool
number_or default read none = (default, false)
number_or default read (some t) = elim (read t) [ none ↦ (default, true) | some n ↦ (n, false) ]

module _ (llvm : StringRefs) where
  unfoldable pub parameters : List Text → Parsed
  unfolding given flag
  parameters params =
      let constant = number_or (pos 3600) llvm.get_as_signed (given params 2) in
      let occurrence = number_or 1 llvm.get_as_unsigned (given params 7) in
      record {
        config = record {
          function_name = text_or default_function (given params 0);
          target_opcode = text_or [] (given params 1);
          constant_to_track = constant.0;
          verbose = flag params 3;
          interproc_mode = flag params 4;
          indirect_call_mode = flag params 5;
          upward_interproc_mode = flag params 6;
          occurrence_index = occurrence.0;
          approx_debug_info = flag params 8;
        };
        bad_constant = constant.1;
        bad_occurrence = occurrence.1;
      }

  -- `none` where the callback returns false: the text is not about this pass. Without the angle
  -- brackets all parameters have their defaults.
  unfoldable pub parse_pipeline : Text → Option Parsed
  unfolding parameters
  parse_pipeline name = elim (llvm.consume_front pass_name name) [
    | none ↦ none
    | some rest ↦ elim (llvm.consume_front (b'<' ∷ []) rest) [
      | none ↦ some (parameters [])
      | some inner ↦ elim (llvm.consume_back (b'>' ∷ []) inner) [
        | none ↦ some (parameters [])
        | some body ↦ some (parameters (llvm.split body b';'))
      ]
    ]
  ]
