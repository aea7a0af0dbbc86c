-- ===== src/Tests/Search.antt =====
-- The search on the sample, and its theorems there.
use linux_analysis.Prelude.{
  ℕ, suc, foldl, get_elem?, ◌*◌, ◌≤◌, ◌≡◌, ◌↔◌, ◌⊎◌, refl, inl, some, none, Option, List, [], ◌∷◌,
  sort, lookup, insert, put, missing, ◌∈◌, ◌⊆◌, arith,
}
use linux_analysis.Llvm.{Value, defined_instructions}
use linux_analysis.State.{State, initial_state}
use linux_analysis.Level.{get_level, ensure_level_set}
use linux_analysis.Provenance.{
  get_pointer_parameter_origin, visit_origin, visit_indices, enough, extract_struct_field_indices,
}
use linux_analysis.Provenance.Ends.{provenance_terminates}
use linux_analysis.Provenance.Derives.{Derives}
use linux_analysis.Provenance.Complete.{origin_decides}
use linux_analysis.Stores.{mark_pointer}
use linux_analysis.Loads.{scan_loads_from_tainted_pointers}
use linux_analysis.Downward.{drain, downward, identify_kill_stores}
use linux_analysis.Downward.Kills.{Kills, identify_kill_stores_iff}
use linux_analysis.Downward.Exact.{Reach, IsPending}
use linux_analysis.Downward.Progress.{potential, left}
use linux_analysis.Downward.Worklist.{worklist_exact}
use linux_analysis.FunctionPointers.{function_pointer_targets}
use linux_analysis.Seeds.{seeds}
use linux_analysis.Seeds.Start.{seeds_start}
use linux_analysis.Seeds.Occurrences.{occurrences, seed, seeds_lem}
use linux_analysis.Search.{search, search_closed}
use linux_analysis.Tests.Sample.{sample, sample_config, sample-IsModule, subset_test-sound}

abbrev tainted_by : Option State → List Value
tainted_by none = []
tainted_by (some t) = t.tainted_values

-- From the store the search goes through the load into `g` and back over the call.
found : tainted_by (search sample sample_config) ≡ 51 ∷ 24 ∷ 50 ∷ 23 ∷ 22 ∷ 21 ∷ []
unfolding search function_pointer_targets seeds downward sort scan_loads_from_tainted_pointers
    lookup ensure_level_set insert put get_pointer_parameter_origin get_level mark_pointer
found = refl

provenance_terminates_example :
    ((seen : List Value) × (visit_origin sample (enough sample) 40 []
        ≡ some (get_pointer_parameter_origin sample 40, seen)))
    × ((seen : List Value) × (visit_indices sample (enough sample) 40 []
          ≡ some (extract_struct_field_indices sample 40, seen)))
provenance_terminates_example = provenance_terminates sample sample-IsModule 40 refl

origin_decides_example :
    ((a : Value) → get_pointer_parameter_origin sample 20 ≡ some a → Derives sample a 20)
    × (get_pointer_parameter_origin sample 20 ≡ none ↔ ((a : Value) → ¬ Derives sample a 20))
origin_decides_example = origin_decides sample sample-IsModule 20 refl

abbrev one_load : State
one_load = record initial_state { worklist = 22 ∷ []; tainted_values = 22 ∷ [] }

one_load-IsPending : IsPending sample sample_config [] one_load
one_load-IsPending = record { waiting = λ x m. m; followed = λ v m. inl m }

one_load_inside : one_load.worklist ⊆ sample.values
one_load_inside = subset_test-sound (22 ∷ []) sample.values refl

worklist_exact_example :
    (t : State) × (drain sample sample_config [] 13 one_load ≡ some t)
    × (t.worklist ≡ [])
    × ((x : Value) → (x ∈ t.tainted_values) ↔ Reach sample sample_config [] (22 ∷ []) x)
unfolding missing
worklist_exact_example =
    worklist_exact sample sample_config [] 13 one_load sample-IsModule one_load-IsPending
      one_load_inside (omega arith)

seeds_start_example :
    ((seeds sample sample_config).state.worklist
      ≡ (seeds sample sample_config).state.tainted_values)
    × ((seeds sample sample_config).state.worklist ⊆ sample.values)
    × (potential sample.values (seeds sample sample_config).state ≤ 13)
    × (left sample.values (seeds sample sample_config).state ≤ 2 * 13)
seeds_start_example = seeds_start sample sample-IsModule sample_config

search_closed_example :
    (t : State) × (search sample sample_config ≡ some t)
    × (t.worklist ≡ [])
    × ((seeds sample sample_config).state.tainted_values ⊆ t.tainted_values)
    × ((x : Value)
        → Reach sample sample_config
            (function_pointer_targets sample sample_config)
            t.tainted_values
            x
        → x ∈ t.tainted_values)
search_closed_example = search_closed sample sample_config sample-IsModule

-- What `f` is given to store to is tainted, and the value that it stores there is not.
abbrev overwritten : State
overwritten = record initial_state { tainted_pointers = 40 ∷ [] }

killed : (identify_kill_stores sample overwritten).killed_stores ≡ 25 ∷ []
unfolding identify_kill_stores lookup insert
killed = refl

identify_kill_stores_iff_example :
    (25 ∈ (identify_kill_stores sample overwritten).killed_stores) ↔ (
      (25 ∈ overwritten.killed_stores)
      ⊎ ((25 ∈ defined_instructions sample) × Kills sample overwritten 25))
identify_kill_stores_iff_example = identify_kill_stores_iff sample overwritten 25

-- The constant is stored by one instruction of `f` and added by another.
two_occurrences : occurrences sample sample_config sample.functions ≡ (21, 30) ∷ (23, 30) ∷ []
unfolding occurrences
two_occurrences = refl

seeds_lem_example :
    (sample_config.occurrence_index ≡ 0
      → (seeds sample sample_config).state
        ≡ foldl
            (seed sample sample_config)
            initial_state
            (occurrences sample sample_config sample.functions))
    × ((n : ℕ)
        → sample_config.occurrence_index ≡ suc n
        → (seeds sample sample_config).state
          ≡ elim (get_elem? (occurrences sample sample_config sample.functions) n) [
            | none ↦ initial_state
            | some o ↦ seed sample sample_config initial_state o
          ])
seeds_lem_example = seeds_lem sample sample_config
