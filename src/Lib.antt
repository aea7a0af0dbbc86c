-- ===== src/Lib.antt =====
-- Taint tracking over LLVM IR: the analysis of passes/TaintTrackerPass/TaintTrackerPass.cpp.
--
-- The program is one plugin pass. Its method `run` takes a module, looks up the functions that
-- are stored into function pointers, seeds a worklist with the instructions of one function that
-- have a given constant as an operand, and spreads taint from there: down the def-use chains and
-- into callees, through the pointers that tainted values are stored to, and, where it is asked to,
-- up into callers. Each tainted value carries a level, its distance in calls. The pass ends with a
-- report on the values of the largest level. All other code of the repository runs the pass and
-- keeps its outputs.
--
-- LLVM is not code of this repository. A module is the record `Ir` of Llvm: what LLVM answers
-- about values (their kind and operands, users, functions, blocks, locations), each a field of
-- its own, with values and functions as numbers that stand for addresses. Its laws `IsModule` are
-- documented properties of a verified module; Tests/Sample and Tests/Passing fill both.
--
-- The files and the code they are about (all of passes/TaintTrackerPass/TaintTrackerPass.cpp):
--   Prelude          lists, sets and maps with native numbers, and integers
--   Llvm             the interface of LLVM that the pass reads: `Ir`, `Kind`, `IsModule`
--   State            the containers that `run` declares, and the parameters of the pass
--   Level            `getLevel`, `ensureLevelSet`; child: Laws
--   Provenance       `derivesFromPointerParameter`, `extractStructFieldIndices`,
--                    `getPointerParameterOrigin`; children: Ends (termination), Derives and
--                    Complete (the meaning of an answer), Inside (values of the module)
--   Gep              `sameGEPPattern`; child: Pattern (its specification)
--   Stores           the effects of a tainted store: pointers, parameters and their fields;
--                    child: Settled
--   Loads            `isLoadBeforeTaintOrigin`, `scanLoadsFromTaintedPointers`; child: Order
--   Downward         the worklist loop, the kill stores and the outer loop of `run`;
--                    children: Flow and Uses (the successors of a tainted value), Exact (what
--                    the loop computes), Progress and Ends (termination), Worklist (both
--                    together), Queues and Closed (rounds of the outer loop),
--                    Kills (the kill stores), Entries (sorted entries)
--   Names            `getValueName`, `getDebugLoc` and their erasing of locations; child: Laws
--   FunctionPointers `FunctionPointerTargets`; child: Laws
--   Seeds            the seeding loops of `run`; children: Start, Occurrences
--   Search           seeding and the downward search, as `run` composes them
--   Upward           the upward search of `run`: calls of functions that return taint or taint a
--                    parameter, and the uses of what is tainted there; children: Discoveries,
--                    Climbs and Moves (what a step keeps, and the measures), Callers, Arguments
--                    and Uses (the steps), Flows and Scans (uses and loads that are followed), Ends
--                    and Fixed (termination), Closed and Passed (callers that are visited)
--   Run              the two searches, as `run` composes them; children: Ends, Flows
--   Report           the statistics at the end of `run`, as a value; children: Levels (the
--                    largest level and its values), Spans (the span of a function), Counts
--   Plugin           the parameters in the text of the pipeline, read by the callback of
--                    `llvmGetPassPluginInfo`; children: Texts, RoundTrip, Errors
--   Tests            small modules of IR, and every theorem applied to one
--
-- State is passed explicitly. A `DenseSet` is a list without repetition, a `DenseMap` an
-- association list, the worklist a stack with its top first. Where the source iterates a hashed
-- container whose keys are pointers, the searches iterate in the order of the addresses, and the
-- report in the order in which the entries were made. Lambdas that capture containers take and
-- return the whole `State`.
--
-- Fuel. The recursions with `Visited` take one unit of fuel for each value of the module and one
-- more: each call adds a value to `Visited` or returns. `derivesFromPointerParameter` has no
-- `Visited`; its fuel is an argument. The worklist takes a unit for each value, since a value is
-- pushed when it is tainted first. The outer loop takes a round for each value and each pointer,
-- since a round that sets `changed` adds one of them, and one more. Upward, the worklist takes the
-- same; the loop around it takes a round for each value and each pointer that is tainted when the
-- search goes upward, since a round scans a new pointer, and one more; and the iterations take one
-- for each function and each pair of a function and a value, since an iteration that goes on adds
-- a function that returns taint or the number of a parameter, and one more.
--
-- The report sorts by the names of functions with `name_before`, a field of `Ir`. Counters that are
-- `unsigned` in the source wrap around at 2^32. The operations of LLVM's `StringRef` on the text of
-- the pipeline are the record `StringRefs`; Tests/Texts fills it.
--
-- Not modelled: the text that the search writes to the error stream, which it never reads again,
-- with `getFuncLevel` and `getFuncLevelForValue`, which only format it, and the wording of the
-- report around its numbers, names and places; tests for null on pointers that LLVM never leaves
-- null; overflow of `int` levels and of the counter of occurrences, which need a chain of 2^31 calls
-- or uses; the first and the last instruction of the whole module, which the report finds but does
-- not print; the registration of the callback with LLVM; the shell and Python scripts, and the data.
pub mod Prelude
pub mod Llvm
pub mod State
pub mod Level
pub mod Provenance
pub mod Gep
pub mod Stores
pub mod Loads
pub mod Downward
pub mod Names
pub mod FunctionPointers
pub mod Seeds
pub mod Upward
pub mod Search
pub mod Run
pub mod Report
pub mod Plugin
mod Tests
