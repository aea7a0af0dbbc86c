-- ===== src/Llvm.antt =====
-- What the pass asks of LLVM (headers included by passes/TaintTrackerPass/TaintTrackerPass.cpp).
-- LLVM is not part of the repository, so a module of IR is a record of the answers to those
-- queries and a parameter of every definition that uses it. A `Value *`, `Function *`,
-- `BasicBlock *` or `Type *` is its address; `std::less` on pointers is the order of addresses.
use linux_analysis.Prelude.{
  ℕ, ℤ, ◌≡◌, if◌then◌else◌, Bool, true, false, Option, none, some, List, [], ◌∷◌, flat_map, ◌∈◌,
  ◌⊆◌,
}

abbrev pub Value : Type 0
Value = ℕ

abbrev pub Function : Type 0
Function = ℕ

abbrev pub Block : Type 0
Block = ℕ

abbrev pub Text : Type 0
Text = List ℕ

-- The class that `dyn_cast` finds, with what the class's accessors return.
pub data Kind : Type 0 where
  -- getValueOperand, getPointerOperand
  store_inst : Value → Value → Kind
  -- getPointerOperand
  load_inst : Value → Kind
  -- getPointerOperand, getSourceElementType, idx_begin .. idx_end
  gep_inst : Value → ℕ → List Value → Kind
  -- the incoming values
  phi_node : List Value → Kind
  -- getCalledFunction, getCalledOperand, the argument operands
  call_inst : Option Function → Value → List Value → Kind
  -- getReturnValue
  return_inst : Option Value → Kind
  -- getAllocatedType()->isStructTy()
  alloca_inst : Bool → Kind
  other_inst : Kind
  -- getArgNo
  argument : ℕ → Kind
  -- getSExtValue
  constant_int : ℤ → Kind
  global_variable : Kind
  function_value : Kind
  other_value : Kind

pub record DebugLoc : Type 0 where
  pub filename : Text
  pub line : ℕ
  pub column : ℕ

pub record Ir : Type 0 where
  -- An enumeration of the values that the queries range over.
  pub values : List Value
  pub kind : Value → Kind
  -- Value::print
  pub printed : Value → Text
  -- getOpcodeName, operands, users, stripPointerCasts, getType()->isPointerTy()
  pub opcode_name : Value → Text
  pub operands : Value → List Value
  pub users : Value → List Value
  pub strip_pointer_casts : Value → Value
  pub is_pointer_ty : Value → Bool
  -- Instruction::getFunction, and getParent of an argument
  pub function_of : Value → Option Function
  -- Instruction::getParent
  pub block_of : Value → Block
  pub debug_loc : Value → Option DebugLoc
  -- the functions of the module in order; getName, isDeclaration, the arguments, the blocks
  pub functions : List Function
  pub function_name : Function → Text
  -- `A->getName() < B->getName()`
  pub name_before : Function → Function → Bool
  pub is_declaration : Function → Bool
  pub params : Function → List Value
  pub blocks : Function → List Block
  pub instructions : Block → List Value

abbrev pub is_instruction : Kind → Bool
is_instruction (store_inst _ _) = true
is_instruction (load_inst _) = true
is_instruction (gep_inst _ _ _) = true
is_instruction (phi_node _) = true
is_instruction (call_inst _ _ _) = true
is_instruction (return_inst _) = true
is_instruction (alloca_inst _) = true
is_instruction other_inst = true
is_instruction (argument _) = false
is_instruction (constant_int _) = false
is_instruction global_variable = false
is_instruction function_value = false
is_instruction other_value = false

abbrev pub is_argument : Kind → Bool
is_argument (argument _) = true
is_argument _ = false

abbrev pub is_alloca : Kind → Bool
is_alloca (alloca_inst _) = true
is_alloca _ = false

-- An alloca of a struct type.
abbrev pub is_struct_alloca : Kind → Bool
is_struct_alloca (alloca_inst is_struct) = is_struct
is_struct_alloca _ = false

abbrev pub is_global : Kind → Bool
is_global global_variable = true
is_global _ = false

-- `dyn_cast<StoreInst>`: the value operand and the pointer operand.
pub record Store : Type 0 where
  pub value : Value
  pub pointer : Value

abbrev pub as_store : Kind → Option Store
as_store (store_inst v p) = some (record { value = v; pointer = p })
as_store _ = none

-- `dyn_cast<LoadInst>`: the pointer operand.
abbrev pub as_load : Kind → Option Value
as_load (load_inst p) = some p
as_load _ = none

-- `dyn_cast<GetElementPtrInst>`: the pointer operand, the source element type and the indices.
pub record Gep : Type 0 where
  pub base : Value
  pub element_type : ℕ
  pub indices : List Value

abbrev pub as_gep : Kind → Option Gep
as_gep (gep_inst p t is) = some (record { base = p; element_type = t; indices = is })
as_gep _ = none

-- `dyn_cast<CallInst>`: the called function, and the argument operands.
pub record Call : Type 0 where
  pub callee : Option Function
  pub arguments : List Value

abbrev pub as_call : Kind → Option Call
as_call (call_inst f _ args) = some (record { callee = f; arguments = args })
as_call _ = none

-- `dyn_cast<ReturnInst>`: the returned value, if there is one.
abbrev pub as_return : Kind → Option (Option Value)
as_return (return_inst r) = some r
as_return _ = none

-- `dyn_cast<ConstantInt>`: getSExtValue.
abbrev pub as_constant_int : Kind → Option ℤ
as_constant_int (constant_int c) = some c
as_constant_int _ = none

-- getArgNo.
abbrev pub arg_no : Kind → ℕ
arg_no (argument n) = n
arg_no _ = 0

-- `for (BasicBlock &BB : F) for (Instruction &I : BB)`.
abbrev pub function_instructions : Ir → Function → List Value
function_instructions ir f = flat_map ir.instructions (ir.blocks f)

-- The instructions of the functions that are no declarations, in the order of the module.
abbrev pub defined_functions : Ir → List Function → List Function
defined_functions ir [] = []
defined_functions ir (f ∷ fs) =
    if ir.is_declaration f then defined_functions ir fs else f ∷ defined_functions ir fs

abbrev pub defined_instructions : Ir → List Value
defined_instructions ir = flat_map (function_instructions ir) (defined_functions ir ir.functions)

-- The values that an instruction of these classes refers to.
abbrev pub referred : Kind → List Value
referred (store_inst v p) = v ∷ p ∷ []
referred (load_inst p) = p ∷ []
referred (gep_inst p _ _) = p ∷ []
referred (phi_node vs) = vs
referred (call_inst _ _ args) = args
referred _ = []

-- What the code relies on of LLVM: a module is finite, and the queries stay inside it, also those
-- for the function of an instruction or an argument;
-- `stripPointerCasts` leaves no cast to strip.
pub record IsModule (ir : Ir) : Type 0 where
  pub strip_idem :
      (v : Value) → ir.strip_pointer_casts (ir.strip_pointer_casts v) ≡ ir.strip_pointer_casts v
  pub strip_mem : (v : Value) → v ∈ ir.values → ir.strip_pointer_casts v ∈ ir.values
  pub users_mem : (v : Value) → v ∈ ir.values → ir.users v ⊆ ir.values
  pub referred_mem : (v : Value) → v ∈ ir.values → referred (ir.kind v) ⊆ ir.values
  pub params_mem : (f : Function) → ir.params f ⊆ ir.values
  pub instructions_mem : (b : Block) → ir.instructions b ⊆ ir.values
  pub function_mem : (v : Value) (f : Function) → ir.function_of v ≡ some f → f ∈ ir.functions
