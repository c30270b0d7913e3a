-- ===== src/Vm/State.antt =====
-- The state of the virtual machine: the registers, memory and stacks that vm/VM.h,
-- vm/memory/MemoryManager.h, vm/memory/CallStackManager.h, vm/memory/HeapManager.h and
-- vm/OperandStack.h declare. The managers hold pointers to the registers of the `VM` object and to
-- one another, so all of their fields stand in one record.
-- include/Error.h: an exception is modelled by its `RuntimeErrorType`; its message is not.
use simple_virtual_language.Base.{ℕ, Bool, List, Option, ◌%◌, ◌^◌}
use simple_virtual_language.Isa.{ValueType}

pub data RuntimeErrorType : Type 0 where
  explicit_array_index_out_of_range explicit_negative_array_length : RuntimeErrorType
  explicit_array_initialiser_length explicit_zero_range_step : RuntimeErrorType
  division_by_zero out_of_range stack_overflow out_of_memory internal : RuntimeErrorType

pub data ErrorContext : Type 0 where
  language_context internal_context : ErrorContext

-- `rawValue` is the 64-bit pattern, below 2 ^ 64.
pub record Value : Type 0 where
  pub type : ValueType
  pub raw_value : ℕ

abbrev pub value : ValueType → ℕ → Value
value t r = record { type = t; raw_value = r }

pub record FrameInfo : Type 0 where
  pub number_of_arguments : ℕ
  pub number_of_locals : ℕ

-- The `next` pointers of the free list are the list itself.
pub record FreeBlock : Type 0 where
  pub size : ℕ
  pub address : ℕ

-- A page maps an offset below 4096 to a byte.
abbrev pub Page : Type 0
Page = ℕ → ℕ

-- `unordered_map<uint32_t, Page*>`: a page is there once it was written.
abbrev pub PageTable : Type 0
PageTable = ℕ → Option Page

-- What goes to standard output: a number in its text form, or the bytes of a text.
pub data Output : Type 0 where
  number : Value → Output
  text : List ℕ → Output

-- The registers and `startOfDataRegion` are below 2 ^ 32. The head of `operand_stack` and of
-- `frame_info_stack` is the top. `exit_code` is the 32-bit pattern of the `int`.
pub record Vm : Type 0 where
  pub pc : ℕ
  pub hb : ℕ
  pub hp : ℕ
  pub fp : ℕ
  pub sp : ℕ
  pub start_of_data_region : ℕ
  pub page_table : PageTable
  pub frame_info_stack : List FrameInfo
  pub free_list : List FreeBlock
  pub operand_stack : List Value
  pub error_context : ErrorContext
  pub running : Bool
  pub exit_code : ℕ
  pub output : List Output

-- A computation on values alone: a value, an exception, or behaviour that C++ leaves undefined.
pub data Result (A : Type 0) : Type 0 where
  returned : A → Result A
  raised : RuntimeErrorType → Result A
  undefined : Result A

-- A method of the machine: the state is also known where an exception leaves the method.
pub data Outcome (A : Type 0) : Type 0 where
  ok : A → Vm → Outcome A
  thrown : RuntimeErrorType → Vm → Outcome A
  undefined_behaviour : Outcome A

abbrev pub M : Type 0 → Type 0
M A = Vm → Outcome A

abbrev pub pure : {A : Type 0} → A → M A
pure a s = ok a s

abbrev pub and_then : {A B : Type 0} → Outcome A → (A → M B) → Outcome B
and_then (ok a s) f = f a s
and_then (thrown e s) f = thrown e s
and_then undefined_behaviour f = undefined_behaviour

infixl 5 ◌>>=◌ ◌>>◌
abbrev pub ◌>>=◌ : {A B : Type 0} → M A → (A → M B) → M B
◌>>=◌ m f s = and_then (m s) f

abbrev pub ◌>>◌ : {B : Type 0} → M (Unit {0}) → M B → M B
m >> k = m >>= λ _. k

abbrev pub get : M Vm
get s = ok s s

abbrev pub modify : (Vm → Vm) → M (Unit {0})
modify f s = ok tt (f s)

abbrev pub throw : {A : Type 0} → RuntimeErrorType → M A
throw e s = thrown e s

abbrev pub undef : {A : Type 0} → M A
undef s = undefined_behaviour

abbrev pub lift : {A : Type 0} → Result A → M A
lift (returned a) s = ok a s
lift (raised e) s = thrown e s
lift undefined s = undefined_behaviour

-- `uint32_t` arithmetic.
abbrev pub u32 : ℕ → ℕ
u32 n = n % 2 ^ 32

abbrev pub u64 : ℕ → ℕ
u64 n = n % 2 ^ 64

-- `MAX_MEMORY_ADDRESS` of vm/VM.h.
abbrev pub max_memory_address : ℕ
max_memory_address = 0xffff_ffff
