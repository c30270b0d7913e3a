-- ===== src/Vm/Metadata.antt =====
-- src/vm/VM.cpp: the walks of `readBytecode` over the metadata tables of a file, which fill the runtime
-- error handler. Indices are `uint32_t`.
pub mod Walks
use simple_virtual_language.Base.{
  ℕ, zero, suc, ◌+◌, ◌*◌, ◌%◌, ◌^◌, bit_or, Bool, List, [], ◌∷◌, Option, none, some, ltb, leb,
  length, get_elem?,
}
use simple_virtual_language.Base.Text.{Text}
use simple_virtual_language.Vm.State.{u32}
use simple_virtual_language.Vm.ErrorHandler.{
  RuntimeErrorHandler, insert_source, insert_function_metadata, insert_line_table_metadata,
}
use simple_virtual_language.Vm.FileHeader.{header_field}

-- `undefined` is a read beyond the end of the vector, or the overflow of the `int` that counts the
-- characters of a text. `exhausted` is the model's own: the bound on the rounds is used up.
pub data Walk (A : Type 0) : Type 0 where
  walked : A → Walk A
  undefined : Walk A
  exhausted : Walk A

infixl 5 ◌>>=◌
abbrev pub ◌>>=◌ : {A B : Type 0} → Walk A → (A → Walk B) → Walk B
walked a >>= f = f a
undefined >>= f = undefined
exhausted >>= f = exhausted

-- The loops `field = field | (*bytecode)[bytecodeIdx + i] << (i * 8)`.
unfoldable pub field_loop : ℕ → ℕ → ℕ → List ℕ → ℕ → Walk ℕ
field_loop zero i at bytecode field = walked field
field_loop (suc left) i at bytecode field = elim (get_elem? bytecode (u32 (at + i))) [
  | none ↦ undefined
  | some b ↦ field_loop left (i + 1) at bytecode (bit_or field (b * 2 ^ (i * 8)))
]

unfoldable pub field : ℕ → List ℕ → ℕ → Walk ℕ
unfolding field_loop
field n bytecode at = field_loop n 0 at bytecode 0

-- The loops `text[i] = (*bytecode)[bytecodeIdx + i]`.
unfoldable pub text_loop : ℕ → ℕ → ℕ → List ℕ → Walk Text
text_loop zero i at bytecode = walked []
text_loop (suc left) i at bytecode = elim (get_elem? bytecode (u32 (at + i))) [
  | none ↦ undefined
  | some b ↦ do rest ← text_loop left (i + 1) at bytecode; walked (b ∷ rest)
]

-- A text with its length in front of it, and the index behind it.
unfoldable pub sized_text : List ℕ → ℕ → Walk (Text × ℕ)
unfolding field text_loop
sized_text bytecode at = do
  size ← field 4 bytecode at
  text ← elim (leb (2 ^ 31) size) [
    | Bool.true ↦ undefined
    | Bool.false ↦ text_loop size 0 (u32 (at + 4)) bytecode
  ]
  walked (text, u32 (u32 (at + 4) + size))

-- The bodies of the three loops: the next index, and the handler with the entry.
abbrev pub Body : Type 0
Body = List ℕ → ℕ → RuntimeErrorHandler → Walk (ℕ × RuntimeErrorHandler)

unfoldable pub read_source : Body
unfolding field sized_text insert_source
read_source bytecode at h = do
  source_id ← field 2 bytecode at
  (path, next) ← sized_text bytecode (u32 (at + 2))
  walked (next, insert_source source_id path h)

unfoldable pub read_function : Body
unfolding field sized_text insert_function_metadata
read_function bytecode at h = do
  start_address ← field 4 bytecode at
  end_address ← field 4 bytecode (u32 (at + 4))
  source_id ← field 2 bytecode (u32 (at + 8))
  (function_name, next) ← sized_text bytecode (u32 (at + 10))
  walked (
    next,
    insert_function_metadata
        (record {
          start_address = start_address;
          end_address = end_address;
          source_id = source_id;
          function_name = function_name;
        })
        h,
  )

unfoldable pub read_line : Body
unfolding field insert_line_table_metadata
read_line bytecode at h = do
  start_address ← field 4 bytecode at
  end_address ← field 4 bytecode (u32 (at + 4))
  source_id ← field 2 bytecode (u32 (at + 8))
  line ← field 4 bytecode (u32 (at + 10))
  column ← field 2 bytecode (u32 (at + 14))
  walked (
    u32 (at + 16),
    insert_line_table_metadata
        (record {
          start_address = start_address;
          end_address = end_address;
          source_id = source_id;
          line = line;
          column = column;
        })
        h,
  )

-- `while (bytecodeIdx < end)`.
unfoldable pub walk : Body → ℕ → ℕ → List ℕ → ℕ → RuntimeErrorHandler → Walk RuntimeErrorHandler
walk body zero end bytecode at h = exhausted
walk body (suc rounds) end bytecode at h = elim (ltb at end) [
  | Bool.false ↦ walked h
  | Bool.true ↦ do (next, h') ← body bytecode at h; walk body rounds end bytecode next h'
]

abbrev pub empty_handler : RuntimeErrorHandler
empty_handler = record { source_metadata = []; function_metadata = []; line_table_metadata = [] }

abbrev pub header_or_undefined : Option ℕ → Walk ℕ
header_or_undefined none = undefined
header_or_undefined (some n) = walked n

-- The three walks, each with a round for every byte of the file and one more.
unfoldable pub read_metadata : List ℕ → Walk RuntimeErrorHandler
unfolding header_field walk read_source read_function read_line
read_metadata bytecode = do
  end_of_data ← header_or_undefined (header_field bytecode 4)
  end_of_sources ← header_or_undefined (header_field bytecode 8)
  end_of_functions ← header_or_undefined (header_field bytecode 12)
  end_of_line_table ← header_or_undefined (header_field bytecode 16)
  let rounds = suc (length bytecode)
  sources ← walk read_source rounds end_of_sources bytecode (u32 (end_of_data + 1)) empty_handler
  functions ← walk read_function rounds end_of_functions bytecode (u32 (end_of_sources + 1)) sources
  walk read_line rounds end_of_line_table bytecode (u32 (end_of_functions + 1)) functions
