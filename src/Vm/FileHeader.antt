-- ===== src/Vm/FileHeader.antt =====
-- src/vm/VM.cpp: the fields of the header of a file, as `readBytecode` reads them.
use simple_virtual_language.Base.{
  ℕ, zero, suc, ◌+◌, ◌*◌, ◌^◌, bit_or, List, Option, none, some, get_elem?,
}

-- The loops `field = field | (*bytecode)[start + i] << (i * 8)`, with `left` rounds to go at index `i`.
-- `none` is a read beyond the end of the vector.
unfoldable pub header_loop : ℕ → ℕ → ℕ → List ℕ → ℕ → Option ℕ
header_loop zero i start bytecode field = some field
header_loop (suc left) i start bytecode field = elim (get_elem? bytecode (start + i)) [
  | none ↦ none
  | some b ↦ header_loop left (i + 1) start bytecode (bit_or field (b * 2 ^ (i * 8)))
]

unfoldable pub header_field : List ℕ → ℕ → Option ℕ
unfolding header_loop
header_field bytecode start = header_loop 4 0 start bytecode 0
