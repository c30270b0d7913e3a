-- ===== src/Isa.antt =====
-- src/include/ISA.h: the opcodes and value types of the bytecode, with their byte codes.
-- A C++ `enum class` over `uint8_t` can hold any byte: `unnamed` is a byte that no enumerator has.
use simple_virtual_language.Base.{ℕ, Bool, ◌==◌, if◌then◌else◌}

pub data ValueType : Type 0 where
  i32 ui32 i64 ui64 f32 f64 ptr str : ValueType
  unnamed : ℕ → ValueType

-- `static_cast<uint8_t>(type)`.
unfoldable pub type_code : ValueType → ℕ
type_code i32 = 0x00
type_code ui32 = 0x01
type_code i64 = 0x02
type_code ui64 = 0x03
type_code f32 = 0x04
type_code f64 = 0x05
type_code ptr = 0x06
type_code str = 0x07
type_code (unnamed b) = b

-- `static_cast<ISA::Type>(byte)`.
unfoldable pub type_of_code : ℕ → ValueType
type_of_code b =
    if b == 0x00
    then i32
    else if b == 0x01
    then ui32
    else if b == 0x02
    then i64
    else if b == 0x03
    then ui64
    else if b == 0x04
    then f32
    else if b == 0x05
    then f64
    else if b == 0x06
    then ptr
    else if b == 0x07
    then str
    else unnamed b

-- `==` on the enumeration compares the underlying bytes.
unfoldable pub same_type : ValueType → ValueType → Bool
unfolding type_code
same_type t u = type_code t == type_code u

pub data Opcode : Type 0 where
  nop halt push pop dup swap rotd rotu : Opcode
  load loadb loadg loadl store storeb storeg storel addrl alloc free : Opcode
  native call ret jmp jez jnz : Opcode
  add sub mul div rem not and orr xor shl shr sar : Opcode
  ceq cne clt cle cgt cge : Opcode
  conv throw : Opcode
  unnamed : ℕ → Opcode

-- `static_cast<ISA::Opcode>(byte)`.
unfoldable pub opcode_of_byte : ℕ → Opcode
opcode_of_byte b =
    if b == 0x00
    then Opcode.nop
    else if b == 0x01
    then Opcode.halt
    else if b == 0x02
    then Opcode.push
    else if b == 0x03
    then Opcode.pop
    else if b == 0x04
    then Opcode.dup
    else if b == 0x05
    then Opcode.swap
    else if b == 0x06
    then Opcode.rotd
    else if b == 0x07
    then Opcode.rotu
    else if b == 0x08
    then Opcode.load
    else if b == 0x09
    then Opcode.loadb
    else if b == 0x0a
    then Opcode.loadg
    else if b == 0x0b
    then Opcode.loadl
    else if b == 0x0c
    then Opcode.store
    else if b == 0x0d
    then Opcode.storeb
    else if b == 0x0e
    then Opcode.storeg
    else if b == 0x0f
    then Opcode.storel
    else if b == 0x10
    then Opcode.addrl
    else if b == 0x11
    then Opcode.alloc
    else if b == 0x12
    then Opcode.free
    else if b == 0x13
    then Opcode.native
    else if b == 0x14
    then Opcode.call
    else if b == 0x15
    then Opcode.ret
    else if b == 0x16
    then Opcode.jmp
    else if b == 0x17
    then Opcode.jez
    else if b == 0x18
    then Opcode.jnz
    else if b == 0x19
    then Opcode.add
    else if b == 0x1a
    then Opcode.sub
    else if b == 0x1b
    then Opcode.mul
    else if b == 0x1c
    then Opcode.div
    else if b == 0x1d
    then Opcode.rem
    else if b == 0x1e
    then Opcode.not
    else if b == 0x1f
    then Opcode.and
    else if b == 0x20
    then Opcode.orr
    else if b == 0x21
    then Opcode.xor
    else if b == 0x22
    then Opcode.shl
    else if b == 0x23
    then Opcode.shr
    else if b == 0x24
    then Opcode.sar
    else if b == 0x25
    then Opcode.ceq
    else if b == 0x26
    then Opcode.cne
    else if b == 0x27
    then Opcode.clt
    else if b == 0x28
    then Opcode.cle
    else if b == 0x29
    then Opcode.cgt
    else if b == 0x2a
    then Opcode.cge
    else if b == 0x2b
    then Opcode.conv
    else if b == 0x2c
    then Opcode.throw
    else Opcode.unnamed b
