-- ===== src/Lib.antt =====
-- Simple Virtual Language: the tokeniser and the constant folder of the compiler, its declaration of
-- functions, the assembler from statements to bytecode, and the virtual machine from the bytecode file to
-- the end of a run.
--
-- The program is a compiler, an assembler and a virtual machine. The machine loads a bytecode file,
-- fetches opcodes from its memory, and runs instructions on an operand stack, a call stack and a heap,
-- which live in one paged address space of 32 bits. The assembler lays out parsed statements in a first
-- pass, which gives every label its address, and encodes them in a second one. This development models
-- the machine, both passes of the assembler, the tokeniser, from which the parser of the compiler takes
-- its tokens, the constant folder, which rewrites the syntax trees between the analysis and the generation
-- of code, and the table of functions of the analysis.
--
--   Isa               src/include/ISA.h: opcodes and value types, with their bytes
--   Vm/State          src/vm/VM.h and the managers' headers: all registers and stacks as one record
--   Vm/Values         src/vm/OperandStack.h (struct Value), src/vm/TypeConversions.cpp
--   Vm/Float          the parameter for the arithmetic of float and double
--   Vm/Arithmetic     src/vm/ArithmeticOps.cpp: Numeric, Bitwise, Compare; theorems in Integers, Order,
--                     Complement
--   Vm/OperandStack   src/vm/OperandStack.cpp
--   Vm/Memory         src/vm/memory/MemoryManager.cpp; the flat view in Flat, Words and Access
--   Vm/CallStack      src/vm/memory/CallStackManager.cpp; calls with their returns in Return
--   Vm/HeapManager    src/vm/memory/HeapManager.cpp; the free list in FreeList, with its order in
--                     Ordered and Release, refills in Refill; alloc with free in Free
--   Vm/Native         src/vm/NativeFunctionManager.h; UTF-8 in Utf8
--   Vm/Fetch          src/vm/VM.cpp: operand fetches and frame addresses
--   Vm/Instructions   src/vm/VM.cpp: the execute functions
--   Vm/Run            src/vm/VM.cpp: execute and runProgram
--   Vm/FileHeader     src/vm/VM.cpp: the fields of the header of a file
--   Vm/Metadata       src/vm/VM.cpp: the walks of readBytecode over the metadata tables; Walks
--   Vm/Start          src/vm/VM.cpp: the constructor, readBytecode and run; Loaded, Running
--   Vm/ErrorHandler   src/vm/RuntimeErrorHandler.cpp: tables and lookups; the report of an error in Report,
--                     Lookup, Expected and Complete
--   Vm/Safety         the invariant of the machine and its preservation by every instruction
--   Assembler/Defs    src/assembler/AssemblerDefs.h: statements and the tables of mnemonics
--   Assembler/Numbers std::stoll and its relatives, and the exceptions of the assembler
--   Assembler/Labels  src/assembler/Assembler.h and Assembler.cpp: label references and the label table
--   Assembler/Layout  src/assembler/Assembler.cpp: the first pass, constructLabelTable
--   Assembler/Encode  src/assembler/Assembler.cpp: the conversions to bytes
--   Assembler/Bytecode src/assembler/Assembler.cpp: generateBytecode and assembleFromTokens
--   Assembler/Sizes   the number of bytes of each statement, against which the passes are measured in
--                     DatumSize, FirstPass, SecondPass, Operands and Emission; Passes compares
--                     the two
--   Assembler/Header  the header that the machine reads; Assembled: loading an assembled file; Plain:
--                     loading one that has no metadata
--   Assembler/Decoded, Entries, Written
--                     the metadata that the assembler writes, as the machine reads it
--   Assembler/Resolve labels in the table; Targets and Jumps: the instructions that they name
--   Compiler/Ast      src/compiler/AST.h and LanguageTypes.h: the syntax trees
--   Compiler/Constants, Operators, Folder, Statements
--                     src/compiler/optimiser/ConstantFolder.cpp and Optimiser.cpp
--   Compiler/Meaning, Evaluation
--                     the values of operators and expressions in the language, against which folding is
--                     measured in Agreement, Sound, SoundBinary and Preserved
--   Compiler/Functions  src/compiler/semantic/SymbolTable.cpp: declareFunction; Signatures
--   Compiler/Tokeniser  src/compiler/Tokeniser.cpp and Token.h: Characters, Symbols, Words and Reader are
--                     readToken, Buffer the token buffer; Blanks, Longest, Passing and Stream what they are
--                     measured against
--   Tests             concrete inputs; Tests/Assembler, Compiler, Metadata and Tokeniser for those parts
--
-- A method is a function from the state to an outcome: a result with the next state, a RuntimeError with
-- the state in which it left the method, or behaviour that C++ leaves undefined (signed overflow, an index
-- beyond an array, a cast of a float out of range). Numbers are natural numbers, with the wrap of
-- uint32_t and uint64_t written out; the signed readings are integers.
--
-- The loop of runProgram need not end, so run_program and run take a bound on the number of instructions;
-- the theorems about them hold for every bound and also where it is used up. The loop of readToken goes
-- round once for each comment; read_token gives it one round more than the source has characters left,
-- which is enough. The walks over the metadata have a round for every byte of the file and one more, which
-- is enough for files below 4 GiB. The halving of std::upper_bound has a round more than elements. All
-- other loops are structural.
--
-- Loading a program (start) reads its metadata too (read_metadata): where that reads beyond the file, the
-- start is undefined behaviour, and the run has crashed. The handler that start gives is what a report of
-- an error (handle_runtime_error) looks things up in.
--
-- Not modelled: messages of errors, the decimal text of printed numbers, run with a test scenario,
-- dumpState, the lexer and parser of the assembler, the other parts of the compiler, and the driver.
-- The arithmetic of float and double is the parameter FloatOps, and reading decimal fractions is the
-- parameter FloatText; no theorem assumes anything of them.
pub mod Base
pub mod Isa
pub mod Vm
pub mod Assembler
pub mod Compiler
pub mod Tests
