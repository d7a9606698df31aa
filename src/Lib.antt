-- ===== src/Lib.antt =====
-- riscvemu, a user-mode RISC-V 64 emulator in C: the decoder, the interpreter, the code generator,
-- the code cache, the system calls and the loops that put them together.
--
-- The emulator runs a guest program block by block. `machine_step` (src/machine.c) asks the code
-- cache (src/cache.c) for a block's machine code; a block that is not hot is interpreted
-- (src/interpret.c), each instruction after `insn_decode` (src/decode.c), and a hot one is printed
-- as C (src/codegen.c), where the stack (src/stack.c) holds the addresses to visit and the set
-- (src/set.c) those visited; `machine_compile` (src/compile.c) puts what clang makes of it into the
-- cache. `machine_step` returns to `main` (src/riscvemu.c) at an `ecall`, for `do_syscall`
-- (src/syscall.c).
--
-- - Prelude: numbers, machine words, bit operations, signed integers, and `Run`, the result of
--   code that may fail: an assertion, `fatal`, `unreachable`, a segmentation fault or a SIGFPE.
-- - Insn: `enum insn_type_t` and `insn_t` of inc/riscvemu.h.
-- - Decode: src/decode.c. Fields has the bit field macros, Formats and Compressed the
--   `insn_*_read` functions, Rvc the quadrants 0 to 2, Base and Float the cases of quadrant 3,
--   Dispatch `insn_decode`; each case of the C switch on the opcode is a function of its own.
--   IsDecoded says what a decoded instruction is, Readers, RvcWellFormed, BaseWellFormed,
--   FloatWellFormed, WellFormed and Over are about it. Encode and Manual have the encodings of the RISC-V
--   manual, written apart from the code; RoundTrip, Codes, InverseOps and Inverse relate the two.
-- - State: `state_t`, and the memory by host address, shared with the guest; Bytes has
--   the laws of loads and stores.
-- - Interp: src/interpret.c and inc/interpret_utils.h. Imm, Reg, MulDiv, Memory, Control and Float
--   have the `func_*` operations, each `FUNC` macro as a function that takes the expression, Funcs
--   the table `funcs`, Block the loop of `exec_block_interp`. Frame and Block/Laws have what holds
--   of every operation and of the loop, Block/Ends that the loop ends; the children of MulDiv have
--   what the products and the divisions mean.
-- - Stack: src/stack.c, with its contents as a list in View.
-- - Set: src/set.c, an open-addressed table of addresses; Laws has its loops, Members what it holds,
--   Free the slots that are left.
-- - Cache: src/cache.c; Counter counts the calls of `cache_hot`, Lookup has the round trip.
-- - Compile: what `machine_compile` of src/compile.c does with the sections of an object file;
--   Relocate is about a relocation, whose store is a segmentation fault outside the cache's mapping.
-- - Machine: `machine_step` of src/machine.c, over the interpreter, the cache, the code generator
--   and the compiler; Laws has what it keeps and returns, Sound how it stops, and a
--   branch to address 0.
--   Setup has `machine_load_program` and `machine_setup`, Copy what `memmove` copies, and Setup/Laws
--   the registers and the count of arguments after it.
-- - Syscall: src/syscall.c, over the host's calls, a parameter. Tables has the two arrays of
--   functions as their initialisers; a read behind an end of one is a segmentation fault. Laws has
--   what a call leaves alone, and the numbers without a call.
-- - Main: the loop of `main` of src/riscvemu.c; Turn is about a round of it, and Start has `main`
--   from the start.
-- - Mmu: `mmu_alloc` of src/mmu.c and `sys_brk` of src/syscall.c, over a kernel that is a parameter;
--   Break has the invariant of the heap, Brk what `sys_brk` does. Elf has the headers of
--   inc/elfdef.h, Load the ELF loader, over a file that is a parameter; Loaded is about the heap
--   that it leaves.
-- - Codegen: src/codegen.c. Source has the C text as data, a line for each statement; Emit has the
--   `FUNC` macros, Memory, Imm, Reg, Float and Control the `func_*` operations, Funcs the table
--   `funcs`, Tracer `tracer_t`, Block `machine_genblock`. Shape reads labels, jumps, braces and
--   registers off the lines. Meaning gives the lines a meaning by the rules of C: Exec runs them,
--   Agrees says what is compared with the interpreter, Words and Same compare it, and Deferred is
--   about what is left to the interpreter. The children of Block are about its loop: Round takes a round apart,
--   Induction has its invariants; Halts, Reached with Pending, Nested with Layout, and Traced with
--   Declared use them.
-- - Str: src/str.c, with what a string holds as a list in Contents.
-- - Tests: concrete runs, and the theorems at them.
--
-- Registers are natural numbers below 2^64, and signed fields hold their two's complement
-- pattern; every place where C wraps is written as a remainder. Shifts of signed values and casts
-- are those of the compilers that the Makefile names: two's complement, arithmetic to the right.
-- Where C leaves a signed overflow open, the model wraps.
--
-- A loop without a bound takes fuel: `exec_block_interp` answers `none` when it runs out, and so
-- do `set_has` and `cache_lookup`. For `cache_lookup`, fuel 33 is enough for an address that is in
-- the table, since `cache_add` stores nothing after more than 32 probes. For `exec_block_interp`,
-- fuel above the distance from the program counter to the end of the mapped memory is enough. For
-- `machine_genblock`, 65538 rounds are enough: a round takes an address off the stack, and a round
-- that puts addresses there, two at most, fills one of the 32768 slots of the set. The loops of
-- `set_add`, `cache_add` and `cache_hot` end by their own count of probes. `machine_step` and
-- `main_loop` hand their fuel on; no fuel is enough for them, since a guest may run for ever.
--
-- The host's floating-point arithmetic (C operators, casts, sqrt, llrint) is a parameter, `Fpu`;
-- no property supposes anything of it. Clang and the processor that runs its code are parameters,
-- `Host`, as are the host's system calls, `Os`, and the kernel's `mmap`, `munmap` and page size,
-- `Kernel`; the properties that need the kernel suppose pages of 4096 bytes. Not modelled: page
-- protection, other threads, the flush of the instruction cache, output, the spelling of the
-- printed C code, the child process of the compiler and the walk over its object file
-- (src/compile.c).
pub mod Cache
pub mod Codegen
pub mod Compile
pub mod Decode
pub mod Insn
pub mod Interp
pub mod Machine
pub mod Main
pub mod Mmu
pub mod Prelude
pub mod Set
pub mod Stack
pub mod State
pub mod Str
pub mod Syscall
pub mod Tests
