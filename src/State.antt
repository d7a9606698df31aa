-- ===== src/State.antt =====
-- `state_t` and `enum exit_reason_t` of inc/riscvemu.h, and the memory that the emulator shares
-- with the guest.
pub mod Bytes
use riscvemu_study.Prelude.{
  ℕ, zero, suc, ◌+◌, ◌*◌, ◌/◌, ◌%◌, u64, update, Option, Run, ok, fault, segfault, ◌>>=◌,
}
use riscvemu_study.Insn.{Insn}

pub data ExitReason : Type 0 where
  none direct_branch indirect_branch interp ecall halt : ExitReason

-- `fp_regs` holds the view `v` of each `fp_reg_t`.
pub record State : Type 0 where
  pub exit_reason : ExitReason
  pub reenter_pc : ℕ
  pub gp_regs : ℕ → ℕ
  pub fp_regs : ℕ → ℕ
  pub pc : ℕ

-- The bytes of the process, by host address; `none` is an address that is not mapped.
abbrev pub Memory : Type 0
Memory = ℕ → Option ℕ

pub record World : Type 0 where
  pub state : State
  pub memory : Memory

-- `TO_HOST`, in u64 arithmetic
abbrev pub guest_memory_offset : ℕ
guest_memory_offset = 0x088800000000

unfoldable pub to_host : ℕ → ℕ
to_host addr = u64 (addr + guest_memory_offset)

unfoldable pub byte_at : Memory → ℕ → Run ℕ
byte_at m a = elim (m a) [ Option.none ↦ fault segfault | Option.some b ↦ ok b ]

-- `*(uN *)a`, little endian, of `n` bytes
unfoldable pub load_bytes : Memory → ℕ → ℕ → Run ℕ
load_bytes m a zero = ok 0
load_bytes m a (suc n) = do
  b ← byte_at m a
  rest ← load_bytes m (u64 (a + 1)) n
  ok (b + 256 * rest)

-- `*(uN *)a = v`
unfoldable pub store_bytes : Memory → ℕ → ℕ → ℕ → Run Memory
store_bytes m a zero v = ok m
store_bytes m a (suc n) v = do
  old ← byte_at m a
  store_bytes (update m a (Option.some (v % 256))) (u64 (a + 1)) n (v / 256)

-- `state->gp_regs[insn->rd] = v`, converted to u64
unfoldable pub set_rd : State → Insn → ℕ → State
set_rd s i v = record s { gp_regs = update s.gp_regs i.rd (u64 v) }
