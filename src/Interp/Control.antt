-- ===== src/Interp/Control.antt =====
-- The interpreter's branches, jumps, system calls and CSR accesses.
use mathlib.Core.Bool.{not}
use riscvemu_study.Prelude.{
  ℕ, ◌+◌, ◌-◌, ◌^◌, ◌==◌, ltb, if◌then◌else◌, Bool, true, u64, sext, bit_and, Run, ok, fault, fatal,
  ◌||◌,
}
use riscvemu_study.Prelude.Int.{to_i64, ltb_ℤ}
use riscvemu_study.Insn.{Insn}
use riscvemu_study.State.{State, ExitReason, set_rd}

-- `FUNC(expr)` of the branches; `insn->cont` tells the loop that the branch is taken.
unfoldable pub branch_op : (ℕ → ℕ → Bool) → State → Insn → State × Insn
branch_op test s i =
    let target = u64 (s.pc + sext 32 i.imm) in
    if test (s.gp_regs i.rs1) (s.gp_regs i.rs2)
    then (
      record s { reenter_pc = target; pc = target; exit_reason = ExitReason.direct_branch },
      record i { cont = true },
    )
    else (s, i)

unfoldable pub func_beq : State → Insn → State × Insn
func_beq = branch_op λ rs1 rs2. rs1 == rs2

unfoldable pub func_bne : State → Insn → State × Insn
func_bne = branch_op λ rs1 rs2. not (rs1 == rs2)

unfoldable pub func_blt : State → Insn → State × Insn
func_blt = branch_op λ rs1 rs2. ltb_ℤ (to_i64 rs1) (to_i64 rs2)

unfoldable pub func_bge : State → Insn → State × Insn
func_bge = branch_op λ rs1 rs2. not (ltb_ℤ (to_i64 rs1) (to_i64 rs2))

unfoldable pub func_bltu : State → Insn → State × Insn
func_bltu = branch_op λ rs1 rs2. ltb rs1 rs2

unfoldable pub func_bgeu : State → Insn → State × Insn
func_bgeu = branch_op λ rs1 rs2. not (ltb rs1 rs2)

-- `insn->rvc ? 2 : 4`
abbrev pub insn_size : Insn → ℕ
insn_size i = if i.rvc then 2 else 4

unfoldable pub func_jalr : State → Insn → State
unfolding set_rd
func_jalr s i =
    let rs1 = s.gp_regs i.rs1 in
    record (set_rd s i (s.pc + insn_size i)) {
      exit_reason = ExitReason.indirect_branch;
      reenter_pc = bit_and (u64 (rs1 + sext 32 i.imm)) (2 ^ 64 - 2);
    }

unfoldable pub func_jal : State → Insn → State
unfolding set_rd
func_jal s i =
    let target = u64 (s.pc + sext 32 i.imm) in
    record (set_rd s i (s.pc + insn_size i)) {
      reenter_pc = target;
      pc = target;
      exit_reason = ExitReason.direct_branch;
    }

unfoldable pub func_ecall : State → Insn → State
func_ecall s i = record s { exit_reason = ExitReason.ecall; reenter_pc = u64 (s.pc + 4) }

unfoldable pub func_empty : State → Insn → State
func_empty s i = s

-- All six CSR instructions: `fflags`, `frm` and `fcsr` read as 0, any other is fatal.
unfoldable pub func_csr : State → Insn → Run State
unfolding set_rd
func_csr s i =
    if (i.csr == 1) || (i.csr == 2) || (i.csr == 3) then ok (set_rd s i 0) else fault fatal
