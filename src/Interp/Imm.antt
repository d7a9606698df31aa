-- ===== src/Interp/Imm.antt =====
-- The interpreter's operations on a register and an immediate.
use riscvemu_study.Prelude.{ℕ, ◌+◌, bit_and, bit_or, bit_xor}
use riscvemu_study.Prelude.{Bool, true, false, ltb, u32, u64, sext, sar32, sar64, ◌<<<◌, ◌>>>◌}
use riscvemu_study.Prelude.Int.{to_i64, ltb_ℤ}
use riscvemu_study.Insn.{Insn}
use riscvemu_study.State.{State, set_rd}

-- A C truth value.
abbrev pub of_bool : Bool → ℕ
of_bool true = 1
of_bool false = 0

-- `FUNC(expr)` over `rs1` and `imm`
unfoldable pub imm_op : (ℕ → ℕ → ℕ) → State → Insn → State
unfolding set_rd
imm_op f s i = set_rd s i (f (s.gp_regs i.rs1) (sext 32 i.imm))

unfoldable pub func_addi : State → Insn → State
func_addi = imm_op λ rs1 imm. rs1 + imm

unfoldable pub func_slli : State → Insn → State
func_slli = imm_op λ rs1 imm. rs1 <<< bit_and imm 0x3f

unfoldable pub func_slti : State → Insn → State
func_slti = imm_op λ rs1 imm. of_bool (ltb_ℤ (to_i64 rs1) (to_i64 imm))

unfoldable pub func_sltiu : State → Insn → State
func_sltiu = imm_op λ rs1 imm. of_bool (ltb rs1 imm)

unfoldable pub func_xori : State → Insn → State
func_xori = imm_op λ rs1 imm. bit_xor rs1 imm

unfoldable pub func_srli : State → Insn → State
func_srli = imm_op λ rs1 imm. rs1 >>> bit_and imm 0x3f

unfoldable pub func_srai : State → Insn → State
func_srai = imm_op λ rs1 imm. sar64 rs1 (bit_and imm 0x3f)

unfoldable pub func_ori : State → Insn → State
func_ori = imm_op λ rs1 imm. bit_or rs1 imm

unfoldable pub func_andi : State → Insn → State
func_andi = imm_op λ rs1 imm. bit_and rs1 imm

unfoldable pub func_addiw : State → Insn → State
func_addiw = imm_op λ rs1 imm. sext 32 (u32 (rs1 + imm))

unfoldable pub func_slliw : State → Insn → State
func_slliw = imm_op λ rs1 imm. sext 32 (u32 (u64 (rs1 <<< bit_and imm 0x1f)))

unfoldable pub func_srliw : State → Insn → State
func_srliw = imm_op λ rs1 imm. sext 32 (u32 rs1 >>> bit_and imm 0x1f)

unfoldable pub func_sraiw : State → Insn → State
func_sraiw = imm_op λ rs1 imm. sext 32 (sar32 (u32 rs1) (bit_and imm 0x1f))

unfoldable pub func_auipc : State → Insn → State
unfolding set_rd
func_auipc s i = set_rd s i (s.pc + sext 32 i.imm)

unfoldable pub func_lui : State → Insn → State
unfolding set_rd
func_lui s i = set_rd s i (sext 32 i.imm)
