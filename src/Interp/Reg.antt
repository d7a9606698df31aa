-- ===== src/Interp/Reg.antt =====
-- The interpreter's operations on two registers, but for multiplication and division.
use riscvemu_study.Prelude.{ℕ, ◌+◌, ◌-◌, ◌^◌, bit_and, bit_or, bit_xor}
use riscvemu_study.Prelude.{ltb, u32, u64, sext, sar32, sar64, ◌<<<◌, ◌>>>◌}
use riscvemu_study.Prelude.Int.{to_i64, ltb_ℤ}
use riscvemu_study.Insn.{Insn}
use riscvemu_study.State.{State, set_rd}
use riscvemu_study.Interp.Imm.{of_bool}

-- `FUNC(expr)` over `rs1` and `rs2`
unfoldable pub reg_op : (ℕ → ℕ → ℕ) → State → Insn → State
unfolding set_rd
reg_op f s i = set_rd s i (f (s.gp_regs i.rs1) (s.gp_regs i.rs2))

-- `rs1 - rs2` on u64
abbrev pub sub_u64 : ℕ → ℕ → ℕ
sub_u64 a b = u64 (a + 2 ^ 64 - b)

unfoldable pub func_add : State → Insn → State
func_add = reg_op λ rs1 rs2. rs1 + rs2

unfoldable pub func_sll : State → Insn → State
func_sll = reg_op λ rs1 rs2. rs1 <<< bit_and rs2 0x3f

unfoldable pub func_slt : State → Insn → State
func_slt = reg_op λ rs1 rs2. of_bool (ltb_ℤ (to_i64 rs1) (to_i64 rs2))

unfoldable pub func_sltu : State → Insn → State
func_sltu = reg_op λ rs1 rs2. of_bool (ltb rs1 rs2)

unfoldable pub func_xor : State → Insn → State
func_xor = reg_op λ rs1 rs2. bit_xor rs1 rs2

unfoldable pub func_srl : State → Insn → State
func_srl = reg_op λ rs1 rs2. rs1 >>> bit_and rs2 0x3f

unfoldable pub func_or : State → Insn → State
func_or = reg_op λ rs1 rs2. bit_or rs1 rs2

unfoldable pub func_and : State → Insn → State
func_and = reg_op λ rs1 rs2. bit_and rs1 rs2

unfoldable pub func_sub : State → Insn → State
func_sub = reg_op λ rs1 rs2. sub_u64 rs1 rs2

unfoldable pub func_sra : State → Insn → State
func_sra = reg_op λ rs1 rs2. sar64 rs1 (bit_and rs2 0x3f)

unfoldable pub func_addw : State → Insn → State
func_addw = reg_op λ rs1 rs2. sext 32 (u32 (rs1 + rs2))

unfoldable pub func_sllw : State → Insn → State
func_sllw = reg_op λ rs1 rs2. sext 32 (u32 (u64 (rs1 <<< bit_and rs2 0x1f)))

unfoldable pub func_srlw : State → Insn → State
func_srlw = reg_op λ rs1 rs2. sext 32 (u32 rs1 >>> bit_and rs2 0x1f)

unfoldable pub func_subw : State → Insn → State
func_subw = reg_op λ rs1 rs2. sext 32 (u32 (sub_u64 rs1 rs2))

unfoldable pub func_sraw : State → Insn → State
func_sraw = reg_op λ rs1 rs2. sext 32 (sar32 (u32 rs1) (bit_and rs2 0x1f))
