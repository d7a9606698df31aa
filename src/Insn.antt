-- ===== src/Insn.antt =====
-- `enum insn_type_t` and `insn_t` of inc/riscvemu.h. A register number is a number below 32, and
-- `imm` is the bit pattern of the i32.
use riscvemu_study.Prelude.{ℕ, Bool, false}

pub data InsnType : Type 0 where
  lb lh lw ld lbu lhu lwu : InsnType
  fence fence_i : InsnType
  addi slli slti sltiu xori srli srai ori andi auipc addiw slliw srliw sraiw : InsnType
  sb sh sw sd : InsnType
  add sll slt sltu xor srl or and : InsnType
  mul mulh mulhsu mulhu div divu rem remu : InsnType
  sub sra lui : InsnType
  addw sllw srlw mulw divw divuw remw remuw subw sraw : InsnType
  beq bne blt bge bltu bgeu : InsnType
  jalr jal ecall : InsnType
  csrrc csrrci csrrs csrrsi csrrw csrrwi : InsnType
  flw fsw : InsnType
  fmadd_s fmsub_s fnmsub_s fnmadd_s fadd_s fsub_s fmul_s fdiv_s fsqrt_s : InsnType
  fsgnj_s fsgnjn_s fsgnjx_s : InsnType
  fmin_s fmax_s : InsnType
  fcvt_w_s fcvt_wu_s fmv_x_w : InsnType
  feq_s flt_s fle_s fclass_s : InsnType
  fcvt_s_w fcvt_s_wu fmv_w_x fcvt_l_s fcvt_lu_s : InsnType
  fcvt_s_l fcvt_s_lu : InsnType
  fld fsd : InsnType
  fmadd_d fmsub_d fnmsub_d fnmadd_d : InsnType
  fadd_d fsub_d fmul_d fdiv_d fsqrt_d : InsnType
  fsgnj_d fsgnjn_d fsgnjx_d : InsnType
  fmin_d fmax_d : InsnType
  fcvt_s_d fcvt_d_s : InsnType
  feq_d flt_d fle_d fclass_d : InsnType
  fcvt_w_d fcvt_wu_d fcvt_d_w fcvt_d_wu : InsnType
  fcvt_l_d fcvt_lu_d : InsnType
  fmv_x_d fcvt_d_l fcvt_d_lu fmv_d_x : InsnType

pub record Insn : Type 0 where
  pub rd : ℕ
  pub rs1 : ℕ
  pub rs2 : ℕ
  pub rs3 : ℕ
  pub imm : ℕ
  pub csr : ℕ
  pub type : InsnType
  pub rvc : Bool
  pub cont : Bool

-- `{0}`: what a designated initialiser leaves out is 0, and `insn_lb` is 0.
abbrev pub zeroed : Insn
zeroed = record {
  rd = 0;
  rs1 = 0;
  rs2 = 0;
  rs3 = 0;
  imm = 0;
  csr = 0;
  type = InsnType.lb;
  rvc = false;
  cont = false;
}
