-- ===== src/Interp/Float.antt =====
-- The interpreter's floating-point operations. The arithmetic is the host's, a parameter.
use riscvemu_study.Prelude.{ℕ, ◌+◌, ◌*◌, ◌/◌, ◌^◌, if◌then◌else◌, Bool, u32, sext, update, bit_or}
use riscvemu_study.Insn.{Insn}
use riscvemu_study.State.{State, set_rd}
use riscvemu_study.Interp.Imm.{of_bool}
use riscvemu_study.Interp.Memory.{set_frd, nan_box}
use riscvemu_study.Interp.FloatBits.{fsgnj32, fsgnj64, f32_classify, f64_classify}

-- What the C operators, casts and math.h functions do on one float type, over bit patterns;
-- integers are 64-bit patterns.
pub record FloatOps : Type 0 where
  pub plus : ℕ → ℕ → ℕ
  pub minus : ℕ → ℕ → ℕ
  pub times : ℕ → ℕ → ℕ
  pub over : ℕ → ℕ → ℕ
  pub negated : ℕ → ℕ
  pub square_root : ℕ → ℕ
  pub lt : ℕ → ℕ → Bool
  pub le : ℕ → ℕ → Bool
  pub eq : ℕ → ℕ → Bool
  pub llrint : ℕ → ℕ
  pub of_signed : ℕ → ℕ
  pub of_unsigned : ℕ → ℕ

pub record Fpu : Type 0 where
  pub f32 : FloatOps
  pub f64 : FloatOps
  pub widen : ℕ → ℕ
  pub narrow : ℕ → ℕ

-- The views `.f` and `.d` of a register. A write through `.f` leaves the upper half.
abbrev pub get_f : State → ℕ → ℕ
get_f s r = u32 (s.fp_regs r)

unfoldable pub set_f : State → Insn → ℕ → State
set_f s i x = record s {
  fp_regs = update s.fp_regs i.rd (s.fp_regs i.rd / 2 ^ 32 * 2 ^ 32 + u32 x);
}

-- `FUNC(expr)` over `rs1`, `rs2` and `rs3`, for either float type
unfoldable pub fused_s : (ℕ → ℕ → ℕ → ℕ) → State → Insn → State
unfolding set_f
fused_s f s i = set_f s i (f (get_f s i.rs1) (get_f s i.rs2) (get_f s i.rs3))

unfoldable pub fused_d : (ℕ → ℕ → ℕ → ℕ) → State → Insn → State
unfolding set_frd
fused_d f s i = set_frd s i (f (s.fp_regs i.rs1) (s.fp_regs i.rs2) (s.fp_regs i.rs3))

unfoldable pub arith_s : (ℕ → ℕ → ℕ) → State → Insn → State
unfolding set_f
arith_s f s i = set_f s i (f (get_f s i.rs1) (get_f s i.rs2))

unfoldable pub arith_d : (ℕ → ℕ → ℕ) → State → Insn → State
unfolding set_frd
arith_d f s i = set_frd s i (f (s.fp_regs i.rs1) (s.fp_regs i.rs2))

unfoldable pub compare_s : (ℕ → ℕ → Bool) → State → Insn → State
unfolding set_rd
compare_s f s i = set_rd s i (of_bool (f (get_f s i.rs1) (get_f s i.rs2)))

unfoldable pub compare_d : (ℕ → ℕ → Bool) → State → Insn → State
unfolding set_rd
compare_d f s i = set_rd s i (of_bool (f (s.fp_regs i.rs1) (s.fp_regs i.rs2)))

-- The four multiply-adds of a type, by `f.plus` and `f.minus`
abbrev pub fmadd : FloatOps → ℕ → ℕ → ℕ → ℕ
fmadd f a b c = f.plus (f.times a b) c

abbrev pub fmsub : FloatOps → ℕ → ℕ → ℕ → ℕ
fmsub f a b c = f.minus (f.times a b) c

abbrev pub fnmsub : FloatOps → ℕ → ℕ → ℕ → ℕ
fnmsub f a b c = f.plus (f.negated (f.times a b)) c

abbrev pub fnmadd : FloatOps → ℕ → ℕ → ℕ → ℕ
fnmadd f a b c = f.minus (f.negated (f.times a b)) c

-- `rs1 < rs2 ? rs1 : rs2` and `rs1 > rs2 ? rs1 : rs2`
abbrev pub fmin : FloatOps → ℕ → ℕ → ℕ
fmin f a b = if f.lt a b then a else b

abbrev pub fmax : FloatOps → ℕ → ℕ → ℕ
fmax f a b = if f.lt b a then a else b

unfoldable pub func_fsgnj_s : Bool → Bool → State → Insn → State
unfolding set_frd
func_fsgnj_s n x s i = set_frd s i (bit_or (fsgnj32 (get_f s i.rs1) (get_f s i.rs2) n x) nan_box)

unfoldable pub func_fsgnj_d : Bool → Bool → State → Insn → State
unfolding set_frd
func_fsgnj_d n x s i = set_frd s i (fsgnj64 (s.fp_regs i.rs1) (s.fp_regs i.rs2) n x)

-- From a float to an integer: the 32-bit forms go through i32, the signed and the unsigned alike.
unfoldable pub to_word_s : FloatOps → State → Insn → State
unfolding set_rd
to_word_s f s i = set_rd s i (sext 32 (u32 (f.llrint (get_f s i.rs1))))

unfoldable pub to_word_d : FloatOps → State → Insn → State
unfolding set_rd
to_word_d f s i = set_rd s i (sext 32 (u32 (f.llrint (s.fp_regs i.rs1))))

unfoldable pub to_long_s : FloatOps → State → Insn → State
unfolding set_rd
to_long_s f s i = set_rd s i (f.llrint (get_f s i.rs1))

unfoldable pub to_long_d : FloatOps → State → Insn → State
unfolding set_rd
to_long_d f s i = set_rd s i (f.llrint (s.fp_regs i.rs1))

-- From an integer to a float, after the cast `c` of the register
unfoldable pub from_int_s : (ℕ → ℕ) → (ℕ → ℕ) → State → Insn → State
unfolding set_f
from_int_s f c s i = set_f s i (f (c (s.gp_regs i.rs1)))

unfoldable pub from_int_d : (ℕ → ℕ) → (ℕ → ℕ) → State → Insn → State
unfolding set_frd
from_int_d f c s i = set_frd s i (f (c (s.gp_regs i.rs1)))

-- `(i32)x` as a 64-bit integer
abbrev pub i32_of : ℕ → ℕ
i32_of x = sext 32 (u32 x)

unfoldable pub func_fmv_x_w : State → Insn → State
unfolding set_rd
func_fmv_x_w s i = set_rd s i (sext 32 (get_f s i.rs1))

unfoldable pub func_fmv_w_x : State → Insn → State
unfolding set_f
func_fmv_w_x s i = set_f s i (s.gp_regs i.rs1)

unfoldable pub func_fmv_x_d : State → Insn → State
unfolding set_rd
func_fmv_x_d s i = set_rd s i (s.fp_regs i.rs1)

unfoldable pub func_fmv_d_x : State → Insn → State
unfolding set_frd
func_fmv_d_x s i = set_frd s i (s.gp_regs i.rs1)

unfoldable pub func_fclass_s : State → Insn → State
unfolding set_rd
func_fclass_s s i = set_rd s i (f32_classify (get_f s i.rs1))

unfoldable pub func_fclass_d : State → Insn → State
unfolding set_rd
func_fclass_d s i = set_rd s i (f64_classify (s.fp_regs i.rs1))

unfoldable pub func_fcvt_s_d : (ℕ → ℕ) → State → Insn → State
unfolding set_f
func_fcvt_s_d narrow s i = set_f s i (narrow (s.fp_regs i.rs1))

unfoldable pub func_fcvt_d_s : (ℕ → ℕ) → State → Insn → State
unfolding set_frd
func_fcvt_d_s widen s i = set_frd s i (widen (get_f s i.rs1))
