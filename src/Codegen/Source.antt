-- ===== src/Codegen/Source.antt =====
-- The C text that src/codegen.c prints, line by line: the expressions and statements that its
-- format strings spell.
use riscvemu_study.Prelude.{ℕ, List}
use riscvemu_study.State.{ExitReason}

pub data CType : Type 0 where
  int8_t int16_t int32_t int64_t uint8_t uint16_t uint32_t uint64_t float double : CType

-- The locals of an instruction's block.
pub data Name : Type 0 where
  rs1 rs2 rs3 rd : Name

-- The members of `fp_reg_t`.
pub data View : Type 0 where
  view_v view_w view_d view_f : View

pub data Op : Type 0 where
  times divide modulo plus minus shl shr less less_eq greater greater_eq equal not_equal : Op
  band bxor bor logical_and : Op

-- `lit_ll` is `%ldLL` and `lit_ull` is `%luULL`, of a 64-bit pattern; `lit_int` is `%d` or a
-- number in a format string.
pub data Expr : Type 0 where
  var : Name → Expr
  lit_ll lit_ull lit_int : ℕ → Expr
  lit_uint64_max lit_int64_min : Expr
  cast : CType → Expr → Expr
  neg bit_not : Expr → Expr
  bin : Op → Expr → Expr → Expr
  choose : Expr → Expr → Expr → Expr

-- `open_insn pc` is `insn_<pc>: {` and `close` is `}`; `assign_if` is an `if` with its `else if`s
-- and `else`, which assign to `rd`; `branch` is an `if` around a `goto`.
-- `header` is the text up to the opening brace of `start`, with the types that it declares, and
-- `footer` its closing brace; `load_gp r` is `uint64_t x<r> = state->gp_regs[r];`, and `save_gp r`
-- the assignment back.
pub data Line : Type 0 where
  open_insn goto_insn : ℕ → Line
  close goto_end declare_rd : Line
  get_zero : Name → Line
  get_gp : Name → ℕ → Line
  get_fp : CType → Name → View → ℕ → Line
  set_gp : ℕ → Expr → Line
  set_fp : View → ℕ → Expr → Line
  mem_load : CType → Name → Expr → Line
  mem_store : CType → Expr → Name → Line
  assign_if : List (Expr × Expr) → Expr → Line
  branch : CType → Op → ℕ → Line
  set_reason : ExitReason → Line
  set_reenter : Expr → Line
  header end_label footer : Line
  load_gp load_fp save_gp save_fp : ℕ → Line
