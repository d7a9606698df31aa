-- ===== src/Codegen/Emit.antt =====
-- What an operation of src/codegen.c does, and the macros that they share.
use riscvemu_study.Prelude.{ℕ, ◌==◌, if◌then◌else◌, Bool, false, List, [], ◌∷◌, ◌++◌, sext}
use riscvemu_study.Insn.{Insn}
use riscvemu_study.Codegen.Source.{
  CType, Name, View, Expr, Line, rs1, rs2, rs3, rd, view_v, var, lit_ll, cast, bin, plus, int64_t,
  uint64_t, get_zero, get_gp, get_fp, set_gp, set_fp, mem_load, mem_store,
}

-- The lines that an operation appends to `s`, the registers that it adds to the tracer, the
-- addresses that it pushes on the stack, and whether it sets `insn->cont`.
pub record Emission : Type 0 where
  pub lines : List Line
  pub gp_used : List ℕ
  pub fp_used : List ℕ
  pub targets : List ℕ
  pub deferred : Bool

abbrev pub emission : List Line → List ℕ → List ℕ → Emission
emission lines gp_used fp_used = record {
  lines = lines;
  gp_used = gp_used;
  fp_used = fp_used;
  targets = [];
  deferred = false;
}

unfoldable pub reg_set_expr : ℕ → Expr → List Line
reg_set_expr reg e = if reg == 0 then [] else set_gp reg e ∷ []

unfoldable pub reg_set_val : ℕ → ℕ → List Line
reg_set_val reg val = if reg == 0 then [] else set_gp reg (lit_ll val) ∷ []

unfoldable pub reg_get : ℕ → Name → Line
reg_get reg name = if reg == 0 then get_zero name else get_gp name reg

-- `rs1 + (int64_t)%ldLL`
abbrev pub address : Insn → Expr
address i = bin plus (var rs1) (cast int64_t (lit_ll (sext 32 i.imm)))

-- The `FUNC` macros
unfoldable pub emit_load : CType → Insn → Emission
unfolding reg_get reg_set_expr
emit_load typ i =
    emission (reg_get i.rs1 rs1 ∷ mem_load typ rd (address i) ∷ reg_set_expr i.rd (var rd))
      (i.rs1 ∷ i.rd ∷ []) []

unfoldable pub emit_imm : Expr → Insn → Emission
unfolding reg_get reg_set_expr
emit_imm e i = emission (reg_get i.rs1 rs1 ∷ reg_set_expr i.rd e) (i.rs1 ∷ i.rd ∷ []) []

unfoldable pub emit_store : CType → Insn → Emission
unfolding reg_get
emit_store typ i =
    emission (reg_get i.rs1 rs1 ∷ reg_get i.rs2 rs2 ∷ mem_store typ (address i) rs2 ∷ [])
      (i.rs1 ∷ i.rs2 ∷ []) []

unfoldable pub emit_reg : Expr → Insn → Emission
unfolding reg_get reg_set_expr
emit_reg e i =
    emission (reg_get i.rs1 rs1 ∷ reg_get i.rs2 rs2 ∷ reg_set_expr i.rd e)
      (i.rs1 ∷ i.rs2 ∷ i.rd ∷ []) []

-- With the statements `lines` before the assignment
unfoldable pub emit_div : List Line → Insn → Emission
unfolding reg_get reg_set_expr
emit_div lines i =
    emission (reg_get i.rs1 rs1 ∷ reg_get i.rs2 rs2 ∷ (lines ++ reg_set_expr i.rd (var rd)))
      (i.rs1 ∷ i.rs2 ∷ i.rd ∷ []) []

unfoldable pub emit_fload : CType → Expr → Insn → Emission
unfolding reg_get
emit_fload typ e i =
    emission (reg_get i.rs1 rs1 ∷ mem_load typ rd (address i) ∷ set_fp view_v i.rd e ∷ [])
      (i.rs1 ∷ []) (i.rd ∷ [])

unfoldable pub emit_fstore : CType → Insn → Emission
unfolding reg_get
emit_fstore typ i =
    emission
      (reg_get i.rs1 rs1 ∷ get_fp uint64_t rs2 view_v i.rs2 ∷ mem_store typ (address i) rs2 ∷ [])
      (i.rs1 ∷ []) (i.rs2 ∷ [])

unfoldable pub emit_fused : CType → View → Expr → Insn → Emission
emit_fused typ view e i =
    emission
      (get_fp typ rs1 view i.rs1
        ∷ get_fp typ rs2 view i.rs2
        ∷ get_fp typ rs3 view i.rs3
        ∷ set_fp view i.rd e
        ∷ [])
      [] (i.rs1 ∷ i.rs2 ∷ i.rs3 ∷ i.rd ∷ [])

unfoldable pub emit_arith : CType → View → Expr → Insn → Emission
emit_arith typ view e i =
    emission (get_fp typ rs1 view i.rs1 ∷ get_fp typ rs2 view i.rs2 ∷ set_fp view i.rd e ∷ []) []
      (i.rs1 ∷ i.rs2 ∷ i.rd ∷ [])

unfoldable pub emit_compare : CType → View → Expr → Insn → Emission
unfolding reg_set_expr
emit_compare typ view e i =
    emission (get_fp typ rs1 view i.rs1 ∷ get_fp typ rs2 view i.rs2 ∷ reg_set_expr i.rd e)
      (i.rd ∷ []) (i.rs1 ∷ i.rs2 ∷ [])

-- The conversions and moves, which are written out in the source: into a floating-point register
-- from an integer register or from another, and into an integer register.
unfoldable pub emit_from_int : View → Expr → Insn → Emission
unfolding reg_get
emit_from_int view e i =
    emission (reg_get i.rs1 rs1 ∷ set_fp view i.rd e ∷ []) (i.rs1 ∷ []) (i.rd ∷ [])

unfoldable pub emit_from_float : CType → View → View → Expr → Insn → Emission
emit_from_float typ from to e i =
    emission (get_fp typ rs1 from i.rs1 ∷ set_fp to i.rd e ∷ []) [] (i.rs1 ∷ i.rd ∷ [])

unfoldable pub emit_to_int : CType → View → Expr → Insn → Emission
unfolding reg_set_expr
emit_to_int typ view e i =
    emission (get_fp typ rs1 view i.rs1 ∷ reg_set_expr i.rd e) (i.rd ∷ []) (i.rs1 ∷ [])
