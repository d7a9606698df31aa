-- ===== src/Codegen/Shape/Operations.antt =====
-- The shape of what each operation prints.
use riscvemu_study.Prelude.{
  ℕ, ◌<◌, ◌≡◌, ◌≢◌, arith, [], Bool, ok, true, if◌then◌else◌, ◌||◌, some, All, length, ◌≤◌,
}
use riscvemu_study.Insn.{InsnType, Insn, lb}
use riscvemu_study.Decode.IsDecoded.{is_jump, HasRegisters}
use riscvemu_study.Codegen.Emit.{
  Emission, reg_get, reg_set_expr, reg_set_val, emit_load, emit_imm, emit_store, emit_reg, emit_div,
  emit_fload, emit_fstore, emit_fused, emit_arith, emit_compare, emit_from_int, emit_from_float,
  emit_to_int,
}
use riscvemu_study.Codegen.Imm.{emit_auipc, emit_lui}
use riscvemu_study.Codegen.Control.{emit_branch, emit_jalr, emit_jal}
use riscvemu_study.Codegen.Funcs.{emit}
use riscvemu_study.Codegen.Tracer.{add_usage}
use riscvemu_study.Codegen.Shape.{
  labels, jumps, gp_names, fp_names, scan_line, scan, between, inside,
}

-- The macros, unfolded together
unfoldable pub operations : Unit {0}
unfolding reg_get reg_set_expr reg_set_val emit_load emit_imm emit_store emit_reg emit_div
    emit_fload emit_fstore emit_fused emit_arith emit_compare emit_from_int emit_from_float
    emit_to_int emit_auipc emit_lui emit_branch emit_jalr emit_jal
operations = tt

pub emit-jumps :
    (t : InsnType) (i : Insn) (pc : ℕ) {e : Emission}
    → emit t i pc ≡ ok e
    → (jumps e.lines ≡ e.targets) × (labels e.lines ≡ [])
unfolding emit jumps labels operations
emit-jumps lb i pc h = ground arith
emit-jumps _ i pc h = ground arith

pub emit-length :
    (t : InsnType) (i : Insn) (pc : ℕ) {e : Emission} → emit t i pc ≡ ok e → length e.targets ≤ 1
unfolding emit operations
emit-length lb i pc h = ground arith
emit-length _ i pc h = ground arith

pub emit-scan :
    (t : InsnType) (i : Insn) (pc : ℕ) {e : Emission}
    → emit t i pc ≡ ok e
    → scan inside e.lines ≡ some (if is_jump t || e.deferred then between else inside)
unfolding emit scan_line scan operations is_jump
emit-scan lb i pc h = ground arith
emit-scan _ i pc h = ground arith

pub emit-gp_names :
    (t : InsnType) (i : Insn) (pc : ℕ) (used : ℕ → Bool) {e : Emission}
    → HasRegisters i
    → emit t i pc ≡ ok e
    → All (λ r. (r ≢ 0) × (r < 32) × (add_usage e.gp_used used r ≡ true)) (gp_names e.lines)
unfolding emit gp_names add_usage operations
emit-gp_names lb i pc used k h = ground arith
emit-gp_names _ i pc used k h = ground arith

pub emit-fp_names :
    (t : InsnType) (i : Insn) (pc : ℕ) (used : ℕ → Bool) {e : Emission}
    → HasRegisters i
    → emit t i pc ≡ ok e
    → All (λ r. (r < 32) × (add_usage e.fp_used used r ≡ true)) (fp_names e.lines)
unfolding emit fp_names add_usage operations
emit-fp_names lb i pc used k h = ground arith
emit-fp_names _ i pc used k h = ground arith
