-- ===== src/Codegen/Control.antt =====
-- The branches, jumps and system calls of src/codegen.c, and what it leaves to the interpreter.
use riscvemu_study.Prelude.{
  ℕ, ◌+◌, ◌==◌, ◌||◌, if◌then◌else◌, true, [], ◌∷◌, ◌++◌, sext, u64, Run, ok, fault, fatal,
}
use riscvemu_study.Insn.{Insn}
use riscvemu_study.State.{ExitReason}
use riscvemu_study.Interp.Control.{insn_size}
use riscvemu_study.Codegen.Source.{
  CType, Op, rs1, rs2, var, lit_ll, lit_ull, lit_int, cast, bit_not, bin, plus, band, int64_t,
  uint64_t, uint64_t, equal, not_equal, less, greater_eq, goto_insn, goto_end, close, set_gp,
  branch, set_reason, set_reenter,
}
use riscvemu_study.Codegen.Emit.{Emission, emission, reg_get, reg_set_val}

abbrev pub emit_empty : Insn → Emission
emit_empty i = emission [] [] []

-- `pc + (i64)insn->imm`
abbrev pub target_addr : Insn → ℕ → ℕ
target_addr i pc = u64 (pc + sext 32 i.imm)

unfoldable pub emit_branch : CType → Op → Insn → ℕ → Emission
unfolding reg_get
emit_branch typ op i pc =
    record (emission (reg_get i.rs1 rs1 ∷ reg_get i.rs2 rs2 ∷ branch typ op (target_addr i pc) ∷ [])
      (i.rs1 ∷ i.rs2 ∷ []) []) { targets = target_addr i pc ∷ [] }

abbrev pub emit_beq : Insn → ℕ → Emission
emit_beq = emit_branch uint64_t equal

abbrev pub emit_bne : Insn → ℕ → Emission
emit_bne = emit_branch uint64_t not_equal

abbrev pub emit_blt : Insn → ℕ → Emission
emit_blt = emit_branch int64_t less

abbrev pub emit_bge : Insn → ℕ → Emission
emit_bge = emit_branch int64_t greater_eq

abbrev pub emit_bltu : Insn → ℕ → Emission
emit_bltu = emit_branch uint64_t less

abbrev pub emit_bgeu : Insn → ℕ → Emission
emit_bgeu = emit_branch uint64_t greater_eq

unfoldable pub emit_jalr : Insn → ℕ → Emission
unfolding reg_get reg_set_val
emit_jalr i pc =
    emission
      (reg_get i.rs1 rs1
        ∷ (reg_set_val i.rd (u64 (pc + insn_size i))
            ++ (set_reason ExitReason.indirect_branch
                ∷ set_reenter (
                    bin band (bin plus (var rs1) (cast int64_t (lit_ll (sext 32 i.imm))))
                      (bit_not (cast uint64_t (lit_int 1))))
                ∷ goto_end
                ∷ close
                ∷ [])))
      (i.rs1 ∷ i.rd ∷ []) []

unfoldable pub emit_jal : Insn → ℕ → Emission
unfolding reg_set_val
emit_jal i pc =
    record (emission
      (reg_set_val i.rd (u64 (pc + insn_size i)) ++ (goto_insn (target_addr i pc) ∷ close ∷ []))
      (i.rd ∷ []) []) { targets = target_addr i pc ∷ [] }

abbrev pub emit_ecall : Insn → ℕ → Emission
emit_ecall i pc =
    emission
      (set_reason ExitReason.ecall ∷ set_reenter (lit_ull (u64 (pc + 4))) ∷ goto_end ∷ close ∷ [])
      [] []

-- All six CSR instructions
abbrev pub emit_csr : Insn → Run Emission
emit_csr i =
    if (i.csr == 1) || (i.csr == 2) || (i.csr == 3)
    then ok (
        if i.rd == 0
        then emission [] [] []
        else emission (set_gp i.rd (lit_int 0) ∷ []) (i.rd ∷ []) [])
    else fault fatal

-- The operations that are left to the interpreter, which is to go on at this instruction
abbrev pub emit_deferred : Insn → ℕ → Emission
emit_deferred i pc =
    record (emission
      (set_reason ExitReason.interp ∷ set_reenter (lit_ull pc) ∷ goto_end ∷ close ∷ []) [] []) {
        deferred = true;
      }
