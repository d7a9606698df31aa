-- ===== src/Decode/WellFormed.antt =====
-- The shape of what `insn_decode` gives.
use mathlib.Core.Bool.{not}
use riscvemu_study.Prelude.{ℕ, ◌==◌, arith, false, Ensures, Ensures-ok, Ensures-fault, Ensures-if}
use riscvemu_study.Insn.{Insn}
use riscvemu_study.Decode.Fields.{opcode}
use riscvemu_study.Decode.IsDecoded.{IsDecoded, HasRegisters, is_jump}
use riscvemu_study.Decode.Readers.{
  insn_itype_read-IsRead, insn_jtype_read-IsRead, insn_utype_read-IsRead,
}
use riscvemu_study.Prelude.{◌≡◌, ◌%◌, ok}
use riscvemu_study.Prelude.Bits.{bit_and_mask}
use riscvemu_study.Decode.Dispatch.{decode_quadrant3, insn_decode}
use riscvemu_study.Decode.Rvc.{decode_quadrant0, decode_quadrant1, decode_quadrant2}
use riscvemu_study.Decode.RvcWellFormed.{
  decode_quadrant0-IsDecoded, decode_quadrant1-IsDecoded, decode_quadrant2-IsDecoded,
}
use riscvemu_study.Decode.BaseWellFormed.{
  decode_branch-IsDecoded, decode_load-IsDecoded, decode_load_fp-IsDecoded,
  decode_misc_mem-IsDecoded, decode_op-IsDecoded, decode_op32-IsDecoded, decode_op_imm-IsDecoded,
  decode_op_imm32-IsDecoded, decode_store-IsDecoded, decode_store_fp-IsDecoded,
  decode_system-IsDecoded,
}
use riscvemu_study.Decode.FloatWellFormed.{
  decode_fmadd-IsDecoded, decode_fmsub-IsDecoded, decode_fnmsub-IsDecoded, decode_fnmadd-IsDecoded,
  decode_op_fp-IsDecoded,
}

decode_quadrant3-IsDecoded :
    (prev : Insn) (word : ℕ)
    → HasRegisters prev
    → prev.rvc ≡ false
    → Ensures (IsDecoded false) (decode_quadrant3 prev word)
unfolding decode_quadrant3 is_jump
decode_quadrant3-IsDecoded prev word h q =
    let op = opcode word in
    Ensures-if (op == 0x0) (decode_load-IsDecoded word) (
      Ensures-if (op == 0x1) (decode_load_fp-IsDecoded word) (
        Ensures-if (op == 0x3) (decode_misc_mem-IsDecoded word) (
          Ensures-if (op == 0x4) (decode_op_imm-IsDecoded word) (
            Ensures-if (op == 0x5)
              (Ensures-ok (let r = insn_utype_read-IsRead word in ground arith))
              (Ensures-if (op == 0x6) (decode_op_imm32-IsDecoded word) (
                Ensures-if (op == 0x8) (decode_store-IsDecoded word) (
                  Ensures-if (op == 0x9) (decode_store_fp-IsDecoded word) (
                    Ensures-if (op == 0xc) (decode_op-IsDecoded word) (
                      Ensures-if (op == 0xd)
                        (Ensures-ok (let r = insn_utype_read-IsRead word in ground arith))
                        (Ensures-if (op == 0xe) (decode_op32-IsDecoded word) (
                          Ensures-if (op == 0x10) (decode_fmadd-IsDecoded word) (
                            Ensures-if (op == 0x11) (decode_fmsub-IsDecoded word) (
                              Ensures-if (op == 0x12) (decode_fnmsub-IsDecoded word) (
                                Ensures-if (op == 0x13) (decode_fnmadd-IsDecoded word) (
                                  Ensures-if (op == 0x14) (decode_op_fp-IsDecoded word) (
                                    Ensures-if (op == 0x18) (decode_branch-IsDecoded word) (
                                      Ensures-if (op == 0x19)
                                        (Ensures-ok
                                          (let r = insn_itype_read-IsRead word in ground arith))
                                        (Ensures-if (op == 0x1b)
                                          (Ensures-ok
                                            (let r = insn_jtype_read-IsRead word in ground arith))
                                          (Ensures-if (op == 0x1c)
                                            (decode_system-IsDecoded prev word h q)
                                            (Ensures-fault))))))))))))))))))))

-- If `insn_decode` decodes a word, over an `*insn` with registers in range and `rvc` clear, then
-- the register numbers of the result are below 32, `rvc` is set exactly when the low two bits of
-- the word are not both set, and `cont` is set exactly on `jal`, `jalr` and `ecall`.
pub insn_decode-IsDecoded :
    (prev : Insn) (word : ℕ) {i : Insn}
    → HasRegisters prev
    → prev.rvc ≡ false
    → insn_decode prev word ≡ ok i
    → IsDecoded (not (word % 4 == 3)) i
unfolding insn_decode
insn_decode-IsDecoded prev word {i} h q e = ground (
  arith,
  bit_and_mask 2 word,
  λ (s : decode_quadrant0 word ≡ ok i). (decode_quadrant0-IsDecoded word).holds i s,
  λ (s : decode_quadrant1 word ≡ ok i). (decode_quadrant1-IsDecoded word).holds i s,
  λ (s : decode_quadrant2 word ≡ ok i). (decode_quadrant2-IsDecoded word).holds i s,
  λ (s : decode_quadrant3 prev word ≡ ok i). (decode_quadrant3-IsDecoded prev word h q).holds i s,
)
