-- ===== src/Decode/RvcWellFormed.antt =====
-- `IsDecoded` for the compressed quadrants.
use mathlib.Core.Bool.{not}
use riscvemu_study.Prelude.{
  ℕ, ◌==◌, ◌&&◌, refl, arith, true, u16, Ensures, Ensures-ok, Ensures-fault, Ensures-if,
  Ensures-assert,
}
use riscvemu_study.Decode.Fields.{copcode, rc1, cfunct1, cfunct2high}
use riscvemu_study.Decode.IsDecoded.{
  IsDecoded, is_jump, pick-IsStraight, typed-IsDecoded, with_imm-IsDecoded, with_rd-IsDecoded,
}
use riscvemu_study.Decode.Readers.{
  insn_catype_read-IsRead, insn_cbtype_read-IsRead, insn_cbtype_read2-IsRead,
  insn_citype_read-IsRead, insn_citype_read2-IsRead, insn_citype_read3-IsRead,
  insn_citype_read4-IsRead, insn_citype_read5-IsRead, insn_ciwtype_read-IsRead,
  insn_cjtype_read-IsRead, insn_cltype_read-IsRead, insn_cltype_read2-IsRead,
  insn_crtype_read-IsRead, insn_csstype_read-IsRead, insn_csstype_read2-IsRead,
  insn_cstype_read-IsRead, insn_cstype_read2-IsRead,
}
use riscvemu_study.Decode.Compressed.{insn_crtype_read}
use riscvemu_study.Decode.Rvc.{
  decode_quadrant0, decode_quadrant1, decode_quadrant2, decode_c_lui, decode_c_alu, decode_c_jump,
}

pub decode_quadrant0-IsDecoded : (word : ℕ) → Ensures (IsDecoded true) (decode_quadrant0 word)
unfolding decode_quadrant0 is_jump
decode_quadrant0-IsDecoded word =
    let op = copcode word in
    Ensures-if (op == 0x0)
      (with_imm-IsDecoded (let r = insn_ciwtype_read-IsRead (u16 word) in ground arith))
      (Ensures-if (op == 0x1)
        (Ensures-ok (let r = insn_cltype_read2-IsRead (u16 word) in ground arith))
        (Ensures-if (op == 0x2)
          (Ensures-ok (let r = insn_cltype_read-IsRead (u16 word) in ground arith))
          (Ensures-if (op == 0x3)
            (Ensures-ok (let r = insn_cltype_read2-IsRead (u16 word) in ground arith))
            (Ensures-if (op == 0x5)
              (Ensures-ok (let r = insn_cstype_read-IsRead (u16 word) in ground arith))
              (Ensures-if (op == 0x6)
                (Ensures-ok (let r = insn_cstype_read2-IsRead (u16 word) in ground arith))
                (Ensures-if (op == 0x7)
                  (Ensures-ok (let r = insn_cstype_read-IsRead (u16 word) in ground arith))
                  (Ensures-fault)))))))

decode_c_lui-IsDecoded : (word : ℕ) → Ensures (IsDecoded true) (decode_c_lui word)
unfolding decode_c_lui is_jump
decode_c_lui-IsDecoded word =
    Ensures-if (rc1 word == 2)
      (with_imm-IsDecoded (let r = insn_citype_read3-IsRead (u16 word) in ground arith))
      (with_imm-IsDecoded (let r = insn_citype_read5-IsRead (u16 word) in ground arith))

decode_c_alu-IsDecoded : (word : ℕ) → Ensures (IsDecoded true) (decode_c_alu word)
unfolding decode_c_alu is_jump
decode_c_alu-IsDecoded word =
    let high = cfunct2high word in
    Ensures-if (high == 0x0)
      (Ensures-ok (let r = insn_cbtype_read2-IsRead (u16 word) in ground arith))
      (Ensures-if (high == 0x1)
        (Ensures-ok (let r = insn_cbtype_read2-IsRead (u16 word) in ground arith))
        (Ensures-if (high == 0x2)
          (Ensures-ok (let r = insn_cbtype_read2-IsRead (u16 word) in ground arith))
          (Ensures-if (cfunct1 word == 0x0)
            (typed-IsDecoded _ (let r = insn_catype_read-IsRead (u16 word) in ground arith)
              (pick-IsStraight _ _ refl))
            (typed-IsDecoded _ (let r = insn_catype_read-IsRead (u16 word) in ground arith)
              (pick-IsStraight _ _ refl)))))

pub decode_quadrant1-IsDecoded : (word : ℕ) → Ensures (IsDecoded true) (decode_quadrant1 word)
unfolding decode_quadrant1 is_jump
decode_quadrant1-IsDecoded word =
    let op = copcode word in
    Ensures-if (op == 0x0) (Ensures-ok (let r = insn_citype_read-IsRead (u16 word) in ground arith))
      (Ensures-if (op == 0x1)
        (with_rd-IsDecoded (let r = insn_citype_read-IsRead (u16 word) in ground arith))
        (Ensures-if (op == 0x2)
          (Ensures-ok (let r = insn_citype_read-IsRead (u16 word) in ground arith))
          (Ensures-if (op == 0x3) (decode_c_lui-IsDecoded word) (
            Ensures-if (op == 0x4) (decode_c_alu-IsDecoded word) (
              Ensures-if (op == 0x5)
                (Ensures-ok (let r = insn_cjtype_read-IsRead (u16 word) in ground arith))
                (Ensures-if (op == 0x6)
                  (Ensures-ok (let r = insn_cbtype_read-IsRead (u16 word) in ground arith))
                  (Ensures-if (op == 0x7)
                    (Ensures-ok (let r = insn_cbtype_read-IsRead (u16 word) in ground arith))
                    (Ensures-fault))))))))

decode_c_jump-IsDecoded : (word : ℕ) → Ensures (IsDecoded true) (decode_c_jump word)
unfolding decode_c_jump is_jump
decode_c_jump-IsDecoded word =
    let i = insn_crtype_read (u16 word) in
    Ensures-if (cfunct1 word == 0x0)
      (Ensures-if (i.rs2 == 0)
        (Ensures-assert (not (i.rs1 == 0))
          (Ensures-ok (let r = insn_crtype_read-IsRead (u16 word) in ground arith)))
        (Ensures-ok (let r = insn_crtype_read-IsRead (u16 word) in ground arith)))
      (Ensures-if ((i.rs1 == 0) && (i.rs2 == 0)) (Ensures-fault) (
        Ensures-if (i.rs2 == 0)
          (Ensures-ok (let r = insn_crtype_read-IsRead (u16 word) in ground arith))
          (Ensures-ok (let r = insn_crtype_read-IsRead (u16 word) in ground arith))))

pub decode_quadrant2-IsDecoded : (word : ℕ) → Ensures (IsDecoded true) (decode_quadrant2 word)
unfolding decode_quadrant2 is_jump
decode_quadrant2-IsDecoded word =
    let op = copcode word in
    Ensures-if (op == 0x0) (Ensures-ok (let r = insn_citype_read-IsRead (u16 word) in ground arith))
      (Ensures-if (op == 0x1)
        (Ensures-ok (let r = insn_citype_read2-IsRead (u16 word) in ground arith))
        (Ensures-if (op == 0x2)
          (with_rd-IsDecoded (let r = insn_citype_read4-IsRead (u16 word) in ground arith))
          (Ensures-if (op == 0x3)
            (with_rd-IsDecoded (let r = insn_citype_read2-IsRead (u16 word) in ground arith))
            (Ensures-if (op == 0x4) (decode_c_jump-IsDecoded word) (
              Ensures-if (op == 0x5)
                (Ensures-ok (let r = insn_csstype_read-IsRead (u16 word) in ground arith))
                (Ensures-if (op == 0x6)
                  (Ensures-ok (let r = insn_csstype_read2-IsRead (u16 word) in ground arith))
                  (Ensures-if (op == 0x7)
                    (Ensures-ok (let r = insn_csstype_read-IsRead (u16 word) in ground arith))
                    (Ensures-fault))))))))
