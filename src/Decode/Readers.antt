-- ===== src/Decode/Readers.antt =====
-- `IsRead` for every reader of src/decode.c.
use riscvemu_study.Prelude.{ℕ, refl, arith, true, false}
use riscvemu_study.Decode.IsDecoded.{IsRead, field5, field3}
use riscvemu_study.Decode.Formats.{
  insn_itype_read, insn_utype_read, insn_jtype_read, insn_btype_read, insn_rtype_read,
  insn_stype_read, insn_csrtype_read, insn_fprtype_read,
}
use riscvemu_study.Decode.Compressed.{
  insn_catype_read, insn_crtype_read, insn_citype_read, insn_citype_read2, insn_citype_read3,
  insn_citype_read4, insn_citype_read5, insn_cbtype_read, insn_cbtype_read2, insn_cstype_read,
  insn_cstype_read2, insn_cjtype_read, insn_cltype_read, insn_cltype_read2, insn_csstype_read,
  insn_csstype_read2, insn_ciwtype_read,
}

pub insn_itype_read-IsRead : (word : ℕ) → IsRead false (insn_itype_read word)
unfolding insn_itype_read
insn_itype_read-IsRead word = record {
  registers = omega (arith, field5, field3);
  size = refl;
  plain = refl;
}

pub insn_utype_read-IsRead : (word : ℕ) → IsRead false (insn_utype_read word)
unfolding insn_utype_read
insn_utype_read-IsRead word = record {
  registers = omega (arith, field5, field3);
  size = refl;
  plain = refl;
}

pub insn_jtype_read-IsRead : (word : ℕ) → IsRead false (insn_jtype_read word)
unfolding insn_jtype_read
insn_jtype_read-IsRead word = record {
  registers = omega (arith, field5, field3);
  size = refl;
  plain = refl;
}

pub insn_btype_read-IsRead : (word : ℕ) → IsRead false (insn_btype_read word)
unfolding insn_btype_read
insn_btype_read-IsRead word = record {
  registers = omega (arith, field5, field3);
  size = refl;
  plain = refl;
}

pub insn_rtype_read-IsRead : (word : ℕ) → IsRead false (insn_rtype_read word)
unfolding insn_rtype_read
insn_rtype_read-IsRead word = record {
  registers = omega (arith, field5, field3);
  size = refl;
  plain = refl;
}

pub insn_stype_read-IsRead : (word : ℕ) → IsRead false (insn_stype_read word)
unfolding insn_stype_read
insn_stype_read-IsRead word = record {
  registers = omega (arith, field5, field3);
  size = refl;
  plain = refl;
}

pub insn_csrtype_read-IsRead : (word : ℕ) → IsRead false (insn_csrtype_read word)
unfolding insn_csrtype_read
insn_csrtype_read-IsRead word = record {
  registers = omega (arith, field5, field3);
  size = refl;
  plain = refl;
}

pub insn_fprtype_read-IsRead : (word : ℕ) → IsRead false (insn_fprtype_read word)
unfolding insn_fprtype_read
insn_fprtype_read-IsRead word = record {
  registers = omega (arith, field5, field3);
  size = refl;
  plain = refl;
}

pub insn_catype_read-IsRead : (half : ℕ) → IsRead true (insn_catype_read half)
unfolding insn_catype_read
insn_catype_read-IsRead half = record {
  registers = omega (arith, field5, field3);
  size = refl;
  plain = refl;
}

pub insn_crtype_read-IsRead : (half : ℕ) → IsRead true (insn_crtype_read half)
unfolding insn_crtype_read
insn_crtype_read-IsRead half = record {
  registers = omega (arith, field5, field3);
  size = refl;
  plain = refl;
}

pub insn_citype_read-IsRead : (half : ℕ) → IsRead true (insn_citype_read half)
unfolding insn_citype_read
insn_citype_read-IsRead half = record {
  registers = omega (arith, field5, field3);
  size = refl;
  plain = refl;
}

pub insn_citype_read2-IsRead : (half : ℕ) → IsRead true (insn_citype_read2 half)
unfolding insn_citype_read2
insn_citype_read2-IsRead half = record {
  registers = omega (arith, field5, field3);
  size = refl;
  plain = refl;
}

pub insn_citype_read3-IsRead : (half : ℕ) → IsRead true (insn_citype_read3 half)
unfolding insn_citype_read3
insn_citype_read3-IsRead half = record {
  registers = omega (arith, field5, field3);
  size = refl;
  plain = refl;
}

pub insn_citype_read4-IsRead : (half : ℕ) → IsRead true (insn_citype_read4 half)
unfolding insn_citype_read4
insn_citype_read4-IsRead half = record {
  registers = omega (arith, field5, field3);
  size = refl;
  plain = refl;
}

pub insn_citype_read5-IsRead : (half : ℕ) → IsRead true (insn_citype_read5 half)
unfolding insn_citype_read5
insn_citype_read5-IsRead half = record {
  registers = omega (arith, field5, field3);
  size = refl;
  plain = refl;
}

pub insn_cbtype_read-IsRead : (half : ℕ) → IsRead true (insn_cbtype_read half)
unfolding insn_cbtype_read
insn_cbtype_read-IsRead half = record {
  registers = omega (arith, field5, field3);
  size = refl;
  plain = refl;
}

pub insn_cbtype_read2-IsRead : (half : ℕ) → IsRead true (insn_cbtype_read2 half)
unfolding insn_cbtype_read2
insn_cbtype_read2-IsRead half = record {
  registers = omega (arith, field5, field3);
  size = refl;
  plain = refl;
}

pub insn_cstype_read-IsRead : (half : ℕ) → IsRead true (insn_cstype_read half)
unfolding insn_cstype_read
insn_cstype_read-IsRead half = record {
  registers = omega (arith, field5, field3);
  size = refl;
  plain = refl;
}

pub insn_cstype_read2-IsRead : (half : ℕ) → IsRead true (insn_cstype_read2 half)
unfolding insn_cstype_read2
insn_cstype_read2-IsRead half = record {
  registers = omega (arith, field5, field3);
  size = refl;
  plain = refl;
}

pub insn_cjtype_read-IsRead : (half : ℕ) → IsRead true (insn_cjtype_read half)
unfolding insn_cjtype_read
insn_cjtype_read-IsRead half = record {
  registers = omega (arith, field5, field3);
  size = refl;
  plain = refl;
}

pub insn_cltype_read-IsRead : (half : ℕ) → IsRead true (insn_cltype_read half)
unfolding insn_cltype_read
insn_cltype_read-IsRead half = record {
  registers = omega (arith, field5, field3);
  size = refl;
  plain = refl;
}

pub insn_cltype_read2-IsRead : (half : ℕ) → IsRead true (insn_cltype_read2 half)
unfolding insn_cltype_read2
insn_cltype_read2-IsRead half = record {
  registers = omega (arith, field5, field3);
  size = refl;
  plain = refl;
}

pub insn_csstype_read-IsRead : (half : ℕ) → IsRead true (insn_csstype_read half)
unfolding insn_csstype_read
insn_csstype_read-IsRead half = record {
  registers = omega (arith, field5, field3);
  size = refl;
  plain = refl;
}

pub insn_csstype_read2-IsRead : (half : ℕ) → IsRead true (insn_csstype_read2 half)
unfolding insn_csstype_read2
insn_csstype_read2-IsRead half = record {
  registers = omega (arith, field5, field3);
  size = refl;
  plain = refl;
}

pub insn_ciwtype_read-IsRead : (half : ℕ) → IsRead true (insn_ciwtype_read half)
unfolding insn_ciwtype_read
insn_ciwtype_read-IsRead half = record {
  registers = omega (arith, field5, field3);
  size = refl;
  plain = refl;
}
