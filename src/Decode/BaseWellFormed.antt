-- ===== src/Decode/BaseWellFormed.antt =====
-- `IsDecoded` for the integer opcodes of quadrant 3.
use riscvemu_study.Prelude.{
  ℕ, ◌==◌, refl, arith, false, Ensures, Ensures-ok, Ensures-fault, Ensures-if, Ensures-assert,
}
use riscvemu_study.Insn.{Insn}
use riscvemu_study.Decode.Fields.{funct3, funct7}
use riscvemu_study.Decode.IsDecoded.{
  IsDecoded, HasRegisters, IsStraight, is_jump, pick-IsStraight, typed-IsDecoded,
}
use riscvemu_study.Decode.Readers.{
  insn_btype_read-IsRead, insn_csrtype_read-IsRead, insn_itype_read-IsRead, insn_rtype_read-IsRead,
  insn_stype_read-IsRead,
}
use riscvemu_study.Prelude.{◌≡◌}
use riscvemu_study.Decode.Base.{
  branch_type, decode_branch, decode_load, decode_load_fp, decode_misc_mem, decode_op, decode_op32,
  decode_op_imm, decode_op_imm32, decode_store, decode_store_fp, decode_system, load_type,
  op32_type, op_imm32_type, op_imm_type, op_type,
}

load_type-IsStraight : (k : ℕ) → Ensures IsStraight (load_type k)
unfolding load_type is_jump
load_type-IsStraight k = pick-IsStraight _ _ refl

op_imm_type-IsStraight : (word : ℕ) → Ensures IsStraight (op_imm_type word)
unfolding op_imm_type is_jump
op_imm_type-IsStraight word =
    Ensures-if (funct3 word == 0x1) (pick-IsStraight _ _ refl)
      (Ensures-if (funct3 word == 0x5) (pick-IsStraight _ _ refl) (pick-IsStraight _ _ refl))

op_imm32_type-IsStraight : (word : ℕ) → Ensures IsStraight (op_imm32_type word)
unfolding op_imm32_type is_jump
op_imm32_type-IsStraight word = Ensures-if (funct3 word == 0x0) (Ensures-ok refl) (
    Ensures-if (funct3 word == 0x1) (Ensures-assert (funct7 word == 0) (Ensures-ok refl))
      (Ensures-if (funct3 word == 0x5) (pick-IsStraight _ _ refl) (Ensures-fault)))

op_type-IsStraight : (f7 f3 : ℕ) → Ensures IsStraight (op_type f7 f3)
unfolding op_type is_jump
op_type-IsStraight f7 f3 = Ensures-if (f7 == 0x0) (pick-IsStraight _ _ refl) (
    Ensures-if (f7 == 0x1) (pick-IsStraight _ _ refl)
      (Ensures-if (f7 == 0x20) (pick-IsStraight _ _ refl) (Ensures-fault)))

op32_type-IsStraight : (f7 f3 : ℕ) → Ensures IsStraight (op32_type f7 f3)
unfolding op32_type is_jump
op32_type-IsStraight f7 f3 = Ensures-if (f7 == 0x0) (pick-IsStraight _ _ refl) (
    Ensures-if (f7 == 0x1) (pick-IsStraight _ _ refl)
      (Ensures-if (f7 == 0x20) (pick-IsStraight _ _ refl) (Ensures-fault)))

branch_type-IsStraight : (k : ℕ) → Ensures IsStraight (branch_type k)
unfolding branch_type is_jump
branch_type-IsStraight k = pick-IsStraight _ _ refl

pub decode_load-IsDecoded : (word : ℕ) → Ensures (IsDecoded false) (decode_load word)
unfolding decode_load is_jump
decode_load-IsDecoded word =
    typed-IsDecoded _ (insn_itype_read-IsRead word) (load_type-IsStraight _)

pub decode_load_fp-IsDecoded : (word : ℕ) → Ensures (IsDecoded false) (decode_load_fp word)
unfolding decode_load_fp is_jump
decode_load_fp-IsDecoded word =
    typed-IsDecoded _ (insn_itype_read-IsRead word) (pick-IsStraight _ _ refl)

pub decode_misc_mem-IsDecoded : (word : ℕ) → Ensures (IsDecoded false) (decode_misc_mem word)
unfolding decode_misc_mem is_jump
decode_misc_mem-IsDecoded word = typed-IsDecoded _ (ground arith) (pick-IsStraight _ _ refl)

pub decode_op_imm-IsDecoded : (word : ℕ) → Ensures (IsDecoded false) (decode_op_imm word)
unfolding decode_op_imm is_jump
decode_op_imm-IsDecoded word =
    typed-IsDecoded _ (insn_itype_read-IsRead word) (op_imm_type-IsStraight _)

pub decode_op_imm32-IsDecoded : (word : ℕ) → Ensures (IsDecoded false) (decode_op_imm32 word)
unfolding decode_op_imm32 is_jump
decode_op_imm32-IsDecoded word =
    typed-IsDecoded _ (insn_itype_read-IsRead word) (op_imm32_type-IsStraight _)

pub decode_store-IsDecoded : (word : ℕ) → Ensures (IsDecoded false) (decode_store word)
unfolding decode_store is_jump
decode_store-IsDecoded word =
    typed-IsDecoded _ (insn_stype_read-IsRead word) (pick-IsStraight _ _ refl)

pub decode_store_fp-IsDecoded : (word : ℕ) → Ensures (IsDecoded false) (decode_store_fp word)
unfolding decode_store_fp is_jump
decode_store_fp-IsDecoded word =
    typed-IsDecoded _ (insn_stype_read-IsRead word) (pick-IsStraight _ _ refl)

pub decode_op-IsDecoded : (word : ℕ) → Ensures (IsDecoded false) (decode_op word)
unfolding decode_op is_jump
decode_op-IsDecoded word = typed-IsDecoded _ (insn_rtype_read-IsRead word) (op_type-IsStraight _ _)

pub decode_op32-IsDecoded : (word : ℕ) → Ensures (IsDecoded false) (decode_op32 word)
unfolding decode_op32 is_jump
decode_op32-IsDecoded word =
    typed-IsDecoded _ (insn_rtype_read-IsRead word) (op32_type-IsStraight _ _)

pub decode_branch-IsDecoded : (word : ℕ) → Ensures (IsDecoded false) (decode_branch word)
unfolding decode_branch is_jump
decode_branch-IsDecoded word =
    typed-IsDecoded _ (insn_btype_read-IsRead word) (branch_type-IsStraight _)

-- ECALL keeps the registers and the size of what `*insn` held.
pub decode_system-IsDecoded :
    (prev : Insn) (word : ℕ)
    → HasRegisters prev
    → prev.rvc ≡ false
    → Ensures (IsDecoded false) (decode_system prev word)
unfolding decode_system is_jump
decode_system-IsDecoded prev word h q =
    Ensures-if (word == 0x73) (Ensures-ok (ground arith))
      (typed-IsDecoded _ (insn_csrtype_read-IsRead word) (pick-IsStraight _ _ refl))
