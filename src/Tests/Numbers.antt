-- ===== src/Tests/Numbers.antt =====
-- Multiplication and division, and the round trip of the decoder, at concrete numbers.
use riscvemu_study.Prelude.{
  ℕ, ◌-◌, ◌*◌, ◌/◌, ◌^◌, ◌<◌, ◌≤◌, ◌+◌, ◌≡◌, ◌≢◌, ◌↔◌, refl, arith, true, some, ok, fault, sigfpe,
  u64, update,
}
use riscvemu_study.Prelude.Int.{to_i64, pos, ◌*ℤ◌, ◌+ℤ◌, pos_part, neg_part}
use riscvemu_study.Insn.{Insn, zeroed, beq, divw}
use riscvemu_study.State.{State, ExitReason}
use riscvemu_study.Decode.IsDecoded.{is_jump}
use riscvemu_study.Decode.Dispatch.{insn_decode}
use riscvemu_study.Decode.Manual.{format, encode, holds_imm, operands, branch}
use riscvemu_study.Decode.Inverse.{insn_decode-encode}
use riscvemu_study.Interp.MulDiv.{
  mulhu, mulh, mulhsu, div_value, rem_value, func_divw, func_divuw, func_remw, func_remuw,
}
use riscvemu_study.Interp.MulDiv.High.{mulhu_lem}
use riscvemu_study.Interp.MulDiv.Signed.{mulh_lem, mulhsu_lem}
use riscvemu_study.Interp.MulDiv.Quotient.{div_value-rem_value}
use riscvemu_study.Interp.MulDiv.Division.{HasZeroLow, word_divisions_fault}

abbrev all_ones : ℕ
all_ones = 0xffff_ffff_ffff_ffff

all_ones-lt : all_ones < 2 ^ 64
all_ones-lt = omega arith

mulhu_lem_example : mulhu all_ones all_ones ≡ all_ones * all_ones / 2 ^ 64
mulhu_lem_example = mulhu_lem all_ones all_ones all_ones-lt all_ones-lt

mulhu-all_ones : mulhu all_ones all_ones ≡ 0xffff_ffff_ffff_fffe
unfolding mulhu
mulhu-all_ones = refl

-- (-1) * (-1) and (-1) * (2 ^ 64 - 1)
mulh_lem_example :
    to_i64 all_ones *ℤ to_i64 all_ones
    ≡ to_i64 (mulh all_ones all_ones) *ℤ pos (2 ^ 64) +ℤ pos (u64 (all_ones * all_ones))
mulh_lem_example = mulh_lem all_ones all_ones all_ones-lt all_ones-lt

mulhsu_lem_example :
    to_i64 all_ones *ℤ pos all_ones
    ≡ to_i64 (mulhsu all_ones all_ones) *ℤ pos (2 ^ 64) +ℤ pos (u64 (all_ones * all_ones))
mulhsu_lem_example = mulhsu_lem all_ones all_ones all_ones-lt all_ones-lt

minus_seven : ◌<◌ (2 ^ 64 - 7) (2 ^ 64)
minus_seven = omega arith

two_lt : ◌<◌ 2 (2 ^ 64)
two_lt = omega arith

two-ne-zero : ◌≢◌ {A = ℕ} 2 0
two-ne-zero = omega arith

-- -7 by 2: the quotient is -3 and the remainder -1.
div_value-rem_value_example :
    let r = to_i64 (rem_value (2 ^ 64 - 7) 2) in
    (to_i64 (div_value (2 ^ 64 - 7) 2) *ℤ to_i64 2 +ℤ r ≡ to_i64 (2 ^ 64 - 7))
    × (pos_part r + neg_part r < pos_part (to_i64 2) + neg_part (to_i64 2))
    × (pos_part r ≤ pos_part (to_i64 (2 ^ 64 - 7)))
    × (neg_part r ≤ neg_part (to_i64 (2 ^ 64 - 7)))
div_value-rem_value_example =
    div_value-rem_value (2 ^ 64 - 7) 2 minus_seven two_lt two-ne-zero (λ e. omega arith)

abbrev divisor : State
divisor = record {
  exit_reason = ExitReason.none;
  reenter_pc = 0;
  gp_regs = update (λ k. 0) 2 (2 ^ 32);
  fp_regs = λ k. 0;
  pc = 0x1000;
}

abbrev divw_insn : Insn
divw_insn = record zeroed { rd = 1; rs1 = 1; rs2 = 2; type = divw }

word_divisions_fault_example :
    ((func_divw divisor divw_insn ≡ fault sigfpe) ↔ HasZeroLow divisor divw_insn)
    × ((func_divuw divisor divw_insn ≡ fault sigfpe) ↔ HasZeroLow divisor divw_insn)
    × ((func_remw divisor divw_insn ≡ fault sigfpe) ↔ HasZeroLow divisor divw_insn)
    × ((func_remuw divisor divw_insn ≡ fault sigfpe) ↔ HasZeroLow divisor divw_insn)
word_divisions_fault_example = word_divisions_fault divisor divw_insn

-- A division by 2^32, whose low half is 0, faults.
divw_faults : func_divw divisor divw_insn ≡ fault sigfpe
divw_faults = (word_divisions_fault divisor divw_insn).0.1 (omega arith, refl)

branch_format : format beq ≡ some (branch 0)
unfolding format
branch_format = refl

branch_fits : holds_imm (branch 0) 0x1ffc ≡ true
unfolding holds_imm
branch_fits = refl

-- `beq a0, a1, -4`
insn_decode-encode_example :
    insn_decode zeroed (encode (branch 0) 0 10 11 0x1ffc)
    ≡ ok (record (operands (branch 0) 0 10 11 0x1ffc) { type = beq; cont = is_jump beq })
insn_decode-encode_example =
    insn_decode-encode zeroed beq (branch 0) 0 10 11 0x1ffc (omega arith) (omega arith)
      (omega arith) branch_format branch_fits

encoded_branch : encode (branch 0) 0 10 11 0x1ffc ≡ 0xfeb50ee3
unfolding encode
encoded_branch = refl
