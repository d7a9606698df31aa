-- ===== src/Tests/Program.antt =====
-- A small guest program, and the theorems on the decoder and the interpreter at it.
use mathlib.Core.Bool.{not}
use riscvemu_study.Prelude.{
  ℕ, ◌-◌, ◌%◌, ◌^◌, ◌≡◌, ◌≢◌, refl, arith, ◌==◌, leb, if◌then◌else◌, true, false, Option, none,
  some, List, [], ◌∷◌, Run, ok,
}
use riscvemu_study.Insn.{Insn, zeroed, addi}
use riscvemu_study.State.{
  World, Memory, ExitReason, to_host, byte_at, load_bytes, store_bytes, set_rd,
}
use riscvemu_study.State.Bytes.{IsBelow, load_bytes-store_bytes}
use riscvemu_study.Interp.Block.Ends.{exec_block_interp_ends}
use riscvemu_study.Prelude.{Ensures, update}
use riscvemu_study.Decode.IsDecoded.{IsDecoded, HasRegisters}
use riscvemu_study.Decode.WellFormed.{insn_decode-IsDecoded}
use riscvemu_study.Interp.Frame.{leaves_block, is_store, funcs_registers, funcs_memory}
use riscvemu_study.Interp.Block.Laws.{IsSound, exec_block_interp_leaves, exec_block_interp-IsSound}
use riscvemu_study.Decode.Formats.{
  insn_utype_read, insn_itype_read, insn_jtype_read, insn_btype_read, insn_rtype_read,
  insn_stype_read, insn_csrtype_read, insn_fprtype_read,
}
use riscvemu_study.Decode.Compressed.{
  insn_catype_read, insn_crtype_read, insn_citype_read, insn_citype_read2, insn_citype_read3,
  insn_citype_read4, insn_citype_read5, insn_cbtype_read, insn_cbtype_read2, insn_cstype_read,
  insn_cstype_read2, insn_cjtype_read, insn_cltype_read, insn_cltype_read2, insn_csstype_read,
  insn_csstype_read2, insn_ciwtype_read,
}
use riscvemu_study.Decode.Select.{pick, typed, with_imm, with_rd}
use riscvemu_study.Decode.Rvc.{
  decode_quadrant0, decode_c_lui, decode_c_alu, decode_quadrant1, decode_c_jump, decode_quadrant2,
}
use riscvemu_study.Decode.Base.{
  load_type, op_imm_type, op_imm32_type, op_type, op32_type, branch_type, decode_load,
  decode_load_fp, decode_misc_mem, decode_op_imm, decode_op_imm32, decode_store, decode_store_fp,
  decode_op, decode_op32, decode_branch, decode_system,
}
use riscvemu_study.Decode.Float.{
  decode_fmadd, decode_fmsub, decode_fnmsub, decode_fnmadd, fp_select_type, fp_unary_type,
  fp_compare_type, fp_convert_type, fp_move_type, fp_arith_type, fp_type, decode_op_fp,
}
use riscvemu_study.Decode.Dispatch.{decode_quadrant3, insn_decode}
use riscvemu_study.Interp.Imm.{
  imm_op, func_addi, func_slli, func_slti, func_sltiu, func_xori, func_srli, func_srai, func_ori,
  func_andi, func_addiw, func_slliw, func_srliw, func_sraiw, func_auipc, func_lui,
}
use riscvemu_study.Interp.Reg.{
  reg_op, func_add, func_sll, func_slt, func_sltu, func_xor, func_srl, func_or, func_and, func_sub,
  func_sra, func_addw, func_sllw, func_srlw, func_subw, func_sraw,
}
use riscvemu_study.Interp.MulDiv.{
  mulhu, mulh, mulhsu, func_mul, func_mulh, func_mulhsu, func_mulhu, func_remu, func_mulw,
  div_value, func_div, func_divu, rem_value, func_rem, word_op, func_divw, func_divuw, func_remw,
  func_remuw,
}
use riscvemu_study.Interp.Memory.{
  load_op, func_lb, func_lh, func_lw, func_ld, func_lbu, func_lhu, func_lwu, store_op, func_sb,
  func_sh, func_sw, func_sd, set_frd, load_fp_op, func_flw, func_fld, func_fsw, func_fsd,
}
use riscvemu_study.Interp.Control.{
  branch_op, func_beq, func_bne, func_blt, func_bge, func_bltu, func_bgeu, func_jalr, func_jal,
  func_ecall, func_empty, func_csr,
}
use riscvemu_study.Interp.FloatBits.{fsgnj32, fsgnj64, class_mask, f32_classify, f64_classify}
use riscvemu_study.Interp.Float.{
  Fpu, FloatOps, set_f, fused_s, fused_d, arith_s, arith_d, compare_s, compare_d, func_fsgnj_s,
  func_fsgnj_d, to_word_s, to_word_d, to_long_s, to_long_d, from_int_s, from_int_d, func_fmv_x_w,
  func_fmv_w_x, func_fmv_x_d, func_fmv_d_x, func_fclass_s, func_fclass_d, func_fcvt_s_d,
  func_fcvt_d_s,
}
use riscvemu_study.Interp.Funcs.{on_state, try_state, on_branch, on_memory, funcs}
use riscvemu_study.Interp.Block.{
  finish_insn, halted, loop_after, execute_insn, interp_insn, exec_block_interp,
}

unfoldable pub decoding : Unit {0}
unfolding insn_utype_read insn_itype_read insn_jtype_read insn_btype_read insn_rtype_read
    insn_stype_read insn_csrtype_read insn_fprtype_read insn_catype_read insn_crtype_read
    insn_citype_read insn_citype_read2 insn_citype_read3 insn_citype_read4 insn_citype_read5
    insn_cbtype_read insn_cbtype_read2 insn_cstype_read insn_cstype_read2 insn_cjtype_read
    insn_cltype_read insn_cltype_read2 insn_csstype_read insn_csstype_read2 insn_ciwtype_read pick
    typed with_imm with_rd decode_quadrant0 decode_c_lui decode_c_alu decode_quadrant1 decode_c_jump
    decode_quadrant2 load_type op_imm_type op_imm32_type op_type op32_type branch_type decode_load
    decode_load_fp decode_misc_mem decode_op_imm decode_op_imm32 decode_store decode_store_fp
    decode_op decode_op32 decode_branch decode_system decode_fmadd decode_fmsub decode_fnmsub
    decode_fnmadd fp_select_type fp_unary_type fp_compare_type fp_convert_type fp_move_type
    fp_arith_type fp_type decode_op_fp decode_quadrant3 insn_decode
decoding = tt

unfoldable pub running : Unit {0}
unfolding decoding to_host byte_at load_bytes store_bytes set_rd imm_op func_addi func_slli
    func_slti func_sltiu func_xori func_srli func_srai func_ori func_andi func_addiw func_slliw
    func_srliw func_sraiw func_auipc func_lui reg_op func_add func_sll func_slt func_sltu func_xor
    func_srl func_or func_and func_sub func_sra func_addw func_sllw func_srlw func_subw func_sraw
    mulhu mulh mulhsu func_mul func_mulh func_mulhsu func_mulhu func_remu func_mulw div_value
    func_div func_divu rem_value func_rem word_op func_divw func_divuw func_remw func_remuw load_op
    func_lb func_lh func_lw func_ld func_lbu func_lhu func_lwu store_op func_sb func_sh func_sw
    func_sd set_frd load_fp_op func_flw func_fld func_fsw func_fsd branch_op func_beq func_bne
    func_blt func_bge func_bltu func_bgeu func_jalr func_jal func_ecall func_empty func_csr fsgnj32
    fsgnj64 class_mask f32_classify f64_classify set_f fused_s fused_d arith_s arith_d compare_s
    compare_d func_fsgnj_s func_fsgnj_d to_word_s to_word_d to_long_s to_long_d from_int_s
    from_int_d func_fmv_x_w func_fmv_w_x func_fmv_x_d func_fmv_d_x func_fclass_s func_fclass_d
    func_fcvt_s_d func_fcvt_d_s on_state try_state on_branch on_memory funcs finish_insn halted
    loop_after execute_insn interp_insn exec_block_interp
running = tt

-- A host whose floating-point results are all 0; the program uses none.
abbrev pub no_floats : FloatOps
no_floats = record {
  plus = λ a b. 0;
  minus = λ a b. 0;
  times = λ a b. 0;
  over = λ a b. 0;
  negated = λ a. 0;
  square_root = λ a. 0;
  lt = λ a b. false;
  le = λ a b. false;
  eq = λ a b. false;
  llrint = λ a. 0;
  of_signed = λ a. 0;
  of_unsigned = λ a. 0;
}

abbrev pub host : Fpu
host = record { f32 = no_floats; f64 = no_floats; widen = λ a. 0; narrow = λ a. 0 }

unfoldable pub byte_of : List ℕ → ℕ → Option ℕ
byte_of [] i = none
byte_of (b ∷ bs) i = if i == 0 then some b else byte_of bs (i - 1)

-- At address 0x1000: `addi ra, zero, 5`, `c.addi ra, 1` and `ecall`.
unfoldable pub program : Memory
unfolding byte_of
program a =
    if leb 0x088800001000 a
    then byte_of (0x93 ∷ 0x00 ∷ 0x50 ∷ 0x00 ∷ 0x85 ∷ 0x00 ∷ 0x73 ∷ 0x00 ∷ 0x00 ∷ 0x00 ∷ [])
        (a - 0x088800001000)
    else none

abbrev pub start : World
start = record {
  state = record {
    exit_reason = ExitReason.none;
    reenter_pc = 0;
    gp_regs = λ k. 0;
    fp_regs = λ k. 0;
    pc = 0x1000;
  };
  memory = program;
}

returned : World → Option (Run World) → World
returned d (some (ok w)) = w
returned d r = d

final : World
unfolding returned running program
final = returned start (exec_block_interp host 3 start)

run : exec_block_interp host 3 start ≡ some (ok final)
unfolding final
run = refl

final_state : (final.state.gp_regs 1 ≡ 6) × (final.state.reenter_pc ≡ 0x100a)
unfolding final
final_state = (refl, refl)

needs_fuel : exec_block_interp host 2 start ≡ none
unfolding final
needs_fuel = refl

exec_block_interp_leaves_example : leaves_block final.state.exit_reason ≡ true
exec_block_interp_leaves_example = exec_block_interp_leaves host 3 start {w' = final} run

start-IsSound : IsSound start
start-IsSound = record {
  wide = record {
    gp_lt = λ k. omega arith;
    fp_lt = λ k. omega arith;
    pc_lt = omega arith;
    reenter_lt = omega arith;
  };
  zero_reg = refl;
}

exec_block_interp-IsSound_example : IsSound final
exec_block_interp-IsSound_example =
    exec_block_interp-IsSound host 3 start {w' = final} start-IsSound run

abbrev addi_insn : Insn
addi_insn = record zeroed { rd = 1; imm = 5; type = addi }

zeroed-HasRegisters : HasRegisters zeroed
zeroed-HasRegisters = omega arith

decode_addi : insn_decode zeroed 0x00500093 ≡ ok addi_insn
unfolding decoding
decode_addi = refl

insn_decode-IsDecoded_example : IsDecoded (not (0x00500093 % 4 == 3)) addi_insn
insn_decode-IsDecoded_example =
    insn_decode-IsDecoded zeroed 0x00500093 {i = addi_insn} zeroed-HasRegisters refl decode_addi

abbrev after_addi : World
after_addi = (on_state func_addi start addi_insn).0

addi_runs : funcs host addi start addi_insn ≡ ok (after_addi, addi_insn)
unfolding running
addi_runs = refl

one-ne-two : 2 ≢ addi_insn.rd
one-ne-two = omega arith

funcs_registers_example : after_addi.state.gp_regs 2 ≡ 0
funcs_registers_example =
    funcs_registers host addi start addi_insn 2 {w' = after_addi} {i' = addi_insn} one-ne-two
      addi_runs

addi_stores_nothing : is_store addi ≡ false
unfolding is_store
addi_stores_nothing = refl

funcs_memory_example : after_addi.memory ≡ program
funcs_memory_example =
    funcs_memory host addi start addi_insn {w' = after_addi} {i' = addi_insn} addi_stores_nothing
      addi_runs

program_bounds : IsBelow 0x08880000100a program
unfolding program byte_of
program_bounds a h = ground arith

-- From 0x1000, fuel 11 is enough for the ten bytes of the program.
exec_block_interp_ends_example :
    (r : Run World) × (exec_block_interp host 11 start ≡ some r)
    × Ensures (λ (w : World). leaves_block w.state.exit_reason ≡ true) r
exec_block_interp_ends_example =
    exec_block_interp_ends host 0x08880000100a 11 start (omega arith) program_bounds (omega arith)
      (omega arith)

abbrev stored : Memory
stored =
    update
      (update (update (update program 0x088800001000 (some 0x44)) 0x088800001001 (some 0x33))
        0x088800001002 (some 0x22))
      0x088800001003 (some 0x11)

stores : store_bytes program 0x088800001000 4 0x11223344 ≡ ok stored
unfolding program byte_of store_bytes byte_at
stores = refl

load_bytes-store_bytes_example : load_bytes stored 0x088800001000 4 ≡ ok (0x11223344 % 256 ^ 4)
load_bytes-store_bytes_example =
    load_bytes-store_bytes 4 program 0x088800001000 0x11223344 {m' = stored} (omega arith) stores
