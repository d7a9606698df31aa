-- ===== src/Decode/Float.antt =====
-- The floating-point opcodes 0x10 to 0x14 of quadrant 3 of `insn_decode`.
use riscvemu_study.Prelude.{ℕ, List, [], ◌∷◌, ◌==◌, if◌then◌else◌, ◌&&◌, Bool, true, false}
use riscvemu_study.Prelude.{Run, ok, ◌>>◌, assert}
use riscvemu_study.Insn.{
  InsnType, Insn, fmadd_s, fmsub_s, fnmsub_s, fnmadd_s, fadd_s, fsub_s, fmul_s, fdiv_s, fsqrt_s,
  fsgnj_s, fsgnjn_s, fsgnjx_s, fmin_s, fmax_s, fcvt_w_s, fcvt_wu_s, fmv_x_w, feq_s, flt_s, fle_s,
  fclass_s, fcvt_s_w, fcvt_s_wu, fmv_w_x, fcvt_l_s, fcvt_lu_s, fcvt_s_l, fcvt_s_lu, fmadd_d,
  fmsub_d, fnmsub_d, fnmadd_d, fadd_d, fsub_d, fmul_d, fdiv_d, fsqrt_d, fsgnj_d, fsgnjn_d, fsgnjx_d,
  fmin_d, fmax_d, fcvt_s_d, fcvt_d_s, feq_d, flt_d, fle_d, fclass_d, fcvt_w_d, fcvt_wu_d, fcvt_d_w,
  fcvt_d_wu, fcvt_l_d, fcvt_lu_d, fmv_x_d, fcvt_d_l, fcvt_d_lu, fmv_d_x,
}
use riscvemu_study.Decode.Fields.{funct2, funct3, funct7, rs2_field}
use riscvemu_study.Decode.Select.{pick, typed}
use riscvemu_study.Decode.Formats.{insn_rtype_read, insn_fprtype_read}

-- opcodes 0x10, 0x11, 0x12 and 0x13
unfoldable pub decode_fmadd : ℕ → Run Insn
decode_fmadd word =
    typed (insn_fprtype_read word) (pick ((0, fmadd_s) ∷ (1, fmadd_d) ∷ []) (funct2 word))

unfoldable pub decode_fmsub : ℕ → Run Insn
decode_fmsub word =
    typed (insn_fprtype_read word) (pick ((0, fmsub_s) ∷ (1, fmsub_d) ∷ []) (funct2 word))

unfoldable pub decode_fnmsub : ℕ → Run Insn
decode_fnmsub word =
    typed (insn_fprtype_read word) (pick ((0, fnmsub_s) ∷ (1, fnmsub_d) ∷ []) (funct2 word))

unfoldable pub decode_fnmadd : ℕ → Run Insn
decode_fnmadd word =
    typed (insn_fprtype_read word) (pick ((0, fnmadd_s) ∷ (1, fnmadd_d) ∷ []) (funct2 word))

-- opcode 0x14, `case`s 0x10 to 0x15: sign injection, minimum and maximum
unfoldable pub fp_select_type : ℕ → ℕ → Run InsnType
fp_select_type f7 f3 =
    if f7 == 0x10
    then pick ((0, fsgnj_s) ∷ (1, fsgnjn_s) ∷ (2, fsgnjx_s) ∷ []) f3
    else if f7 == 0x11
    then pick ((0, fsgnj_d) ∷ (1, fsgnjn_d) ∷ (2, fsgnjx_d) ∷ []) f3
    else if f7 == 0x14
    then pick ((0, fmin_s) ∷ (1, fmax_s) ∷ []) f3
    else pick ((0, fmin_d) ∷ (1, fmax_d) ∷ []) f3

-- `case`s 0x20 to 0x2d, each behind an assertion on `rs2`
unfoldable pub fp_unary_type : ℕ → ℕ → Run InsnType
fp_unary_type f7 r2 =
    if f7 == 0x20
    then assert (r2 == 1) >> ok fcvt_s_d
    else if f7 == 0x21
    then assert (r2 == 0) >> ok fcvt_d_s
    else if f7 == 0x2c
    then assert (r2 == 0) >> ok fsqrt_s
    else assert (r2 == 0) >> ok fsqrt_d

-- `case`s 0x50 and 0x51: comparisons
unfoldable pub fp_compare_type : ℕ → ℕ → Run InsnType
fp_compare_type f7 f3 =
    if f7 == 0x50
    then pick ((0, fle_s) ∷ (1, flt_s) ∷ (2, feq_s) ∷ []) f3
    else pick ((0, fle_d) ∷ (1, flt_d) ∷ (2, feq_d) ∷ []) f3

-- `case`s 0x60 to 0x69: conversions
unfoldable pub fp_convert_type : ℕ → ℕ → Run InsnType
fp_convert_type f7 r2 =
    if f7 == 0x60
    then pick ((0, fcvt_w_s) ∷ (1, fcvt_wu_s) ∷ (2, fcvt_l_s) ∷ (3, fcvt_lu_s) ∷ []) r2
    else if f7 == 0x61
    then pick ((0, fcvt_w_d) ∷ (1, fcvt_wu_d) ∷ (2, fcvt_l_d) ∷ (3, fcvt_lu_d) ∷ []) r2
    else if f7 == 0x68
    then pick ((0, fcvt_s_w) ∷ (1, fcvt_s_wu) ∷ (2, fcvt_s_l) ∷ (3, fcvt_s_lu) ∷ []) r2
    else pick ((0, fcvt_d_w) ∷ (1, fcvt_d_wu) ∷ (2, fcvt_d_l) ∷ (3, fcvt_d_lu) ∷ []) r2

-- `case`s 0x70 to 0x79: moves and classes, with `rs2` asserted to be 0
unfoldable pub fp_move_type : ℕ → ℕ → ℕ → Run InsnType
fp_move_type f7 f3 r2 =
    if f7 == 0x70
    then assert (r2 == 0) >> pick ((0, fmv_x_w) ∷ (1, fclass_s) ∷ []) f3
    else if f7 == 0x71
    then assert (r2 == 0) >> pick ((0, fmv_x_d) ∷ (1, fclass_d) ∷ []) f3
    else if f7 == 0x78
    then assert ((r2 == 0) && (f3 == 0)) >> ok fmv_w_x
    else assert ((r2 == 0) && (f3 == 0)) >> ok fmv_d_x

-- the arithmetic `case`s, and what is none of the above
unfoldable pub fp_arith_type : ℕ → Run InsnType
fp_arith_type = pick (
    (0x0, fadd_s)
    ∷ (0x1, fadd_d)
    ∷ (0x4, fsub_s)
    ∷ (0x5, fsub_d)
    ∷ (0x8, fmul_s)
    ∷ (0x9, fmul_d)
    ∷ (0xc, fdiv_s)
    ∷ (0xd, fdiv_d)
    ∷ [])

-- Whether a `case` label is in a list.
abbrev pub among : ℕ → List ℕ → Bool
among k [] = false
among k (j ∷ js) = if k == j then true else among k js

unfoldable pub fp_type : ℕ → ℕ → ℕ → Run InsnType
fp_type f7 f3 r2 =
    if among f7 (0x10 ∷ 0x11 ∷ 0x14 ∷ 0x15 ∷ [])
    then fp_select_type f7 f3
    else if among f7 (0x20 ∷ 0x21 ∷ 0x2c ∷ 0x2d ∷ [])
    then fp_unary_type f7 r2
    else if among f7 (0x50 ∷ 0x51 ∷ [])
    then fp_compare_type f7 f3
    else if among f7 (0x60 ∷ 0x61 ∷ 0x68 ∷ 0x69 ∷ [])
    then fp_convert_type f7 r2
    else if among f7 (0x70 ∷ 0x71 ∷ 0x78 ∷ 0x79 ∷ [])
    then fp_move_type f7 f3 r2
    else fp_arith_type f7

unfoldable pub decode_op_fp : ℕ → Run Insn
decode_op_fp word =
    typed (insn_rtype_read word) (fp_type (funct7 word) (funct3 word) (rs2_field word))
