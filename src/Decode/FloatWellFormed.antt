-- ===== src/Decode/FloatWellFormed.antt =====
-- `IsDecoded` for the floating-point opcodes.
use riscvemu_study.Prelude.{
  ℕ, ◌==◌, ◌&&◌, refl, false, [], ◌∷◌, Ensures, Ensures-ok, Ensures-if, Ensures-assert,
}
use riscvemu_study.Decode.IsDecoded.{
  IsDecoded, IsStraight, is_jump, pick-IsStraight, typed-IsDecoded,
}
use riscvemu_study.Decode.Readers.{insn_fprtype_read-IsRead, insn_rtype_read-IsRead}
use riscvemu_study.Decode.Float.{
  among, decode_fmadd, decode_fmsub, decode_fnmadd, decode_fnmsub, decode_op_fp, fp_arith_type,
  fp_compare_type, fp_convert_type, fp_move_type, fp_select_type, fp_type, fp_unary_type,
}

pub decode_fmadd-IsDecoded : (word : ℕ) → Ensures (IsDecoded false) (decode_fmadd word)
unfolding decode_fmadd is_jump
decode_fmadd-IsDecoded word =
    typed-IsDecoded _ (insn_fprtype_read-IsRead word) (pick-IsStraight _ _ refl)

pub decode_fmsub-IsDecoded : (word : ℕ) → Ensures (IsDecoded false) (decode_fmsub word)
unfolding decode_fmsub is_jump
decode_fmsub-IsDecoded word =
    typed-IsDecoded _ (insn_fprtype_read-IsRead word) (pick-IsStraight _ _ refl)

pub decode_fnmsub-IsDecoded : (word : ℕ) → Ensures (IsDecoded false) (decode_fnmsub word)
unfolding decode_fnmsub is_jump
decode_fnmsub-IsDecoded word =
    typed-IsDecoded _ (insn_fprtype_read-IsRead word) (pick-IsStraight _ _ refl)

pub decode_fnmadd-IsDecoded : (word : ℕ) → Ensures (IsDecoded false) (decode_fnmadd word)
unfolding decode_fnmadd is_jump
decode_fnmadd-IsDecoded word =
    typed-IsDecoded _ (insn_fprtype_read-IsRead word) (pick-IsStraight _ _ refl)

fp_select_type-IsStraight : (f7 f3 : ℕ) → Ensures IsStraight (fp_select_type f7 f3)
unfolding fp_select_type is_jump
fp_select_type-IsStraight f7 f3 = Ensures-if (f7 == 0x10) (pick-IsStraight _ _ refl) (
    Ensures-if (f7 == 0x11) (pick-IsStraight _ _ refl)
      (Ensures-if (f7 == 0x14) (pick-IsStraight _ _ refl) (pick-IsStraight _ _ refl)))

fp_unary_type-IsStraight : (f7 r2 : ℕ) → Ensures IsStraight (fp_unary_type f7 r2)
unfolding fp_unary_type is_jump
fp_unary_type-IsStraight f7 r2 =
    Ensures-if (f7 == 0x20) (Ensures-assert (r2 == 1) (Ensures-ok refl)) (
      Ensures-if (f7 == 0x21) (Ensures-assert (r2 == 0) (Ensures-ok refl)) (
        Ensures-if (f7 == 0x2c) (Ensures-assert (r2 == 0) (Ensures-ok refl))
          (Ensures-assert (r2 == 0) (Ensures-ok refl))))

fp_compare_type-IsStraight : (f7 f3 : ℕ) → Ensures IsStraight (fp_compare_type f7 f3)
unfolding fp_compare_type is_jump
fp_compare_type-IsStraight f7 f3 =
    Ensures-if (f7 == 0x50) (pick-IsStraight _ _ refl) (pick-IsStraight _ _ refl)

fp_convert_type-IsStraight : (f7 r2 : ℕ) → Ensures IsStraight (fp_convert_type f7 r2)
unfolding fp_convert_type is_jump
fp_convert_type-IsStraight f7 r2 = Ensures-if (f7 == 0x60) (pick-IsStraight _ _ refl) (
    Ensures-if (f7 == 0x61) (pick-IsStraight _ _ refl)
      (Ensures-if (f7 == 0x68) (pick-IsStraight _ _ refl) (pick-IsStraight _ _ refl)))

fp_move_type-IsStraight : (f7 f3 r2 : ℕ) → Ensures IsStraight (fp_move_type f7 f3 r2)
unfolding fp_move_type is_jump
fp_move_type-IsStraight f7 f3 r2 =
    Ensures-if (f7 == 0x70) (Ensures-assert (r2 == 0) (pick-IsStraight _ _ refl)) (
      Ensures-if (f7 == 0x71) (Ensures-assert (r2 == 0) (pick-IsStraight _ _ refl)) (
        Ensures-if (f7 == 0x78) (Ensures-assert ((r2 == 0) && (f3 == 0)) (Ensures-ok refl))
          (Ensures-assert ((r2 == 0) && (f3 == 0)) (Ensures-ok refl))))

fp_arith_type-IsStraight : (f7 : ℕ) → Ensures IsStraight (fp_arith_type f7)
unfolding fp_arith_type is_jump
fp_arith_type-IsStraight f7 = pick-IsStraight _ _ refl

fp_type-IsStraight : (f7 f3 r2 : ℕ) → Ensures IsStraight (fp_type f7 f3 r2)
unfolding fp_type is_jump
fp_type-IsStraight f7 f3 r2 =
    Ensures-if (among f7 (0x10 ∷ 0x11 ∷ 0x14 ∷ 0x15 ∷ [])) (fp_select_type-IsStraight _ _) (
      Ensures-if (among f7 (0x20 ∷ 0x21 ∷ 0x2c ∷ 0x2d ∷ [])) (fp_unary_type-IsStraight _ _) (
        Ensures-if (among f7 (0x50 ∷ 0x51 ∷ [])) (fp_compare_type-IsStraight _ _) (
          Ensures-if (among f7 (0x60 ∷ 0x61 ∷ 0x68 ∷ 0x69 ∷ [])) (fp_convert_type-IsStraight _ _) (
            Ensures-if (among f7 (0x70 ∷ 0x71 ∷ 0x78 ∷ 0x79 ∷ [])) (fp_move_type-IsStraight _ _ _)
              (fp_arith_type-IsStraight _)))))

pub decode_op_fp-IsDecoded : (word : ℕ) → Ensures (IsDecoded false) (decode_op_fp word)
unfolding decode_op_fp is_jump
decode_op_fp-IsDecoded word =
    typed-IsDecoded _ (insn_rtype_read-IsRead word) (fp_type-IsStraight _ _ _)
