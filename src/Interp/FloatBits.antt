-- ===== src/Interp/FloatBits.antt =====
-- Sign injection and classification of floats by their bits: inc/interpret_utils.h.
use mathlib.Core.Bool.{not}
use riscvemu_study.Prelude.{
  ℕ, ◌-◌, ◌^◌, ◌==◌, if◌then◌else◌, Bool, ◌&&◌, bit_and, bit_or, bit_xor, ◌<<<◌, ◌>>>◌,
}
use riscvemu_study.Interp.Imm.{of_bool}

abbrev pub f32_sign : ℕ
f32_sign = 2 ^ 31

abbrev pub f64_sign : ℕ
f64_sign = 2 ^ 63

-- `~F32_SIGN` is `F32_SIGN - 1` on u32, and so for 64 bits.
unfoldable pub fsgnj32 : ℕ → ℕ → Bool → Bool → ℕ
fsgnj32 a b n x =
    let v = if x then a else if n then f32_sign else 0 in
    bit_or (bit_and a (f32_sign - 1)) (bit_and (bit_xor v b) f32_sign)

unfoldable pub fsgnj64 : ℕ → ℕ → Bool → Bool → ℕ
fsgnj64 a b n x =
    let v = if x then a else if n then f64_sign else 0 in
    bit_or (bit_and a (f64_sign - 1)) (bit_and (bit_xor v b) f64_sign)

-- The ten classes of a float, from its exponent, fraction and sign tests.
unfoldable pub class_mask : Bool → Bool → Bool → Bool → Bool → Bool → ℕ
class_mask sign inf_or_nan subnormal_or_zero frac_zero is_nan is_snan =
    let bit = λ (c : Bool) (k : ℕ). of_bool c <<< k in
    let normal = not inf_or_nan && not subnormal_or_zero in
    let subnormal = subnormal_or_zero && not frac_zero in
    let is_zero = subnormal_or_zero && frac_zero in
    let negative =
      bit_or
        (bit_or (bit_or (bit (sign && inf_or_nan && frac_zero) 0) (bit (sign && normal) 1))
          (bit (sign && subnormal) 2))
        (bit (sign && is_zero) 3) in
    let positive =
      bit_or
        (bit_or (bit_or (bit (not sign && inf_or_nan && frac_zero) 7) (bit (not sign && normal) 6))
          (bit (not sign && subnormal) 5))
        (bit (not sign && is_zero) 4) in
    bit_or (bit_or (bit_or negative positive) (bit (is_nan && is_snan) 8))
      (bit (is_nan && not is_snan) 9)

unfoldable pub f32_classify : ℕ → ℕ
f32_classify ui =
    let exp = bit_and (ui >>> 23) 0xff in
    let frac = bit_and ui 0x007fffff in
    class_mask (ui >>> 31 == 1) (exp == 0xff) (exp == 0) (frac == 0)
      ((exp == 0xff) && not (frac == 0))
      ((bit_and ui 0x7fc00000 == 0x7f800000) && not (bit_and ui 0x003fffff == 0))

unfoldable pub f64_classify : ℕ → ℕ
f64_classify ui =
    let exp = bit_and (ui >>> 52) 0x7ff in
    let frac = bit_and ui 0x000fffffffffffff in
    class_mask (ui >>> 63 == 1) (exp == 0x7ff) (exp == 0) (frac == 0)
      ((exp == 0x7ff) && not (frac == 0))
      ((bit_and ui 0x7ff8000000000000 == 0x7ff0000000000000)
        && not (bit_and ui 0x0007ffffffffffff == 0))
