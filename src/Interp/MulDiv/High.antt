-- ===== src/Interp/MulDiv/High.antt =====
-- `mulhu` of inc/interpret_utils.h and the product of two words.
use riscvemu_study.Prelude.{
  ℕ, ◌+◌, ◌-◌, ◌*◌, ◌/◌, ◌%◌, ◌^◌, ◌≤◌, ◌<◌, ◌≡◌, arith, u32, u64, ◌∙◌, sym, ap,
}
use mathlib.Core.Path.{ap₂}
use riscvemu_study.Prelude.Bits.{bit_or_above}
use riscvemu_study.Interp.MulDiv.{mulhu}

-- The high word, from the products of the halves.
abbrev high_of : ℕ → ℕ → ℕ → ℕ → ℕ
high_of p11 p10 p01 p00 =
    let t = u64 (p10 + u64 p00 / 2 ^ 32) in
    let t' = u64 (p01 + u32 t) in u64 (p11 + t / 2 ^ 32 + t' / 2 ^ 32)

abbrev max_product : ℕ
max_product = (2 ^ 32 - 1) * (2 ^ 32 - 1)

high_of_lem :
    (p11 p10 p01 p00 : ℕ)
    → p11 ≤ max_product
    → p10 ≤ max_product
    → p01 ≤ max_product
    → p00 ≤ max_product
    → high_of p11 p10 p01 p00 ≡ (p11 * 2 ^ 64 + (p10 + p01) * 2 ^ 32 + p00) / 2 ^ 64
high_of_lem p11 p10 p01 p00 h11 h10 h01 h00 = omega arith

product_le : (x y : ℕ) → x < 2 ^ 32 → y < 2 ^ 32 → x * y ≤ max_product
product_le x y hx hy = grind arith

split_product :
    (a1 a0 b1 b0 : ℕ)
    → (a1 * 2 ^ 32 + a0) * (b1 * 2 ^ 32 + b0)
      ≡ a1 * b1 * 2 ^ 64 + (a1 * b0 + a0 * b1) * 2 ^ 32 + a0 * b0
split_product a1 a0 b1 b0 = omega arith

-- For two 64-bit words, the routine that multiplies by 32-bit halves returns the high 64 bits of the product.
pub mulhu_lem : (a b : ℕ) → a < 2 ^ 64 → b < 2 ^ 64 → mulhu a b ≡ a * b / 2 ^ 64
unfolding mulhu
mulhu_lem a b ha hb =
    let a1 = a / 2 ^ 32 in
    let a0 = a % 2 ^ 32 in
    let b1 = b / 2 ^ 32 in
    let b0 = b % 2 ^ 32 in
    let high = high_of (a1 * b1) (a1 * b0) (a0 * b1) (a0 * b0) in
    let joined : mulhu a b ≡ high =
      bit_or_above 32 (high / 2 ^ 32) (high % 2 ^ 32) (omega arith) ∙ omega arith in
    let value =
      high_of_lem (a1 * b1) (a1 * b0) (a0 * b1) (a0 * b0)
        (product_le a1 b1 (omega arith) (omega arith))
        (product_le a1 b0 (omega arith) (omega arith))
        (product_le a0 b1 (omega arith) (omega arith))
        (product_le a0 b0 (omega arith) (omega arith)) in
    let whole : a * b ≡ (a1 * 2 ^ 32 + a0) * (b1 * 2 ^ 32 + b0) =
      ap₂ ◌*◌ (omega arith) (omega arith) in
    joined ∙ value ∙ ap (λ t. t / 2 ^ 64) (sym (whole ∙ split_product a1 a0 b1 b0))
