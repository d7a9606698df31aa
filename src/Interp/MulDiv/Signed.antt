-- ===== src/Interp/MulDiv/Signed.antt =====
-- `mulh` and `mulhsu` of inc/interpret_utils.h and the signed products.
use riscvemu_study.Prelude.{
  ℕ, ◌+◌, ◌-◌, ◌*◌, ◌/◌, ◌%◌, ◌^◌, ◌≤◌, ◌<◌, ◌≡◌, ◌∙◌, sym, ap, arith, u64, ◌==◌, inl, inr,
  Bool-cases, true, false,
}
use mathlib.Core.Bool.{xor}
use mathlib.Core.Path.{ap₂}
use riscvemu_study.Prelude.Int.{ℤ, pos, ◌*ℤ◌, ◌+ℤ◌, sub_ℕ, to_i64}
use riscvemu_study.Interp.Imm.{of_bool}
use riscvemu_study.Interp.MulDiv.{mulhu, mulh, mulhsu, is_negative, complement, negate}
use riscvemu_study.Interp.MulDiv.High.{mulhu_lem}

-- The integer of which `h` is the high and `x` the low word.
abbrev pub words : ℕ → ℕ → ℤ
words h x = to_i64 h *ℤ pos (2 ^ 64) +ℤ pos x

words_pos : (p : ℕ) → p < 2 ^ 127 → pos p ≡ words (p / 2 ^ 64) (p % 2 ^ 64)
words_pos p h = ground arith

-- `~res + (x == 0)` is the high word of `-p` when `res` is that of `p` and `x` the low word of `-p`.
words_negated :
    (p x : ℕ)
    → p < 2 ^ 127
    → x < 2 ^ 64
    → (p + x) % 2 ^ 64 ≡ 0
    → sub_ℕ 0 p ≡ words (u64 (2 ^ 64 - 1 - p / 2 ^ 64 + of_bool (x == 0))) x
words_negated p x h hx e = ground arith

-- Products of integers by their magnitudes.
neg-*ℤ-pos : (a b : ℕ) → sub_ℕ 0 a *ℤ pos b ≡ sub_ℕ 0 (a * b)
neg-*ℤ-pos a b = ground arith

pos-*ℤ-neg : (a b : ℕ) → pos a *ℤ sub_ℕ 0 b ≡ sub_ℕ 0 (a * b)
pos-*ℤ-neg a b = ground arith

neg-*ℤ-neg : (a b : ℕ) → sub_ℕ 0 a *ℤ sub_ℕ 0 b ≡ pos (a * b)
neg-*ℤ-neg a b = ground arith

pos-*ℤ-pos : (a b : ℕ) → pos a *ℤ pos b ≡ pos (a * b)
pos-*ℤ-pos a b = ground arith

-- The low word of a product, by the magnitudes.
low_negated : (a m b : ℕ) → a + m ≡ 2 ^ 64 → (m * b + u64 (a * b)) % 2 ^ 64 ≡ 0
low_negated a m b e = omega (arith, ap (λ (t : ℕ). t * b) e)

low_right : (a b n : ℕ) → b + n ≡ 2 ^ 64 → (a * n + u64 (a * b)) % 2 ^ 64 ≡ 0
low_right a b n e = omega (arith, ap (λ (t : ℕ). a * t) e)

low_both : (a m b n : ℕ) → a + m ≡ 2 ^ 64 → b + n ≡ 2 ^ 64 → u64 (a * b) ≡ m * n % 2 ^ 64
low_both a m b n e f = omega (arith, ap (λ (t : ℕ). t * b) e, ap (λ (t : ℕ). m * t) f)

product_lt : (x y : ℕ) → x ≤ 2 ^ 63 → y < 2 ^ 64 → x * y < 2 ^ 127
product_lt x y hx hy = grind arith

-- Facts on one operand: its integer and its magnitude.
module _ (a : ℕ) (ha : a < 2 ^ 64) where
  magnitude_negative :
      is_negative a ≡ true
      → (to_i64 a ≡ sub_ℕ 0 (negate a)) × (a + negate a ≡ 2 ^ 64) × (negate a ≤ 2 ^ 63)
  magnitude_negative h = (ground arith, ground arith, ground arith)

  magnitude_positive : is_negative a ≡ false → (to_i64 a ≡ pos a) × (a < 2 ^ 63)
  magnitude_positive h = (ground arith, ground arith)

-- The branches of `mulh` and `mulhsu`, with the high word of the magnitudes computed.
module _ (a b : ℕ) where
  mulh_both : is_negative a ≡ true → is_negative b ≡ true → mulh a b ≡ mulhu (negate a) (negate b)
  unfolding mulh xor
  mulh_both p q = ground arith

  mulh_left :
      is_negative a ≡ true → is_negative b ≡ false → mulh a b ≡ complement (mulhu (negate a) b) a b
  unfolding mulh xor
  mulh_left p q = ground arith

  mulh_right :
      is_negative a ≡ false → is_negative b ≡ true → mulh a b ≡ complement (mulhu a (negate b)) a b
  unfolding mulh xor
  mulh_right p q = ground arith

  mulh_neither : is_negative a ≡ false → is_negative b ≡ false → mulh a b ≡ mulhu a b
  unfolding mulh xor
  mulh_neither p q = ground arith

-- A negative product: `m * n` is its magnitude and `r` the high word of that.
words-complement :
    (a b m n r : ℕ)
    → m * n < 2 ^ 127
    → (m * n + u64 (a * b)) % 2 ^ 64 ≡ 0
    → r ≡ m * n / 2 ^ 64
    → sub_ℕ 0 (m * n) ≡ words (complement r a b) (u64 (a * b))
words-complement a b m n r h e q = rw q (words_negated (m * n) (u64 (a * b)) h (omega arith) e)

mulhsu_negative :
    (a b : ℕ) → is_negative a ≡ true → mulhsu a b ≡ complement (mulhu (negate a) b) a b
unfolding mulhsu
mulhsu_negative a b p = ground arith

mulhsu_positive : (a b : ℕ) → is_negative a ≡ false → mulhsu a b ≡ mulhu a b
unfolding mulhsu
mulhsu_positive a b p = ground arith

-- For every pair of 64-bit patterns, the signed product of the integers that they stand for has
-- `mulh` as its high word, read as signed, and the wrapped product as its low word.
pub mulh_lem :
    (a b : ℕ)
    → a < 2 ^ 64
    → b < 2 ^ 64
    → to_i64 a *ℤ to_i64 b ≡ to_i64 (mulh a b) *ℤ pos (2 ^ 64) +ℤ pos (u64 (a * b))
mulh_lem a b ha hb = elim (Bool-cases (is_negative a)) [
  | inl p ↦
      let (v, e, l) = magnitude_negative a ha p in
      let m = negate a in
      elim (Bool-cases (is_negative b)) [
        | inl q ↦
            let (w, f, k) = magnitude_negative b hb q in
            let n = negate b in
            ap₂ ◌*ℤ◌ v w
            ∙ neg-*ℤ-neg m n
            ∙ words_pos (m * n) (product_lt m n l (omega arith))
            ∙ ap₂ words (sym (mulh_both a b p q ∙ mulhu_lem m n (omega arith) (omega arith)))
                (sym (low_both a m b n e f))
        | inr q ↦
            let (w, k) = magnitude_positive b hb q in
            ap₂ ◌*ℤ◌ v w
            ∙ neg-*ℤ-pos m b
            ∙ words-complement a b m b (mulhu m b) (product_lt m b l hb) (low_negated a m b e)
                (mulhu_lem m b (omega arith) hb)
            ∙ ap (λ t. words t (u64 (a * b))) (sym (mulh_left a b p q))
      ]
  | inr p ↦
      let (v, l) = magnitude_positive a ha p in
      elim (Bool-cases (is_negative b)) [
        | inl q ↦
            let (w, f, k) = magnitude_negative b hb q in
            let n = negate b in
            ap₂ ◌*ℤ◌ v w
            ∙ pos-*ℤ-neg a n
            ∙ words-complement a b a n (mulhu a n) (product_lt a n (omega arith) (omega arith))
                (low_right a b n f) (mulhu_lem a n ha (omega arith))
            ∙ ap (λ t. words t (u64 (a * b))) (sym (mulh_right a b p q))
        | inr q ↦
            let (w, k) = magnitude_positive b hb q in
            ap₂ ◌*ℤ◌ v w
            ∙ pos-*ℤ-pos a b
            ∙ words_pos (a * b) (product_lt a b (omega arith) hb)
            ∙ ap (λ t. words t (u64 (a * b))) (sym (mulh_neither a b p q ∙ mulhu_lem a b ha hb))
      ]
]

-- For every pair of 64-bit patterns, the product of the first, read as signed, and the second,
-- read as unsigned, has `mulhsu` as its high word, read as signed, and the wrapped product as its
-- low word.
pub mulhsu_lem :
    (a b : ℕ)
    → a < 2 ^ 64
    → b < 2 ^ 64
    → to_i64 a *ℤ pos b ≡ to_i64 (mulhsu a b) *ℤ pos (2 ^ 64) +ℤ pos (u64 (a * b))
mulhsu_lem a b ha hb = elim (Bool-cases (is_negative a)) [
  | inl p ↦
      let (v, e, l) = magnitude_negative a ha p in
      let m = negate a in
      ap (λ t. t *ℤ pos b) v
      ∙ neg-*ℤ-pos m b
      ∙ words-complement a b m b (mulhu m b) (product_lt m b l hb) (low_negated a m b e)
          (mulhu_lem m b (omega arith) hb)
      ∙ ap (λ t. words t (u64 (a * b))) (sym (mulhsu_negative a b p))
  | inr p ↦
      let (v, l) = magnitude_positive a ha p in
      ap (λ t. t *ℤ pos b) v
      ∙ pos-*ℤ-pos a b
      ∙ words_pos (a * b) (product_lt a b (omega arith) hb)
      ∙ ap (λ t. words t (u64 (a * b))) (sym (mulhsu_positive a b p ∙ mulhu_lem a b ha hb))
]
