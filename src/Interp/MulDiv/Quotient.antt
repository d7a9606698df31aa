-- ===== src/Interp/MulDiv/Quotient.antt =====
-- `div` and `rem` of src/interpret.c on signed values.
use riscvemu_study.Prelude.{
  suc, zero, ◌-◌, ℕ, ◌+◌, ◌/◌, ◌^◌, ◌<◌, ◌≤◌, ◌≡◌, ◌≢◌, refl, arith, Bool-cases, inl, inr, ltb,
}
use native.Mathlib.Nat.{div-add-mod, mod-lt, mod-le, div-le_self, div-lt_self, div-one}
use riscvemu_study.Prelude.Int.{
  ℤ, pos, negsuc, to_i64, quot, remainder, of_ℤ, ◌+ℤ◌, ◌*ℤ◌, pos_part, neg_part,
}
use riscvemu_study.Interp.MulDiv.{div_value, rem_value}

-- C's quotient and remainder.
quot-remainder : (a b : ℤ) → b ≢ pos 0 → quot a b *ℤ b +ℤ remainder a b ≡ a
unfolding quot remainder
quot-remainder (pos a) (pos b) h = ground (arith, div-add-mod a b)
quot-remainder (pos a) (negsuc b) h = ground (arith, div-add-mod a (suc b))
quot-remainder (negsuc a) (pos b) h = ground (arith, div-add-mod (suc a) b)
quot-remainder (negsuc a) (negsuc b) h = ground (arith, div-add-mod (suc a) (suc b))

-- The integers of an i64.
abbrev IsI64 : ℤ → Type 0
IsI64 z = (pos_part z < 2 ^ 63) × (neg_part z ≤ 2 ^ 63)

to_i64-IsI64 : (a : ℕ) → a < 2 ^ 64 → IsI64 (to_i64 a)
to_i64-IsI64 a h = elim (Bool-cases (ltb a (2 ^ 63))) [
  | inl p ↦ ground arith
  | inr p ↦ ground arith
]

to_i64-of_ℤ : (z : ℤ) → IsI64 z → to_i64 (of_ℤ z) ≡ z
to_i64-of_ℤ (pos n) h = ground arith
to_i64-of_ℤ (negsuc n) h = ground arith

quot-IsI64 :
    (a b : ℤ) → IsI64 a → b ≢ pos 0 → (neg_part a ≡ 2 ^ 63 → neg_part b ≢ 1) → IsI64 (quot a b)
unfolding quot
quot-IsI64 (pos a) (pos b) h n o = ground (arith, div-le_self a b)
quot-IsI64 (pos a) (negsuc b) h n o = ground (arith, div-le_self a (suc b))
quot-IsI64 (negsuc a) (pos b) h n o = ground (arith, div-le_self (suc a) b)
quot-IsI64 (negsuc a) (negsuc zero) h n o = ground (arith, div-one (suc a))
quot-IsI64 (negsuc a) (negsuc (suc b)) h n o =
    let less : suc a / suc (suc b) < suc a = div-lt_self (omega arith) (omega arith) in ground arith

remainder-IsI64 : (a b : ℤ) → IsI64 a → IsI64 (remainder a b)
unfolding remainder
remainder-IsI64 (pos a) (pos b) h = ground (arith, mod-le a b)
remainder-IsI64 (pos a) (negsuc b) h = ground (arith, mod-le a (suc b))
remainder-IsI64 (negsuc a) (pos b) h = ground (arith, mod-le (suc a) b)
remainder-IsI64 (negsuc a) (negsuc b) h = ground (arith, mod-le (suc a) (suc b))

-- The remainder is smaller than the divisor, and has the dividend's sign.
remainder_small :
    (a b : ℤ)
    → b ≢ pos 0
    → (pos_part (remainder a b) + neg_part (remainder a b) < pos_part b + neg_part b)
      × (pos_part (remainder a b) ≤ pos_part a)
      × (neg_part (remainder a b) ≤ neg_part a)
unfolding remainder
remainder_small (pos a) (pos zero) h = absurd (h refl)
remainder_small (pos a) (pos (suc b)) h =
    ground (arith, mod-lt a {m = suc b} (omega arith), mod-le a (suc b))
remainder_small (pos a) (negsuc b) h =
    ground (arith, mod-lt a {m = suc b} (omega arith), mod-le a (suc b))
remainder_small (negsuc a) (pos zero) h = absurd (h refl)
remainder_small (negsuc a) (pos (suc b)) h =
    ground (arith, mod-lt (suc a) {m = suc b} (omega arith), mod-le (suc a) (suc b))
remainder_small (negsuc a) (negsuc b) h =
    ground (arith, mod-lt (suc a) {m = suc b} (omega arith), mod-le (suc a) (suc b))

-- For 64-bit words with a divisor other than 0, and not for -2^63 by -1, `div` and `rem` divide
-- the signed values with remainder: the quotient times the divisor, plus the remainder, is the
-- dividend, and the remainder is smaller than the divisor and has the dividend's sign.
pub div_value-rem_value :
    (a b : ℕ)
    → a < 2 ^ 64
    → b < 2 ^ 64
    → b ≢ 0
    → (a ≡ 2 ^ 63 → b ≢ 2 ^ 64 - 1)
    → let r = to_i64 (rem_value a b) in
      (to_i64 (div_value a b) *ℤ to_i64 b +ℤ r ≡ to_i64 a)
      × (pos_part r + neg_part r < pos_part (to_i64 b) + neg_part (to_i64 b))
      × (pos_part r ≤ pos_part (to_i64 a))
      × (neg_part r ≤ neg_part (to_i64 a))
unfolding div_value rem_value
div_value-rem_value a b ha hb n o =
    let x = to_i64 a in
    let y = to_i64 b in
    let nonzero : y ≢ pos 0 = ground arith in
    let bound : neg_part x ≡ 2 ^ 63 → neg_part y ≢ 1 = ground arith in
    let q : div_value a b ≡ of_ℤ (quot x y) = ground arith in
    let r : rem_value a b ≡ of_ℤ (remainder x y) = ground arith in
    let fits = to_i64-IsI64 a ha in
    let small = remainder_small x y nonzero in
    rw
      (
        q,
        r,
        to_i64-of_ℤ (quot x y) (quot-IsI64 x y fits nonzero bound),
        to_i64-of_ℤ (remainder x y) (remainder-IsI64 x y fits),
      )
      (quot-remainder x y nonzero, small.0, small.1, small.2)
