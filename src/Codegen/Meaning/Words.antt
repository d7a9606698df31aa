-- ===== src/Codegen/Meaning/Words.antt =====
-- Patterns of bits that the printed C and the interpreter compute in different ways.
use native.Mathlib.Nat.{
  pow-suc, one-le-pow, div-le_self, div-lt_iff_lt-mul, mul_assoc, div-add-mod',
}
use riscvemu_study.Prelude.{
  ◌==◌, if◌then◌else◌, ok, fault, sigfpe, sym, some, ◌∙◌, update, ℕ, zero, suc, ◌+◌, ◌-◌, ◌*◌, ◌/◌,
  ◌%◌, ◌^◌, ◌<◌, ◌≤◌, ◌≡◌, refl, arith, u32, u64, sext, sar32, bit_and, ap, ◌==◌,
}
use riscvemu_study.Prelude.Bits.{bit_and_mask}
use riscvemu_study.Prelude.Int.{ℤ, to_i64, to_i32}
use riscvemu_study.Interp.MulDiv.{divide_signed}
use riscvemu_study.State.{Memory, store_bytes}

-- The amount of a shift is the same before and after the immediate is extended, and an `int` can
-- hold it.
pub amount64 : (x : ℕ) → x < 2 ^ 32 → bit_and (sext 32 x) 0x3f ≡ bit_and x 0x3f
amount64 x h = ground (arith, bit_and_mask 6 (sext 32 x), bit_and_mask 6 x)

pub amount32 : (x : ℕ) → x < 2 ^ 32 → bit_and (sext 32 x) 0x1f ≡ bit_and x 0x1f
amount32 x h = ground (arith, bit_and_mask 5 (sext 32 x), bit_and_mask 5 x)

pub small64 : (x : ℕ) → u32 (sext 32 (bit_and x 0x3f)) ≡ bit_and x 0x3f
small64 x = ground (arith, bit_and_mask 6 x)

pub small32 : (x : ℕ) → u32 (sext 32 (bit_and x 0x1f)) ≡ bit_and x 0x1f
small32 x = ground (arith, bit_and_mask 5 x)

-- A store of n bytes reads no higher bits.
store_bytes_above :
    (n : ℕ) (m : Memory) (a q r : ℕ) → store_bytes m a n (q * 256 ^ n + r) ≡ store_bytes m a n r
unfolding store_bytes
store_bytes_above zero m a q r = refl
store_bytes_above (suc n) m a q r =
    let above : q * 256 ^ suc n ≡ q * 256 ^ n * 256 =
      rw (pow-suc 256 n) (sym (mul_assoc q (256 ^ n) 256)) in
    let byte : (q * 256 ^ suc n + r) % 256 ≡ r % 256 = rw above (omega arith) in
    let rest : (q * 256 ^ suc n + r) / 256 ≡ q * 256 ^ n + r / 256 = rw above (omega arith) in
    rw byte (
      rw rest (
        ground
          (arith, store_bytes_above n (update m a (some (r % 256))) (u64 (a + 1)) q (r / 256))))

pub store_bytes_same :
    (n : ℕ) (m : Memory) (a v : ℕ) → store_bytes m a n (v % 256 ^ n) ≡ store_bytes m a n v
store_bytes_same n m a v =
    sym (store_bytes_above n m a (v / 256 ^ n) (v % 256 ^ n))
    ∙ ap (store_bytes m a n) (div-add-mod' v (256 ^ n))

pub sign_of_word : (y : ℕ) → y < 2 ^ 32 → to_i64 (sext 32 y) ≡ to_i32 y
sign_of_word y h = ground arith

swap : (a b : ℕ) → a * (b * 2) ≡ a * 2 * b
swap a b = omega arith

halves : (k : ℕ) → k ≤ 32 → 2 ^ (32 - k) * 2 ^ k ≡ 2 ^ 32
halves zero h = refl
halves (suc k) h =
    let first : 32 - k ≡ suc (32 - suc k) = omega arith in
    let rest = halves k (omega arith) in
    let more : 2 ^ (32 - k) ≡ 2 ^ (32 - suc k) * 2 =
      ap (λ (t : ℕ). 2 ^ t) first ∙ pow-suc 2 (32 - suc k) in
    rw (pow-suc 2 k) (swap (2 ^ (32 - suc k)) (2 ^ k) ∙ ap (λ (t : ℕ). t * 2 ^ k) (sym more) ∙ rest)

sar32_lt : (x k : ℕ) → x < 2 ^ 32 → k < 32 → sar32 x k < 2 ^ 32
sar32_lt x k h b =
    let whole : 2 ^ (32 - k) * 2 ^ k ≡ 2 ^ 32 = halves k (omega arith) in
    let quotient : x / 2 ^ k < 2 ^ (32 - k) =
      (div-lt_iff_lt-mul (one-le-pow k 2 (omega arith))).1 (rw whole h) in
    let kept = div-le_self x (2 ^ k) in ground arith

pub sar32_word :
    (x y : ℕ) → u32 (sext 32 (sar32 (u32 x) (bit_and y 0x1f))) ≡ sar32 (u32 x) (bit_and y 0x1f)
sar32_word x y = ground (
  arith,
  bit_and_mask 5 y,
  sar32_lt (u32 x) (bit_and y 0x1f) (omega arith) (omega (arith, bit_and_mask 5 y)),
)

-- Division of 64-bit patterns, at two extended words
pub divide_signed-words :
    (f : ℤ → ℤ → ℕ) (x y : ℕ)
    → divide_signed (λ a b. f (to_i64 a) (to_i64 b)) (2 ^ 63) (sext 32 (u32 x)) (sext 32 (u32 y))
      ≡ (if u32 y == 0 then fault sigfpe else ok (f (to_i32 (u32 x)) (to_i32 (u32 y))))
unfolding divide_signed
divide_signed-words f x y =
    rw (sign_of_word (u32 x) (omega arith)) (rw (sign_of_word (u32 y) (omega arith)) (ground arith))
