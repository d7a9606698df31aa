-- ===== src/Prelude/Bits.antt =====
-- `|` of fields that do not overlap and `&` with a low mask, as arithmetic.
use Prim.Native.Nat.{min, max, digits, bitwise, bit_and-bitwise, bit_or-bitwise}
use Prim.Native.Nat.{ℕ, zero, suc, ◌+◌, ◌-◌, ◌*◌, ◌/◌, ◌%◌, ◌^◌, ◌≤◌, ◌<◌, bit_and, bit_or}
use mathlib.Core.Path.{◌≡◌, refl, sym, subst, ap, ◌∙◌}
use native.Mathlib.Nat.{le_refl, pow-suc, one-le-pow, add-zero}
use native.Mathlib.Omega.{arith}

module _ (z : ℕ → ℕ) (f : ℕ → ℕ → ℕ) where
  digits-zero : (n b : ℕ) → digits z f n 0 b ≡ z b
  digits-zero zero b = refl
  digits-zero (suc n) b = refl

  -- A count of at least the number is enough.
  digits_settle : (n k a b : ℕ) → a ≤ n → digits z f (n + k) a b ≡ digits z f n a b
  digits_settle n k zero b h = digits-zero (n + k) b ∙ sym (digits-zero n b)
  digits_settle zero k (suc a) b h = absurd (omega arith)
  digits_settle (suc n) k (suc a) b h =
      let count : suc n + k ≡ suc (n + k) = omega arith in
      ap (λ (m : ℕ). digits z f m (suc a) b) count
      ∙ ap (λ (t : ℕ). t * 2 + f (suc a % 2) (b % 2))
          (digits_settle n k (suc a / 2) (b / 2) (omega arith))

  -- An operation takes off the lowest digit if its result at 0 does.
  bitwise_halves :
      ((b : ℕ) → z b ≡ z (b / 2) * 2 + f 0 (b % 2))
      → (a b : ℕ) → bitwise z f a b ≡ bitwise z f (a / 2) (b / 2) * 2 + f (a % 2) (b % 2)
  bitwise_halves at_zero zero b = at_zero b
  bitwise_halves at_zero (suc a) b =
      let half = suc a / 2 in
      let count : a ≡ half + (a - half) = omega arith in
      ap (λ (t : ℕ). t * 2 + f (suc a % 2) (b % 2))
        (ap (λ (n : ℕ). digits z f n half (b / 2)) count
          ∙ digits_settle half (a - half) half (b / 2) (le_refl half))

pub bit_or_step : (x y : ℕ) → bit_or x y ≡ bit_or (x / 2) (y / 2) * 2 + max (x % 2) (y % 2)
bit_or_step x y = simp bit_or-bitwise (bitwise_halves (λ t. t) max (λ b. omega arith) x y)

pub bit_and_step : (x y : ℕ) → bit_and x y ≡ bit_and (x / 2) (y / 2) * 2 + min (x % 2) (y % 2)
bit_and_step x y = simp bit_and-bitwise (bitwise_halves (λ t. 0) min (λ b. omega arith) x y)

zero_bit_or : (b : ℕ) → bit_or 0 b ≡ b
zero_bit_or b = simp bit_or-bitwise (omega arith)

-- Both operations with 0, by halving.
with_zero : (left x : ℕ) → x ≤ left → (bit_and x 0 ≡ 0) × (bit_or x 0 ≡ x)
with_zero left zero h = (refl, refl)
with_zero zero (suc x) h = absurd (omega arith)
with_zero (suc left) (suc x) h =
    let (none_left, all_kept) = with_zero left (suc x / 2) (omega arith) in
    (
      omega (arith, bit_and_step (suc x) 0, none_left),
      omega (arith, bit_or_step (suc x) 0, all_kept),
    )

pub bit_or-zero : (a : ℕ) → bit_or a 0 ≡ a
bit_or-zero a = (with_zero a a (omega arith)).1

double_shift : (field k : ℕ) → field * 2 ^ suc k ≡ field * 2 ^ k * 2
double_shift field k =
    let doubled : 2 ^ suc k ≡ 2 ^ k * 2 = omega (arith, pow-suc 2 k) in rw doubled (omega arith)

-- `x | (m << k)` is a sum when the bits of `x` from `k` on that `m` fills are clear:
-- `x` is `q * 2 ^ w` above `m`'s field, shifted by `k`, with `r` below it.
pub bit_or_above : (w q m : ℕ) → m < 2 ^ w → bit_or (q * 2 ^ w) m ≡ q * 2 ^ w + m
bit_or_above zero q m h = ground (arith, bit_or-zero q)
bit_or_above (suc w) q m h = ground (
  arith,
  bit_or_step (q * 2 ^ suc w) m,
  double_shift q w,
  bit_or_above w q (m / 2) (omega (arith, pow-suc 2 w)),
)

pub bit_or_insert :
    (k w q m r : ℕ)
    → m < 2 ^ w
    → r < 2 ^ k
    → bit_or (q * 2 ^ w * 2 ^ k + r) (m * 2 ^ k) ≡ q * 2 ^ w * 2 ^ k + r + m * 2 ^ k
bit_or_insert zero w q m r hm hr = ground (arith, bit_or_above w q m hm)
bit_or_insert (suc k) w q m r hm hr = ground (
  arith,
  bit_or_step (q * 2 ^ w * 2 ^ suc k + r) (m * 2 ^ suc k),
  double_shift (q * 2 ^ w) k,
  double_shift m k,
  bit_or_insert k w q m (r / 2) hm (omega (arith, pow-suc 2 k)),
)

-- The same for a number whose clear bits are stated by its quotient and remainder.
pub bit_or_field :
    (k w x m : ℕ)
    → x ≡ x / 2 ^ k / 2 ^ w * 2 ^ w * 2 ^ k + x % 2 ^ k
    → m < 2 ^ w
    → bit_or x (m * 2 ^ k) ≡ x + m * 2 ^ k
bit_or_field k w x m hx hm =
    subst (λ y. bit_or y (m * 2 ^ k) ≡ y + m * 2 ^ k) (sym hx)
      (bit_or_insert k w (x / 2 ^ k / 2 ^ w) m (x % 2 ^ k) hm (grind (arith, one-le-pow k 2)))

bit_and_fields : (k q r : ℕ) → r < 2 ^ k → bit_and (q * 2 ^ k + r) (2 ^ k - 1) ≡ r
bit_and_fields zero q r h = ground (arith, (with_zero (q * 1 + r) (q * 1 + r) (omega arith)).0)
bit_and_fields (suc k) q r h = ground (
  arith,
  bit_and_step (q * 2 ^ suc k + r) (2 ^ suc k - 1),
  double_shift q k,
  pow-suc 2 k,
  one-le-pow k 2,
  bit_and_fields k q (r / 2) (omega (arith, pow-suc 2 k)),
)

-- A mask of `k` low bits is the remainder by `2 ^ k`.
pub bit_and_mask : (k a : ℕ) → bit_and a (2 ^ k - 1) ≡ a % 2 ^ k
bit_and_mask k a =
    let parts = bit_and_fields k (a / 2 ^ k) (a % 2 ^ k) in ground (arith, parts, one-le-pow k 2)

bit_and_shifted :
    (k q r m : ℕ) → r < 2 ^ k → bit_and (q * 2 ^ k + r) (m * 2 ^ k) ≡ bit_and q m * 2 ^ k
bit_and_shifted zero q r m h =
    let e : r ≡ 0 = omega arith in rw e (ground (arith, ap (λ (t : ℕ). bit_and t m) (add-zero q)))
bit_and_shifted (suc k) q r m h = ground (
  arith,
  bit_and_step (q * 2 ^ suc k + r) (m * 2 ^ suc k),
  double_shift q k,
  double_shift m k,
  double_shift (bit_and q m) k,
  bit_and_shifted k q (r / 2) m (omega (arith, pow-suc 2 k)),
)

-- A mask of `j` bits from bit `k` on clears the others.
pub bit_and_high : (k j a : ℕ) → bit_and a ((2 ^ j - 1) * 2 ^ k) ≡ a / 2 ^ k % 2 ^ j * 2 ^ k
bit_and_high k j a = ground (
  arith,
  one-le-pow k 2,
  bit_and_shifted k (a / 2 ^ k) (a % 2 ^ k) (2 ^ j - 1),
  bit_and_mask j (a / 2 ^ k),
)
