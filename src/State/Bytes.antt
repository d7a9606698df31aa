-- ===== src/State/Bytes.antt =====
-- Loads and stores of several bytes: what they need mapped, and the round trip.
use riscvemu_study.Prelude.{
  ℕ, zero, suc, ◌+◌, ◌/◌, ◌%◌, ◌^◌, ◌≤◌, ◌<◌, ◌≡◌, ◌≢◌, arith, u64, update, none, some, ok, chained,
  sym, ap, ◌∙◌, ◌*◌,
}
use native.Mathlib.Nat.{
  pow-suc, one-le-pow, div-add-mod, mod-lt, add-mul-mod_self_left, mod-eq_of_lt,
}
use riscvemu_study.State.{Memory, byte_at, load_bytes, store_bytes}

-- Nothing is mapped from `top` on.
abbrev pub IsBelow : ℕ → Memory → Type 0
IsBelow top m = (a : ℕ) → top ≤ a → m a ≡ none

byte_at-none : (m : Memory) (a : ℕ) {b : ℕ} → byte_at m a ≡ ok b → m a ≢ none
unfolding byte_at
byte_at-none m a e h = ground arith

mapped_below : (m : Memory) (top a : ℕ) {b : ℕ} → IsBelow top m → byte_at m a ≡ ok b → a < top
mapped_below m top a h e = ground (arith, h a, byte_at-none m a e)

-- A load that succeeds stays below `top`.
pub load_bytes_below :
    (n : ℕ) (m : Memory) (top a : ℕ) {v : ℕ}
    → IsBelow top m
    → top < 2 ^ 64
    → a ≤ top
    → load_bytes m a n ≡ ok v
    → a + n ≤ top
unfolding load_bytes
load_bytes_below zero m top a h t p e = omega arith
load_bytes_below (suc n) m top a h t p e =
    let byte = chained (byte_at m a) e in
    let rest = chained (load_bytes m (u64 (a + 1)) n) byte.second in
    let here : a < top = mapped_below m top a h byte.first in
    let next : u64 (a + 1) ≡ a + 1 = omega arith in
    let there = load_bytes_below n m top (u64 (a + 1)) h t (omega arith) rest.first in omega arith

-- A store maps nothing new.
pub store_bytes-IsBelow :
    (n : ℕ) (m : Memory) (top a v : ℕ) {m' : Memory}
    → IsBelow top m
    → store_bytes m a n v ≡ ok m'
    → IsBelow top m'
unfolding store_bytes
store_bytes-IsBelow zero m top a v h e = λ b q. ground (arith, h b q, e)
store_bytes-IsBelow (suc n) m top a v h e =
    let byte = chained (byte_at m a) e in
    let here : a < top = mapped_below m top a h byte.first in
    store_bytes-IsBelow n (update m a (some (v % 256))) top (u64 (a + 1)) (v / 256)
      (λ b q. ground (arith, h b q)) byte.second

-- A store does not change what is below it.
pub store_bytes_keeps :
    (n : ℕ) (m : Memory) (a v b : ℕ) {m' : Memory}
    → b < a
    → a + n < 2 ^ 64
    → store_bytes m a n v ≡ ok m'
    → m' b ≡ m b
unfolding store_bytes
store_bytes_keeps zero m a v b h p e = ground (arith, e)
store_bytes_keeps (suc n) m a v b h p e =
    let byte = chained (byte_at m a) e in
    store_bytes_keeps n (update m a (some (v % 256))) (u64 (a + 1)) (v / 256) b (omega arith)
      (omega arith) byte.second
    ∙ ground arith

-- The lowest byte and the rest make up a number of `n + 1` bytes.
low_byte : (n v : ℕ) → v % 256 + 256 * (v / 256 % 256 ^ n) ≡ v % 256 ^ suc n
low_byte n v =
    let p = 256 ^ n in
    let q = v / 256 in
    let positive : 0 < p = one-le-pow n 256 (omega arith) in
    let scaled : 256 ^ suc n * (q / p) ≡ 256 * (p * (q / p)) = rw (pow-suc 256 n) (omega arith) in
    let whole : v ≡ v % 256 + 256 * (q % p) + 256 ^ suc n * (q / p) =
      omega (arith, div-add-mod q p, scaled) in
    let small : v % 256 + 256 * (q % p) < 256 ^ suc n =
      omega (arith, mod-lt q positive, pow-suc 256 n) in
    sym (
      ap (λ (x : ℕ). x % 256 ^ suc n) whole
      ∙ add-mul-mod_self_left (v % 256 + 256 * (q % p)) (256 ^ suc n) (q / p)
      ∙ mod-eq_of_lt small)

-- A load of `n` bytes gives back what a store of `n` bytes at the same address wrote: the value,
-- cut to `n` bytes. The addresses do not reach the end of the 64-bit space.
pub load_bytes-store_bytes :
    (n : ℕ) (m : Memory) (a v : ℕ) {m' : Memory}
    → a + n < 2 ^ 64
    → store_bytes m a n v ≡ ok m'
    → load_bytes m' a n ≡ ok (v % 256 ^ n)
unfolding store_bytes load_bytes
load_bytes-store_bytes zero m a v p e = ground arith
load_bytes-store_bytes (suc n) m a v {m'} p e =
    let byte = chained (byte_at m a) e in
    let m₁ = update m a (some (v % 256)) in
    let next : u64 (a + 1) ≡ a + 1 = omega arith in
    let kept : m' a ≡ some (v % 256) =
      store_bytes_keeps n m₁ (u64 (a + 1)) (v / 256) a (omega arith) (omega arith) byte.second
      ∙ ground arith in
    let there : byte_at m' a ≡ ok (v % 256) = unfold byte_at in ground (arith, kept) in
    let rest =
      load_bytes-store_bytes n m₁ (u64 (a + 1)) (v / 256) {m' = m'} (omega arith) byte.second in
    rw (there, rest) (ap (λ (x : ℕ). ok x) (low_byte n v))
