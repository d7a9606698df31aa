-- ===== src/Machine/Setup/Copy.antt =====
-- What a copy of bytes leaves where it goes.
use riscvemu_study.Prelude.{
  ℕ, zero, suc, ◌+◌, ◌^◌, ◌≤◌, ◌<◌, ◌≡◌, ◌∙◌, sym, refl, arith, List, [], ◌∷◌, some, update, u64,
  ok, chained, length,
}
use riscvemu_study.State.{Memory, byte_at, load_bytes}
use riscvemu_study.Mmu.Elf.{field}
use riscvemu_study.Machine.Setup.{write_bytes, read_bytes, memmove}

load_bytes-read_bytes :
    (k n : ℕ) (m : Memory) (at : ℕ) {bytes : List ℕ}
    → k ≤ n
    → read_bytes m at n ≡ ok bytes
    → load_bytes m at k ≡ ok (field 0 k bytes)
unfolding read_bytes load_bytes field
load_bytes-read_bytes zero n m at h e = refl
load_bytes-read_bytes (suc k) zero m at h e = absurd (omega arith)
load_bytes-read_bytes (suc k) (suc n) m at h e =
    let byte = chained (byte_at m at) e in
    let rest = chained (read_bytes m (u64 (at + 1)) n) byte.second in
    let tail =
      load_bytes-read_bytes k n m (u64 (at + 1)) {bytes = rest.between} (omega arith) rest.first in
    ground (arith, byte.first, rest.second, tail)

length-read_bytes :
    (n : ℕ) (m : Memory) (at : ℕ) {bytes : List ℕ} → read_bytes m at n ≡ ok bytes → length bytes ≡ n
unfolding read_bytes
length-read_bytes zero m at e = ground arith
length-read_bytes (suc n) m at e =
    let byte = chained (byte_at m at) e in
    let rest = chained (read_bytes m (u64 (at + 1)) n) byte.second in
    ground
      (arith, rest.second, length-read_bytes n m (u64 (at + 1)) {bytes = rest.between} rest.first)

write_bytes_keeps :
    (bytes : List ℕ) (m : Memory) (at b : ℕ) {m' : Memory}
    → b < at
    → at + length bytes < 2 ^ 64
    → write_bytes m at bytes ≡ ok m'
    → m' b ≡ m b
unfolding write_bytes
write_bytes_keeps [] m at b h p e = ground arith
write_bytes_keeps (x ∷ bytes) m at b {m' = m'} h p e =
    let byte = chained (byte_at m at) e in
    write_bytes_keeps bytes (update m at (some x)) (u64 (at + 1)) b {m' = m'} (omega arith)
      (omega arith) byte.second
    ∙ ground arith

load_bytes-write_bytes :
    (k : ℕ) (bytes : List ℕ) (m : Memory) (at : ℕ) {m' : Memory}
    → k ≤ length bytes
    → at + length bytes < 2 ^ 64
    → write_bytes m at bytes ≡ ok m'
    → load_bytes m' at k ≡ ok (field 0 k bytes)
unfolding write_bytes load_bytes field
load_bytes-write_bytes zero bytes m at h p e = refl
load_bytes-write_bytes (suc k) [] m at h p e = absurd (omega arith)
load_bytes-write_bytes (suc k) (x ∷ bytes) m at {m' = m'} h p e =
    let byte = chained (byte_at m at) e in
    let kept : m' at ≡ some x =
      write_bytes_keeps bytes (update m at (some x)) (u64 (at + 1)) at {m' = m'} (omega arith)
        (omega arith) byte.second
      ∙ ground arith in
    let there : byte_at m' at ≡ ok x = unfold byte_at in ground (arith, kept) in
    let tail =
      load_bytes-write_bytes k bytes (update m at (some x)) (u64 (at + 1)) {m' = m'} (omega arith)
        (omega arith) byte.second in
    ground (arith, there, tail)

-- The bytes that were at the start of the source stand at the start of the target.
pub memmove_lem :
    (k n : ℕ) (m : Memory) (to from : ℕ) {m' : Memory}
    → k ≤ n
    → to + n < 2 ^ 64
    → memmove m to from n ≡ ok m'
    → load_bytes m' to k ≡ load_bytes m from k
unfolding memmove
memmove_lem k n m to from {m' = m'} h p e =
    let bytes = chained (read_bytes m from n) e in
    let count = length-read_bytes n m from bytes.first in
    load_bytes-write_bytes k bytes.between m to {m' = m'} (omega (arith, count))
      (omega (arith, count)) bytes.second
    ∙ sym (load_bytes-read_bytes k n m from h bytes.first)
