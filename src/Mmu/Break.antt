-- ===== src/Mmu/Break.antt =====
-- The invariant of the guest's heap, over `mmu_alloc`.
use riscvemu_study.Prelude.{
  ℕ, ◌+◌, ◌-◌, ◌*◌, ◌/◌, ◌%◌, ◌^◌, ◌≤◌, ◌<◌, ◌≡◌, refl, arith, ltb, leb, if◌then◌else◌, ◌&&◌, u64,
  ok, chained, Bool-cases, inl, inr, sym,
}
use riscvemu_study.Prelude.Bits.{bit_and_high}
use riscvemu_study.State.{Memory, guest_memory_offset, to_host}
use mathlib.Core.Path.{subst}
use riscvemu_study.Mmu.{Kernel, Mmu, to_guest, round_up, checked, grow_host, shrink_host, mmu_alloc}

-- The break is at or above the base and within the host's mapping, which ends at a page of 4096
-- bytes.
pub record IsMmu (m : Mmu) : Type 0 where
  pub base_le : m.base ≤ m.alloc
  pub alloc_le : m.alloc + guest_memory_offset ≤ m.host_alloc
  pub aligned : m.host_alloc % 4096 ≡ 0
  pub bound : m.host_alloc < 2 ^ 48

pub round_up_lem :
    (x : ℕ)
    → x + 4096 ≤ 2 ^ 64
    → (x ≤ round_up x 4096) × (round_up x 4096 < x + 4096) × (round_up x 4096 % 4096 ≡ 0)
unfolding round_up
round_up_lem x h =
    let masked : round_up x 4096 ≡ u64 (x + 4096 - 1) / 2 ^ 12 % 2 ^ 52 * 2 ^ 12 =
      bit_and_high 12 52 (u64 (x + 4096 - 1)) in
    omega (arith, masked)

pub to_guest_lem :
    (a : ℕ) → guest_memory_offset ≤ a → a < 2 ^ 64 → to_guest a ≡ a - guest_memory_offset
unfolding to_guest
to_guest_lem a h b = omega arith

-- The state that a call of `mmu_alloc` with the sum `alloc` of the break and the size leaves.
pub record IsMoved (m : Mmu) (alloc : ℕ) (m' : Mmu) : Type 0 where
  pub valid : IsMmu m'
  pub moved : m'.alloc ≡ alloc
  pub kept : m'.base ≡ m.base

grow_host-IsMoved :
    (k : Kernel) (m : Mmu) (mem : Memory) {m' : Mmu} {mem' : Memory}
    → k.pagesize ≡ 4096
    → m.base ≤ m.alloc
    → m.host_alloc % 4096 ≡ 0
    → m.host_alloc < 2 ^ 48
    → guest_memory_offset ≤ m.host_alloc
    → to_guest m.host_alloc < m.alloc
    → m.alloc < 2 ^ 47
    → grow_host k m mem ≡ ok (m', mem')
    → IsMoved m m.alloc m'
unfolding grow_host
grow_host-IsMoved k m mem page b a n o g l e =
    let len = round_up (u64 (m.alloc + (2 ^ 64 - to_guest m.host_alloc))) k.pagesize in
    let call = chained (checked (k.mmap mem m.host_alloc len)) e in
    let guest = to_guest_lem m.host_alloc o (omega arith) in
    let need : u64 (m.alloc + (2 ^ 64 - to_guest m.host_alloc)) ≡ m.alloc - to_guest m.host_alloc =
      omega (arith, guest) in
    let pages = round_up_lem (m.alloc - to_guest m.host_alloc) (omega arith) in
    let same : len ≡ round_up (m.alloc - to_guest m.host_alloc) 4096 = rw (need, page) refl in
    let host : u64 (m.host_alloc + len) ≡ m.host_alloc + len = omega (arith, same, pages) in
    record {
      valid = record {
        base_le = ground (arith, call.second);
        alloc_le = ground (arith, call.second, host, guest, same, pages);
        aligned = ground (arith, call.second, host, guest, same, pages);
        bound = ground (arith, call.second, host, guest, same, pages);
      };
      moved = ground (arith, call.second);
      kept = ground (arith, call.second);
    }

shrink_host-IsMoved :
    (k : Kernel) (m : Mmu) (mem : Memory) {m' : Mmu} {mem' : Memory}
    → k.pagesize ≡ 4096
    → m.base ≤ m.alloc
    → m.host_alloc % 4096 ≡ 0
    → m.host_alloc < 2 ^ 48
    → guest_memory_offset ≤ m.host_alloc
    → round_up m.alloc k.pagesize < to_guest m.host_alloc
    → m.alloc < 2 ^ 47
    → shrink_host k m mem ≡ ok (m', mem')
    → IsMoved m m.alloc m'
unfolding shrink_host
shrink_host-IsMoved k m mem page b a n o g l e =
    let end = round_up m.alloc k.pagesize in
    let len = u64 (to_guest m.host_alloc + (2 ^ 64 - end)) in
    let call = chained (checked (k.munmap mem (to_host end) len)) e in
    let guest = to_guest_lem m.host_alloc o (omega arith) in
    let pages = round_up_lem m.alloc (omega arith) in
    let same : end ≡ round_up m.alloc 4096 = rw page refl in
    let less : len ≡ to_guest m.host_alloc - end = omega (arith, guest, pages, same) in
    let host : u64 (m.host_alloc + (2 ^ 64 - len)) ≡ end + guest_memory_offset =
      omega (arith, less, guest) in
    record {
      valid = record {
        base_le = ground (arith, call.second);
        alloc_le = ground (arith, call.second, host, same, pages);
        aligned = ground (arith, call.second, host, same, pages);
        bound = ground (arith, call.second, host, guest);
      };
      moved = ground (arith, call.second);
      kept = ground (arith, call.second);
    }

alloc-IsMoved :
    (m : Mmu)
    → IsMmu m
    → (alloc : ℕ) → m.base ≤ alloc
    → alloc + guest_memory_offset ≤ m.host_alloc
    → IsMoved m alloc (record m { alloc = alloc })
alloc-IsMoved m h alloc b p = record {
  valid = record { base_le = b; alloc_le = p; aligned = h.aligned; bound = h.bound };
  moved = refl;
  kept = refl;
}

-- A request for `size` bytes, more or fewer, that leaves the break below 2^47.
pub mmu_alloc-IsMoved :
    (k : Kernel) (m : Mmu) (mem : Memory) (size : ℕ) {old : ℕ} {m' : Mmu} {mem' : Memory}
    → k.pagesize ≡ 4096
    → IsMmu m
    → (if ltb size (2 ^ 63) then m.alloc + size else m.alloc + size - 2 ^ 64) ≡ u64 (m.alloc + size)
    → size < 2 ^ 64
    → u64 (m.alloc + size) < 2 ^ 47
    → mmu_alloc k m mem size ≡ ok (old, m', mem')
    → IsMoved m (u64 (m.alloc + size)) m'
unfolding mmu_alloc
mmu_alloc-IsMoved k m mem size {m'} {mem'} page h s z l e =
    let to = u64 (m.alloc + size) in
    let moved : Mmu = record m { alloc = to } in
    let guest = to_guest_lem m.host_alloc (omega (arith, h.alloc_le)) (omega (arith, h.bound)) in
    let above : m.base ≤ to = ground arith in
    let grows = ltb 0 size && ltb size (2 ^ 63) && ltb (to_guest m.host_alloc) to in
    let shrinks = leb (2 ^ 63) size && ltb (round_up to k.pagesize) (to_guest m.host_alloc) in
    elim (Bool-cases grows) [
      | inl g ↦
          let run : grow_host k moved mem ≡ ok (m', mem') = ground arith in
          let r =
            grow_host-IsMoved k moved mem page above h.aligned h.bound (omega (arith, h.alloc_le))
              (ground arith) l run in
          record { valid = r.valid; moved = r.moved; kept = r.kept }
      | inr g ↦ elim (Bool-cases shrinks) [
        | inl q ↦
            let run : shrink_host k moved mem ≡ ok (m', mem') = ground arith in
            let r =
              shrink_host-IsMoved k moved mem page above h.aligned h.bound
                (omega (arith, h.alloc_le)) (ground arith) l run in
            record { valid = r.valid; moved = r.moved; kept = r.kept }
        | inr q ↦
            let same : m' ≡ moved = ground arith in
            let fits : to + guest_memory_offset ≤ m.host_alloc =
              elim (Bool-cases (ltb (to_guest m.host_alloc) to)) [
                | inl w ↦ elim (Bool-cases (ltb size (2 ^ 63))) [
                  | inl v ↦ let nothing : size ≡ 0 = ground arith in ground (arith, h.alloc_le)
                  | inr v ↦ ground (arith, h.alloc_le)
                ]
                | inr w ↦ ground (arith, guest, h.alloc_le)
              ] in
            subst (IsMoved m to) (sym same) (alloc-IsMoved m h to above fits)
      ]
    ]
