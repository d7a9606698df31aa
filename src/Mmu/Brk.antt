-- ===== src/Mmu/Brk.antt =====
-- What `sys_brk` does to the guest's heap.
use riscvemu_study.Prelude.{
  ℕ, ◌+◌, ◌-◌, ◌^◌, ◌<◌, ◌≡◌, arith, leb, if◌then◌else◌, u64, assert, ok, chained, ◌∙◌, ap, sym,
  ◌==◌,
}
use riscvemu_study.State.{Memory}
use mathlib.Core.Path.{subst}
use riscvemu_study.Mmu.{Kernel, Mmu, mmu_alloc, sys_brk}
use riscvemu_study.Mmu.Break.{IsMmu, mmu_alloc-IsMoved}

-- With pages of 4096 bytes and addresses below 2^47, a `sys_brk` that returns keeps the heap's
-- invariant, returns the address asked for, or the break for address 0, and moves the break there
-- and not the base.
pub sys_brk-IsMmu :
    (k : Kernel) (m : Mmu) (mem : Memory) (a0 : ℕ) {addr : ℕ} {m' : Mmu} {mem' : Memory}
    → k.pagesize ≡ 4096
    → IsMmu m
    → m.alloc < 2 ^ 47
    → a0 < 2 ^ 47
    → sys_brk k m mem a0 ≡ ok (addr, m', mem')
    → IsMmu m' × (addr ≡ (if a0 == 0 then m.alloc else a0)) × (m'.alloc ≡ addr) × (m'.base ≡ m.base)
unfolding sys_brk
sys_brk-IsMmu k m mem a0 {addr} {m'} {mem'} page h l a e =
    let to = if a0 == 0 then m.alloc else a0 in
    let size = u64 (to + (2 ^ 64 - m.alloc)) in
    let small : to < 2 ^ 47 = ground arith in
    let back : u64 (m.alloc + size) ≡ to = omega (arith, small) in
    let asserted = chained (assert (leb m.base to)) e in
    let run = chained (mmu_alloc k m mem size) asserted.second in
    let r =
      mmu_alloc-IsMoved k m mem size {old = run.between.0} {m' = run.between.1}
        {mem' = run.between.2} page h (ground (arith, back)) (omega arith)
        (omega (arith, back, small)) run.first in
    let same : run.between.1 ≡ m' = ground (arith, run.second) in
    let returned : to ≡ addr = ground (arith, run.second) in
    (
      subst IsMmu same r.valid,
      sym returned,
      ap (λ (x : Mmu). x.alloc) (sym same) ∙ r.moved ∙ back ∙ returned,
      ap (λ (x : Mmu). x.base) (sym same) ∙ r.kept,
    )
