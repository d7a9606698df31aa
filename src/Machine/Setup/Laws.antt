-- ===== src/Machine/Setup/Laws.antt =====
-- The registers after `machine_setup`.
use riscvemu_study.Prelude.{
  ◌*◌, ◌≤◌, ◌==◌, Bool-cases, inl, inr, ℕ, ◌+◌, ◌-◌, ◌%◌, ◌^◌, ◌<◌, ◌≡◌, ◌≢◌, refl, arith, List, [],
  ◌∷◌, u64, bit_and, ok, chained, ◌∙◌, length,
}
use riscvemu_study.Prelude.Bits.{bit_and_high}
use riscvemu_study.State.{load_bytes, to_host, store_bytes}
use riscvemu_study.State.Bytes.{load_bytes-store_bytes}
use riscvemu_study.Machine.Setup.Copy.{memmove_lem}
use riscvemu_study.Mmu.{Kernel, mmu_alloc}
use riscvemu_study.Machine.{Machine}
use riscvemu_study.Syscall.{a0}
use riscvemu_study.Machine.Setup.{
  sp, a1, set_gp_reg, get_gp_reg, mmu_write_u64, guest_alloc, push_arg, push_args, memmove,
  mmu_write, align_stack, stack_size, machine_setup,
}

-- The state is the same, but for registers that a call may write.
record IsSame (r : ℕ) (m m' : Machine) : Type 0 where
  reg : m'.world.state.gp_regs r ≡ m.world.state.gp_regs r
  pc : m'.world.state.pc ≡ m.world.state.pc

IsSame-trans : (r : ℕ) {a b c : Machine} → IsSame r a b → IsSame r b c → IsSame r a c
IsSame-trans r g h = record { reg = h.reg ∙ g.reg; pc = h.pc ∙ g.pc }

set_gp_reg-IsSame : (r x v : ℕ) (m : Machine) → r ≢ x → IsSame r m (set_gp_reg m x v)
unfolding set_gp_reg
set_gp_reg-IsSame r x v m n = ground arith

mmu_write_u64-IsSame :
    (addr v r : ℕ) (m : Machine) {m' : Machine} → mmu_write_u64 addr v m ≡ ok m' → IsSame r m m'
unfolding mmu_write_u64
mmu_write_u64-IsSame addr v r m e = ground arith

guest_alloc-IsSame :
    (k : Kernel) (size r : ℕ) (m : Machine) {a : ℕ} {m' : Machine}
    → guest_alloc k size m ≡ ok (a, m')
    → IsSame r m m'
unfolding guest_alloc
guest_alloc-IsSame k size r m e = ground arith

push_arg-IsSame :
    (k : Kernel) (arg : List ℕ) (r : ℕ) (m : Machine) {m' : Machine}
    → r ≢ sp
    → push_arg k arg m ≡ ok m'
    → IsSame r m m'
unfolding push_arg guest_alloc mmu_write mmu_write_u64 set_gp_reg
push_arg-IsSame k arg r m n e = ground arith

push_args-IsSame :
    (k : Kernel) (args : List (List ℕ)) (r : ℕ) (m : Machine) {m' : Machine}
    → r ≢ sp
    → push_args k args m ≡ ok m'
    → IsSame r m m'
unfolding push_args
push_args-IsSame k [] r m n e = ground arith
push_args-IsSame k (arg ∷ args) r m n e =
    let rest = chained (push_args k args m) e in
    let before = push_args-IsSame k args r m n rest.first in
    let here = push_arg-IsSame k arg r rest.between n rest.second in IsSame-trans r before here

multiple : (x : ℕ) → bit_and x (2 ^ 64 - 16) % 16 ≡ 0
multiple x = omega (arith, bit_and_high 4 60 x)

below : (x : ℕ) → bit_and x (2 ^ 64 - 16) < 2 ^ 64
below x = omega (arith, bit_and_high 4 60 x)

align_stack_lem :
    (top : ℕ) (m : Machine) {m' : Machine}
    → get_gp_reg m a1 ≡ u64 (get_gp_reg m sp + 8)
    → align_stack top m ≡ ok m'
    → (get_gp_reg m' sp % 16 ≡ 0) × (get_gp_reg m' a1 ≡ u64 (get_gp_reg m' sp + 8))
unfolding align_stack set_gp_reg
align_stack_lem top m a e = ground (arith, multiple (get_gp_reg m sp), below (get_gp_reg m sp))

align_stack-IsSame :
    (top r : ℕ) (m : Machine) {m' : Machine}
    → r ≢ sp
    → r ≢ a1
    → align_stack top m ≡ ok m'
    → IsSame r m m'
unfolding align_stack set_gp_reg
align_stack-IsSame top r m n n' e = ground arith

guest_alloc_base :
    (k : Kernel) (size : ℕ) (m : Machine) {a : ℕ} {m' : Machine}
    → guest_alloc k size m ≡ ok (a, m')
    → a ≡ m.mmu.alloc
unfolding guest_alloc mmu_alloc
guest_alloc_base k size m e = ground arith

sp_after_arg :
    (k : Kernel) (arg : List ℕ) (m : Machine) {m' : Machine}
    → push_arg k arg m ≡ ok m'
    → get_gp_reg m' sp ≡ u64 (get_gp_reg m sp + (2 ^ 64 - 8))
unfolding push_arg guest_alloc mmu_write mmu_write_u64 set_gp_reg
sp_after_arg k arg m e = ground arith

sp_after_args :
    (k : Kernel) (args : List (List ℕ)) (m : Machine) {m' : Machine}
    → 8 * length args ≤ get_gp_reg m sp
    → get_gp_reg m sp < 2 ^ 64
    → push_args k args m ≡ ok m'
    → get_gp_reg m' sp + 8 * length args ≡ get_gp_reg m sp
unfolding push_args
sp_after_args k [] m h b e = ground arith
sp_after_args k (arg ∷ args) m h b e =
    let rest = chained (push_args k args m) e in
    let before = sp_after_args k args m (omega arith) b rest.first in
    let here = sp_after_arg k arg rest.between rest.second in omega (arith, before, here)

lower : (x : ℕ) → x < 2 ^ 64 → bit_and x (2 ^ 64 - 16) ≤ x
lower x h = omega (arith, bit_and_high 4 60 x)

mmu_write_u64_lem :
    (addr v : ℕ) (m : Machine) {m' : Machine}
    → to_host addr + 8 < 2 ^ 64
    → v < 2 ^ 64
    → mmu_write_u64 addr v m ≡ ok m'
    → load_bytes m'.world.memory (to_host addr) 8 ≡ ok v
unfolding mmu_write_u64
mmu_write_u64_lem addr v m h b e =
    let call = chained (store_bytes m.world.memory (to_host addr) 8 v) e in
    let back =
      load_bytes-store_bytes 8 m.world.memory (to_host addr) v {m' = call.between} h call.first in
    let same : v % 256 ^ 8 ≡ v = omega arith in ground (arith, back, same)

to_host_small : (addr : ℕ) → addr < 2 ^ 47 → to_host addr + 8 < 2 ^ 64
unfolding to_host
to_host_small addr h = omega arith

to_host_room :
    (aligned sp0 top : ℕ)
    → aligned ≤ sp0
    → sp0 + 8 ≤ top
    → top < 2 ^ 47
    → to_host aligned + u64 (top + (2 ^ 64 - sp0)) < 2 ^ 64
unfolding to_host
to_host_room aligned sp0 top a h b = omega arith

-- The number at the stack pointer is moved with it.
align_stack_top :
    (top v : ℕ) (m : Machine) {m' : Machine}
    → get_gp_reg m sp + 8 ≤ top
    → top < 2 ^ 47
    → load_bytes m.world.memory (to_host (get_gp_reg m sp)) 8 ≡ ok v
    → align_stack top m ≡ ok m'
    → load_bytes m'.world.memory (to_host (get_gp_reg m' sp)) 8 ≡ ok v
unfolding align_stack set_gp_reg
align_stack_top top v m {m' = m'} h b l e =
    let sp0 = get_gp_reg m sp in
    let aligned = bit_and sp0 (2 ^ 64 - 16) in
    elim (Bool-cases (aligned == sp0)) [
      | inl same ↦ ground arith
      | inr other ↦
          let used = u64 (top + (2 ^ 64 - sp0)) in
          let copied : memmove m.world.memory (to_host aligned) (to_host sp0) used
              ≡ ok m'.world.memory =
            ground arith in
          let moved : get_gp_reg m' sp ≡ aligned = ground (arith, below sp0) in
          let low = lower sp0 (omega arith) in
          rw moved (
            memmove_lem 8 used m.world.memory (to_host aligned) (to_host sp0) {m' = m'.world.memory}
              (omega arith) (to_host_room aligned sp0 top low h b) copied
            ∙ l)
    ]

-- With fewer than 2^21 arguments and a break below 2^46, when `machine_setup` returns: the stack
-- pointer is a multiple of 16 and the number of the arguments stands there, as it does in `a0`;
-- `a1` is 8 above it, and every other register and the program counter are as before.
pub machine_setup_lem :
    (k : Kernel) (argv : List (List ℕ)) (r : ℕ) (m : Machine) {m' : Machine}
    → length argv < 2 ^ 21
    → m.mmu.alloc < 2 ^ 46
    → r ≢ sp
    → r ≢ a0
    → r ≢ a1
    → machine_setup k argv m ≡ ok m'
    → (get_gp_reg m' sp % 16 ≡ 0)
      × (load_bytes m'.world.memory (to_host (get_gp_reg m' sp)) 8 ≡ ok (length argv))
      × (get_gp_reg m' a0 ≡ length argv)
      × (get_gp_reg m' a1 ≡ u64 (get_gp_reg m' sp + 8))
      × (get_gp_reg m' r ≡ get_gp_reg m r)
      × (m'.world.state.pc ≡ m.world.state.pc)
unfolding machine_setup set_gp_reg mmu_write_u64
machine_setup_lem k argv r m {m' = m'} c small n n0 n1 e =
    let stack = chained (guest_alloc k stack_size m) e in
    let top = u64 (stack.between.0 + stack_size) in
    let m1 = set_gp_reg stack.between.1 sp (top + (2 ^ 64 - 24)) in
    let loop = chained (push_args k argv m1) stack.second in
    let m2 = loop.between in
    let m3 = set_gp_reg m2 sp (get_gp_reg m2 sp + (2 ^ 64 - 8)) in
    let written = chained (mmu_write_u64 (get_gp_reg m3 sp) (length argv) m3) loop.second in
    let m5 = set_gp_reg written.between a0 (length argv) in
    let m6 = set_gp_reg m5 a1 (get_gp_reg m5 sp + 8) in
    let ends = align_stack_lem top m6 {m' = m'} refl written.second in
    let base : stack.between.0 ≡ m.mmu.alloc = guest_alloc_base k stack_size m stack.first in
    let pushed = sp_after_args k argv m1 (omega (arith, base)) (omega (arith, base)) loop.first in
    let after = (mmu_write_u64-IsSame (get_gp_reg m3 sp) (length argv) sp m3 written.first).reg in
    let room : get_gp_reg m6 sp + 8 ≤ top = omega (arith, after, pushed, base) in
    let stored : load_bytes m6.world.memory (to_host (get_gp_reg m6 sp)) 8 ≡ ok (length argv) =
      rw after (
        mmu_write_u64_lem (get_gp_reg m3 sp) (length argv) m3
          (to_host_small (get_gp_reg m3 sp) (omega (arith, pushed, base))) (omega arith)
          written.first) in
    let argc =
      align_stack_top top (length argv) m6 {m' = m'} room (omega (arith, base)) stored
        written.second in
    let kept = align_stack-IsSame top r m6 n n1 written.second in
    let kept0 = align_stack-IsSame top a0 m6 {m' = m'} (omega arith) (omega arith) written.second in
    let before = IsSame-trans r (guest_alloc-IsSame k stack_size r m stack.first) (
      IsSame-trans r (set_gp_reg-IsSame r sp (top + (2 ^ 64 - 24)) stack.between.1 n)
        (push_args-IsSame k argv r m1 n loop.first)) in
    let behind = IsSame-trans r (set_gp_reg-IsSame r sp (get_gp_reg m2 sp + (2 ^ 64 - 8)) m2 n) (
      IsSame-trans r (mmu_write_u64-IsSame (get_gp_reg m3 sp) (length argv) r m3 written.first) (
        IsSame-trans r (set_gp_reg-IsSame r a0 (length argv) written.between n0)
          (IsSame-trans r (set_gp_reg-IsSame r a1 (get_gp_reg m5 sp + 8) m5 n1) kept))) in
    let all = IsSame-trans r before behind in
    let count : get_gp_reg m6 a0 ≡ length argv = omega (arith, c) in
    (ends.0, argc, kept0.reg ∙ count, ends.1, all.reg, all.pc)
