-- ===== src/Tests/Machine.antt =====
-- `machine_step` on small guests, and the theorems at them.
use mathlib.Core.Bool.{not}
use riscvemu_study.Prelude.{
  ◌+◌, ◌-◌, ◌^◌, ◌≡◌, ◌⊎◌, refl, arith, leb, ◌==◌, ◌&&◌, if◌then◌else◌, true, false, sext, u64,
  none, some, [], ◌∷◌, ok, fault, assertion, segfault, ◌||◌,
}
use riscvemu_study.State.{World, Memory, ExitReason}
use riscvemu_study.Mmu.{Mmu}
use riscvemu_study.Cache.{
  Cache, new_cache, probe, bump, count_at, cache_hot, cache_lookup, found_code, code_at,
  lookup_loop,
}
use riscvemu_study.Compile.{Relocation, r_x86_64_pc32, relocate}
use riscvemu_study.Compile.Relocate.{distance, reaches, is_inside, word_at, relocate_lem}
use riscvemu_study.Machine.{
  Partial, Machine, Code, Host, is_branch, with_reason, interpreter, call, warm, choose_code,
  pick_code, after_branch, after_block, run_blocks, after_blocks, machine_step,
}
use riscvemu_study.Machine.Laws.{IsStopped}
use riscvemu_study.Machine.Sound.{machine_step-IsStopped, branch_to_zero_lem}
use riscvemu_study.Tests.Program.{running, host, start, program, byte_of}
use riscvemu_study.Tests.Blocks.{fresh_gen}

unfoldable pub stepping : Unit {0}
unfolding running program byte_of new_cache probe bump count_at cache_hot cache_lookup found_code
    code_at lookup_loop is_branch call warm choose_code pick_code after_branch after_block
    run_blocks after_blocks machine_step
stepping = tt

-- A compiler that gives no code; the guests are not hot.
abbrev pub no_compiler : Host
no_compiler = record {
  fpu = host;
  clang = λ ls. record { text = none; rodata = none; rela = none; has_symtab = false };
  run = λ bytes p fuel w. none;
}

abbrev pub empty_heap : Mmu
empty_heap = record { entry = 0x1000; host_alloc = 0x088800002000; alloc = 0x2000; base = 0x2000 }

abbrev pub cold : World → Machine
cold w = record { world = w; mmu = empty_heap; cache = new_cache; gen = fresh_gen }

machine_of : Machine → Partial (ExitReason × Machine) → Machine
machine_of d (some (ok (r, m))) = m
machine_of d (some (fault e)) = d
machine_of d none = d

stopped : Machine
unfolding machine_of stepping
stopped = machine_of (cold start) (machine_step no_compiler 5 (cold start))

step : machine_step no_compiler 5 (cold start) ≡ some (ok (ExitReason.ecall, stopped))
unfolding stopped machine_of stepping
step = refl

machine_step-IsStopped_example : IsStopped ExitReason.ecall stopped
machine_step-IsStopped_example = machine_step-IsStopped no_compiler 5 (cold start) step

-- At address 0x1000: `ret`, with `ra` at 0.
return_to_zero : Memory
unfolding byte_of
return_to_zero a =
    if leb 0x088800001000 a
    then byte_of (0x67 ∷ 0x80 ∷ 0x00 ∷ 0x00 ∷ []) (a - 0x088800001000)
    else none

abbrev returning : Machine
returning = cold (record start { memory = return_to_zero })

picked_machine : Partial (Code × Machine) → Machine
picked_machine (some (ok (code, m))) = m
picked_machine (some (fault e)) = returning
picked_machine none = returning

counted : Machine
unfolding picked_machine stepping return_to_zero
counted = picked_machine (pick_code no_compiler 2 returning)

world_of : Partial World → World
world_of (some (ok w)) = w
world_of (some (fault e)) = start
world_of none = start

returned : World
unfolding world_of counted picked_machine stepping return_to_zero
returned =
    world_of
      (call no_compiler 1 interpreter counted.cache (with_reason counted.world ExitReason.none))

picks : pick_code no_compiler 2 returning ≡ some (ok (interpreter, counted))
unfolding counted picked_machine stepping return_to_zero
picks = refl

calls :
    call no_compiler 1 interpreter counted.cache (with_reason counted.world ExitReason.none)
    ≡ some (ok returned)
unfolding returned world_of counted picked_machine stepping return_to_zero
calls = refl

branches : is_branch returned.state.exit_reason ≡ true
unfolding returned world_of counted picked_machine stepping return_to_zero
branches = refl

to_zero : returned.state.reenter_pc ≡ 0
unfolding returned world_of counted picked_machine stepping return_to_zero
to_zero = refl

branch_to_zero_lem_example : machine_step no_compiler 3 returning ≡ some (fault assertion)
branch_to_zero_lem_example =
    branch_to_zero_lem no_compiler 1 returning counted interpreter returned (omega arith) picks
      calls branches to_zero

abbrev operand : Relocation
operand = record { offset = 4; type = 2; value = 0; addend = 2 ^ 64 - 4 }

relocate_lem_example :
    let known = operand.type == r_x86_64_pc32 in
    let inside = is_inside 64 operand in
    let fits = reaches 64 0 operand in
    let run = relocate 64 0 operand new_cache in
    (((known && inside && fits) ≡ true)
      × ((c' : Cache) × (run ≡ ok c')
          × (sext 32 (word_at c'.jitcode (u64 (64 + operand.offset))) ≡ distance 64 0 operand)))
    ⊎ ((((known && not inside) ≡ true) × (run ≡ fault segfault))
        ⊎ (((not known || (inside && not fits)) ≡ true) × (run ≡ fault assertion)))
relocate_lem_example = relocate_lem 64 0 operand new_cache (omega arith)
