-- ===== src/Machine/Sound.antt =====
-- How `machine_step` of src/machine.c stops, and the branch to address 0.
use riscvemu_study.Prelude.{ℕ, suc, ◌≡◌, ◌≢◌, refl, arith, true, some, ok, fault, assertion}
use riscvemu_study.State.{ExitReason, World}
use riscvemu_study.Cache.{Cache, cache_lookup}
use riscvemu_study.Machine.Laws.{IsKept, IsStopped, machine_step_keeps}
use riscvemu_study.Machine.{
  Partial, Machine, Code, is_branch, with_reason, Host, call, pick_code, after_block, run_blocks,
  machine_step,
}

module _ (h : Host) where
  -- A `machine_step` that returns gives `ecall`, with that exit reason and the program counter at
  -- `reenter_pc`, or `halt`, with that exit reason or the program counter at 0, whatever the
  -- compiled code does.
  pub machine_step-IsStopped :
      (fuel : ℕ) (m : Machine) {r : ExitReason} {m' : Machine}
      → machine_step h fuel m ≡ some (ok (r, m'))
      → IsStopped r m'
  machine_step-IsStopped fuel m e =
      let kept : IsKept h (λ w. Unit {0}) = record {
        code = λ fuel code c w w' p e. tt;
        reason = λ w r p. tt;
        again = λ w p. tt;
      } in
      (machine_step_keeps h (λ w. Unit {0}) kept fuel m tt e).1

  branch_fault :
      (fuel : ℕ) (c : Cache) (again : Code → World → Partial World) (w : World)
      → is_branch w.state.exit_reason ≡ true
      → w.state.reenter_pc ≡ 0
      → after_block h fuel c again w ≡ some (fault assertion)
  unfolding after_block is_branch cache_lookup
  branch_fault fuel c again w b z = go w.state.exit_reason refl
    where
      go :
          (r : ExitReason)
          → w.state.exit_reason ≡ r
          → after_block h fuel c again w ≡ some (fault assertion)
      go ExitReason.none q = absurd (ground arith)
      go ExitReason.direct_branch q = ground arith
      go ExitReason.indirect_branch q = ground arith
      go ExitReason.interp q = absurd (ground arith)
      go ExitReason.ecall q = absurd (ground arith)
      go ExitReason.halt q = absurd (ground arith)

  -- When the first block that `machine_step` runs leaves with a branch to address 0,
  -- `machine_step` fails the assertion of `cache_lookup`: it does not halt.
  pub branch_to_zero_lem :
      (fuel : ℕ) (m m' : Machine) (code : Code) (w : World)
      → m.world.state.pc ≢ 0
      → pick_code h (suc fuel) m ≡ some (ok (code, m'))
      → call h fuel code m'.cache (with_reason m'.world ExitReason.none) ≡ some (ok w)
      → is_branch w.state.exit_reason ≡ true
      → w.state.reenter_pc ≡ 0
      → machine_step h (suc (suc fuel)) m ≡ some (fault assertion)
  unfolding machine_step run_blocks
  branch_to_zero_lem fuel m m' code w n picked ran b z =
      let failed = branch_fault fuel m'.cache (run_blocks h fuel m'.cache) w b z in ground arith
