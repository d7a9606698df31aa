-- ===== src/Machine.antt =====
-- `machine_step` of src/machine.c, over the interpreter, the cache, the code generator and the
-- compiled code. Clang and the processor that runs its code are parameters.
pub mod Laws
pub mod Sound
pub mod Setup
use mathlib.Core.Bool.{not}
use riscvemu_study.Prelude.{
  ℕ, zero, suc, ◌==◌, if◌then◌else◌, Bool, true, false, ◌||◌, Option, none, some, Run, ok, fault,
  List, assertion, unreachable,
}
use riscvemu_study.State.{ExitReason, State, World}
use riscvemu_study.Mmu.{Mmu}
use riscvemu_study.Cache.{Cache, cache_lookup, cache_hot}
use riscvemu_study.Interp.Float.{Fpu}
use riscvemu_study.Interp.Block.{exec_block_interp}
use riscvemu_study.Codegen.Source.{Line}
use riscvemu_study.Codegen.Block.{Gen, machine_genblock}
use riscvemu_study.Compile.{Object, machine_compile}

-- The result of code that may fail and may not end: `none` is out of fuel.
abbrev pub Partial {ℓ} : Type ℓ → Type ℓ
Partial A = Option (Run A)

infixl 5 ◌>>=◌
abbrev pub ◌>>=◌ {ℓ κ} : {A : Type ℓ} {B : Type κ} → Partial A → (A → Partial B) → Partial B
some (ok a) >>= f = f a
some (fault e) >>= f = some (fault e)
none >>= f = none

-- A call that is not bounded by fuel
abbrev pub lift {ℓ} : {A : Type ℓ} → Run A → Partial A
lift r = some r

-- And one whose answer is within: `cache_lookup`.
abbrev pub flatten {ℓ} : {A : Type ℓ} → Run (Option A) → Partial A
flatten (ok none) = none
flatten (ok (some a)) = some (ok a)
flatten (fault e) = some (fault e)

-- `world` is the state, with the memory; `gen` is what the static variables of `machine_genblock` hold.
pub record Machine : Type 0 where
  pub world : World
  pub mmu : Mmu
  pub cache : Cache
  pub gen : Gen

-- `code`: the interpreter, or an offset in the cache
pub data Code : Type 0 where
  interpreter : Code
  compiled : ℕ → Code

unfoldable pub is_branch : ExitReason → Bool
is_branch ExitReason.direct_branch = true
is_branch ExitReason.indirect_branch = true
is_branch _ = false

abbrev pub with_reason : World → ExitReason → World
with_reason w r = record w { state = record (w.state) { exit_reason = r } }

-- `m->state.pc = m->state.reenter_pc`
abbrev pub reenter : World → World
reenter w = record w { state = record (w.state) { pc = w.state.reenter_pc } }

-- What clang makes of a source, and the code in the cache as a function on the world, on fuel:
-- the bytes of the mapping, the offset at which to start, and the world.
pub record Host : Type 0 where
  pub fpu : Fpu
  pub clang : List Line → Object
  pub run : (ℕ → ℕ) → ℕ → ℕ → World → Partial World

module _ (h : Host) where
  -- `((exec_block_func_t)code)(&m->state)`
  unfoldable pub call : ℕ → Code → Cache → World → Partial World
  call fuel interpreter c w = exec_block_interp h.fpu fuel w
  call fuel (compiled p) c w = h.run c.jitcode p fuel w

  -- The choice of the code for a block
  unfoldable pub generate : ℕ → Machine → Partial (Code × Machine)
  generate fuel m = do
    (source, gen) ← machine_genblock fuel m.gen m.world
    (p, cache) ← lift (machine_compile m.world.state.pc m.cache (h.clang source))
    some (ok (compiled p, record m { cache = cache; gen = gen }))

  unfoldable pub warm : ℕ → Machine → Bool → Partial (Code × Machine)
  unfolding generate
  warm fuel m true = generate fuel m
  warm fuel m false = some (ok (interpreter, m))

  unfoldable pub choose_code : ℕ → Machine → Option ℕ → Partial (Code × Machine)
  unfolding warm
  choose_code fuel m (some p) = some (ok (compiled p, m))
  choose_code fuel m none = do
    (hot, cache) ← lift (cache_hot m.cache m.world.state.pc)
    warm fuel (record m { cache = cache }) hot

  unfoldable pub pick_code : ℕ → Machine → Partial (Code × Machine)
  unfolding choose_code
  pick_code fuel m = do
    found ← flatten (cache_lookup fuel m.cache m.world.state.pc)
    choose_code fuel m found

  -- The inner loop after a block: how it goes on with `again`, and the world with which it ends.
  unfoldable pub after_branch : (Code → World → Partial World) → Option ℕ → World → Partial World
  after_branch again (some p) w = again (compiled p) w
  after_branch again none w = some (ok w)

  unfoldable pub after_block : ℕ → Cache → (Code → World → Partial World) → World → Partial World
  unfolding after_branch
  after_block fuel c again w = elim w.state.exit_reason [
    | ExitReason.none ↦ some (fault assertion)
    | ExitReason.direct_branch ↦
        (flatten (cache_lookup fuel c w.state.reenter_pc) >>= λ found.
        after_branch again found (reenter w))
    | ExitReason.indirect_branch ↦
        (flatten (cache_lookup fuel c w.state.reenter_pc) >>= λ found.
        after_branch again found (reenter w))
    | ExitReason.interp ↦ again interpreter (reenter w)
    | ExitReason.ecall ↦ some (ok w)
    | ExitReason.halt ↦ some (ok w)
  ]

  -- The inner loop, on fuel
  unfoldable pub run_blocks : ℕ → Cache → Code → World → Partial World
  unfolding call after_block
  run_blocks zero c code w = none
  run_blocks (suc fuel) c code w = do
    w' ← call fuel code c (with_reason w ExitReason.none)
    after_block fuel c (run_blocks fuel c) w'

  -- The switch after the inner loop; `again` is the next round of the outer one.
  unfoldable pub after_blocks :
      (Machine → Partial (ExitReason × Machine)) → Machine → Partial (ExitReason × Machine)
  after_blocks again m = elim m.world.state.exit_reason [
    | ExitReason.direct_branch ↦ again m
    | ExitReason.indirect_branch ↦ again m
    | ExitReason.ecall ↦ some (ok (ExitReason.ecall, m))
    | ExitReason.halt ↦ some (ok (ExitReason.halt, m))
    | ExitReason.none ↦ some (fault unreachable)
    | ExitReason.interp ↦ some (fault unreachable)
  ]

  unfoldable pub machine_step : ℕ → Machine → Partial (ExitReason × Machine)
  unfolding pick_code run_blocks after_blocks
  machine_step zero m = none
  machine_step (suc fuel) m =
      let again = machine_step fuel in
      if m.world.state.pc == 0
      then some (ok (ExitReason.halt, m))
      else (pick_code fuel m >>= λ (code, m'). run_blocks fuel m'.cache code m'.world >>= λ w.
          after_blocks again (record m' { world = reenter w }))
