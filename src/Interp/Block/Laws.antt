-- ===== src/Interp/Block/Laws.antt =====
-- How the interpreter's loop ends, and what it keeps.
use riscvemu_study.Prelude.{
  chained, ap, ℕ, zero, suc, ◌≡◌, refl, arith, ◌==◌, Bool, true, false, Option, some, Run, ok,
  fault, Bool-cases, inl, inr,
}
use mathlib.Core.Path.{subst}
use riscvemu_study.Insn.{Insn, zeroed}
use riscvemu_study.State.{World, to_host, load_bytes}
use riscvemu_study.Decode.IsDecoded.{HasRegisters}
use riscvemu_study.Decode.WellFormed.{insn_decode-IsDecoded}
use riscvemu_study.Decode.Dispatch.{insn_decode}
use riscvemu_study.Interp.Float.{Fpu}
use riscvemu_study.Interp.Funcs.{funcs}
use riscvemu_study.Interp.Block.{
  loop_after, execute_insn, halted, interp_insn, finish_insn, exec_block_interp,
}
use riscvemu_study.Interp.Frame.{funcs_leaves, funcs-IsWide, IsWide, leaves_block}

pub zeroed-HasRegisters : HasRegisters zeroed
zeroed-HasRegisters = omega arith

-- The state between two instructions.
pub record IsSound (w : World) : Type 0 where
  pub wide : IsWide w.state
  pub zero_reg : w.state.gp_regs 0 ≡ 0

halted-IsSound : (w : World) → IsSound w → IsSound (halted w)
unfolding halted
halted-IsSound w h = record {
  wide = record {
    gp_lt = h.wide.gp_lt;
    fp_lt = h.wide.fp_lt;
    pc_lt = h.wide.pc_lt;
    reenter_lt = omega arith;
  };
  zero_reg = h.zero_reg;
}

world_or : World → Option (Run World) → World
world_or d (some (ok w)) = w
world_or d r = d

same_world : {v w : World} → some (ok v) ≡ some (ok w) → v ≡ w
unfolding world_or
same_world {v} e = ap (world_or v) e

module _ (fpu : Fpu) where
  -- An iteration at a program counter other than 0, taken apart.
  pub record Iteration (w : World) (last : Bool) (w' : World) : Type 0 where
    pub word : ℕ
    pub insn : Insn
    pub after : World
    pub insn' : Insn
    pub fetched : load_bytes w.memory (to_host w.state.pc) 4 ≡ ok word
    pub decoded : insn_decode zeroed word ≡ ok insn
    pub executed : funcs fpu insn.type w insn ≡ ok (after, insn')
    pub finished : finish_insn after insn' ≡ (last, w')

  pub iteration :
      (w : World) {last : Bool} {w' : World}
      → execute_insn fpu w ≡ ok (last, w')
      → Iteration w last w'
  unfolding execute_insn
  iteration w e =
      let fetch = chained (load_bytes w.memory (to_host w.state.pc) 4) e in
      let decode = chained (insn_decode zeroed fetch.between) fetch.second in
      let execute = chained (funcs fpu decode.between.type w decode.between) decode.second in
      record {
        word = fetch.between;
        insn = decode.between;
        after = execute.between.0;
        insn' = execute.between.1;
        fetched = fetch.first;
        decoded = decode.first;
        executed = execute.first;
        finished = ground (arith, execute.second);
      }

  executed_leaves :
      (w : World) {w' : World}
      → execute_insn fpu w ≡ ok (true, w')
      → leaves_block w'.state.exit_reason ≡ true
  unfolding finish_insn
  executed_leaves w {w'} e =
      let t = iteration w e in
      let d = insn_decode-IsDecoded zeroed t.word zeroed-HasRegisters refl t.decoded in
      let leave = funcs_leaves fpu t.insn.type w t.insn d.jumps t.executed in
      elim (Bool-cases (t.insn'.cont)) [
        | inl c ↦ ground (arith, leave c, t.finished)
        | inr c ↦ absurd (ground (arith, t.finished))
      ]

  -- An iteration that ends the loop has set a reason to leave the block.
  interp_insn_leaves :
      (w : World) {w' : World}
      → interp_insn fpu w ≡ ok (true, w')
      → leaves_block w'.state.exit_reason ≡ true
  unfolding interp_insn halted leaves_block
  interp_insn_leaves w {w'} e = elim (Bool-cases (w.state.pc == 0)) [
    | inl p ↦ ground arith
    | inr p ↦ executed_leaves w {w' = w'} (ground arith)
  ]

  loop_after_leaves :
      (again : World → Option (Run World)) (r : Run (Bool × World)) {w' : World}
      → ((v : World) → r ≡ ok (true, v) → leaves_block v.state.exit_reason ≡ true)
      → ((v : World) → again v ≡ some (ok w') → leaves_block w'.state.exit_reason ≡ true)
      → loop_after again r ≡ some (ok w')
      → leaves_block w'.state.exit_reason ≡ true
  unfolding loop_after
  loop_after_leaves again (fault x) h k e = absurd (cc)
  loop_after_leaves again (ok (true, v)) h k e = ground (arith, h v refl)
  loop_after_leaves again (ok (false, v)) h k e = k v e

  -- If the interpreter's loop returns, then the exit reason is one of those with which a block is
  -- left: a direct or an indirect branch, an environment call, or the halt at address 0.
  pub exec_block_interp_leaves :
      (fuel : ℕ) (w : World) {w' : World}
      → exec_block_interp fpu fuel w ≡ some (ok w')
      → leaves_block w'.state.exit_reason ≡ true
  unfolding exec_block_interp
  exec_block_interp_leaves zero w e = absurd (cc)
  exec_block_interp_leaves (suc fuel) w e =
      loop_after_leaves (exec_block_interp fpu fuel) (interp_insn fpu w) (λ v. interp_insn_leaves w)
        (λ v. exec_block_interp_leaves fuel v) e

  -- An invariant of iterations is one of the loop.
  loop_after_inv :
      (P : World → Type 0) (again : World → Option (Run World)) (r : Run (Bool × World))
      {w' : World}
      → ((last : Bool) (v : World) → r ≡ ok (last, v) → P v)
      → ((v : World) → P v → again v ≡ some (ok w') → P w')
      → loop_after again r ≡ some (ok w')
      → P w'
  unfolding loop_after
  loop_after_inv P again (fault x) h k e = absurd (cc)
  loop_after_inv P again (ok (true, v)) {w'} h k e = subst P (same_world e) (h true v refl)
  loop_after_inv P again (ok (false, v)) h k e = k v (h false v refl) e

  pub exec_block_interp_inv :
      (P : World → Type 0)
      → ((w v : World) (last : Bool) → P w → interp_insn fpu w ≡ ok (last, v) → P v)
      → (fuel : ℕ) (w : World) {w' : World} → P w
      → exec_block_interp fpu fuel w ≡ some (ok w')
      → P w'
  unfolding exec_block_interp
  exec_block_interp_inv P keep zero w h e = absurd (cc)
  exec_block_interp_inv P keep (suc fuel) w h e =
      loop_after_inv P (exec_block_interp fpu fuel) (interp_insn fpu w)
        (λ last v q. keep w v last h q) (λ v p q. exec_block_interp_inv P keep fuel v p q) e

  finish_insn-IsSound : (w : World) (i : Insn) → IsWide w.state → IsSound (finish_insn w i).1
  unfolding finish_insn
  finish_insn-IsSound w i h = elim (Bool-cases i.cont) [
    | inl c ↦ record {
      wide = record {
        gp_lt = λ k. ground (arith, h.gp_lt k);
        fp_lt = λ k. ground (arith, h.fp_lt k);
        pc_lt = ground (arith, h.pc_lt);
        reenter_lt = ground (arith, h.reenter_lt);
      };
      zero_reg = ground arith;
    }
    | inr c ↦ record {
      wide = record {
        gp_lt = λ k. ground (arith, h.gp_lt k);
        fp_lt = λ k. ground (arith, h.fp_lt k);
        pc_lt = ground (arith, h.pc_lt);
        reenter_lt = ground (arith, h.reenter_lt);
      };
      zero_reg = ground arith;
    }
  ]

  executed-IsSound :
      (w : World) {last : Bool} {w' : World}
      → IsSound w
      → execute_insn fpu w ≡ ok (last, w')
      → IsSound w'
  executed-IsSound w h e =
      let t = iteration w e in
      subst IsSound (ap (λ p. p.1) t.finished) (
        finish_insn-IsSound t.after t.insn'
          (funcs-IsWide fpu t.insn.type w t.insn h.wide t.executed))

  interp_insn-IsSound :
      (w v : World) (last : Bool) → IsSound w → interp_insn fpu w ≡ ok (last, v) → IsSound v
  unfolding interp_insn halted
  interp_insn-IsSound w v last h e = elim (Bool-cases (w.state.pc == 0)) [
    | inl p ↦ subst IsSound (ground (arith, p)) (halted-IsSound w h)
    | inr p ↦ executed-IsSound w {last = last} {w' = v} h (ground arith)
  ]

  -- The interpreter's loop keeps every register and counter within 64 bits and the register
  -- `zero` at 0.
  pub exec_block_interp-IsSound :
      (fuel : ℕ) (w : World) {w' : World}
      → IsSound w
      → exec_block_interp fpu fuel w ≡ some (ok w')
      → IsSound w'
  exec_block_interp-IsSound fuel w h e =
      exec_block_interp_inv IsSound interp_insn-IsSound fuel w h e
