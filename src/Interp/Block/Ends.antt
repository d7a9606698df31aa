-- ===== src/Interp/Block/Ends.antt =====
-- The end of the loop of `exec_block_interp`.
use riscvemu_study.Prelude.{
  ℕ, zero, suc, ◌+◌, ◌^◌, ◌≤◌, ◌<◌, ◌≡◌, refl, arith, ◌==◌, Bool, true, false, Option, some, Run,
  ok, fault, chained, Bool-cases, inl, inr, sym, ap, ◌∙◌, Ensures,
}
use mathlib.Core.Path.{subst}
use riscvemu_study.Insn.{InsnType, Insn, zeroed, sb, sh, sw, sd, fsw, fsd}
use riscvemu_study.State.{World, to_host, guest_memory_offset, store_bytes}
use riscvemu_study.State.Bytes.{IsBelow, load_bytes_below, store_bytes-IsBelow}
use riscvemu_study.Decode.WellFormed.{insn_decode-IsDecoded}
use riscvemu_study.Interp.Memory.{
  effective, store_op, func_sb, func_sh, func_sw, func_sd, func_fsw, func_fsd,
}
use riscvemu_study.Interp.Float.{Fpu}
use riscvemu_study.Interp.Funcs.{funcs, on_memory}
use riscvemu_study.Interp.Frame.{is_store, leaves_block, funcs_memory, funcs_continues}
use riscvemu_study.Interp.Block.{
  finish_insn, loop_after, execute_insn, interp_insn, exec_block_interp,
}
use riscvemu_study.Interp.Block.Laws.{iteration, exec_block_interp_leaves, zeroed-HasRegisters}

store_op-IsBelow :
    (n v top : ℕ) (w : World) (i : Insn) {w' : World}
    → IsBelow top w.memory
    → store_op n v w i ≡ ok w'
    → IsBelow top w'.memory
unfolding store_op
store_op-IsBelow n v top w i h e =
    let at = to_host (effective w.state i) in
    let stored = chained (store_bytes w.memory at n v) e in
    λ b q. ground (arith, store_bytes-IsBelow n w.memory top at v h stored.first b q, stored.second)

on_memory-IsBelow :
    (f : World → Insn → Run World) (top : ℕ) (w : World) (i : Insn) {w' : World} {i' : Insn}
    → ((v : World) → f w i ≡ ok v → IsBelow top v.memory)
    → on_memory f w i ≡ ok (w', i')
    → IsBelow top w'.memory
unfolding on_memory
on_memory-IsBelow f top w i h e =
    let stored = chained (f w i) e in
    λ b q. ground (arith, h stored.between stored.first b q, stored.second)

module _ (fpu : Fpu) (top : ℕ) where
  stores-IsBelow :
      (t : InsnType) (w : World) (i : Insn) {w' : World} {i' : Insn}
      → IsBelow top w.memory
      → is_store t ≡ true
      → funcs fpu t w i ≡ ok (w', i')
      → IsBelow top w'.memory
  unfolding funcs is_store func_sb func_sh func_sw func_sd func_fsw func_fsd
  stores-IsBelow sb w i h s e =
      on_memory-IsBelow func_sb top w i (λ v. store_op-IsBelow 1 (w.state.gp_regs i.rs2) top w i h)
        e
  stores-IsBelow sh w i h s e =
      on_memory-IsBelow func_sh top w i (λ v. store_op-IsBelow 2 (w.state.gp_regs i.rs2) top w i h)
        e
  stores-IsBelow sw w i h s e =
      on_memory-IsBelow func_sw top w i (λ v. store_op-IsBelow 4 (w.state.gp_regs i.rs2) top w i h)
        e
  stores-IsBelow sd w i h s e =
      on_memory-IsBelow func_sd top w i (λ v. store_op-IsBelow 8 (w.state.gp_regs i.rs2) top w i h)
        e
  stores-IsBelow fsw w i h s e =
      on_memory-IsBelow func_fsw top w i (λ v. store_op-IsBelow 4 (w.state.fp_regs i.rs2) top w i h)
        e
  stores-IsBelow fsd w i h s e =
      on_memory-IsBelow func_fsd top w i (λ v. store_op-IsBelow 8 (w.state.fp_regs i.rs2) top w i h)
        e
  stores-IsBelow _ w i h s e = absurd (ground arith)

  -- No instruction maps memory.
  funcs-IsBelow :
      (t : InsnType) (w : World) (i : Insn) {w' : World} {i' : Insn}
      → IsBelow top w.memory
      → funcs fpu t w i ≡ ok (w', i')
      → IsBelow top w'.memory
  funcs-IsBelow t w i h e = elim (Bool-cases (is_store t)) [
    | inl s ↦ stores-IsBelow t w i h s e
    | inr s ↦ subst (λ m. IsBelow top m) (sym (funcs_memory fpu t w i s e)) h
  ]

  -- The program counter's host address is within the mapped part of the address space.
  abbrev pub Fits : World → Type 0
  Fits w = IsBelow top w.memory × (w.state.pc + guest_memory_offset ≤ top)

  -- An iteration that goes on moves the program counter up, and stays within.
  continues :
      (w : World) {w' : World}
      → top < 2 ^ 64
      → Fits w
      → execute_insn fpu w ≡ ok (false, w')
      → Fits w' × (w.state.pc < w'.state.pc)
  unfolding finish_insn to_host
  continues w {w'} t (h, p) e =
      let it = iteration fpu w e in
      let d = insn_decode-IsDecoded zeroed it.word zeroed-HasRegisters refl it.decoded in
      let below = funcs-IsBelow it.insn.type w it.insn h it.executed in
      let host : to_host w.state.pc ≡ w.state.pc + guest_memory_offset = omega arith in
      let fetched =
        load_bytes_below 4 w.memory top (to_host w.state.pc) h t (omega arith) it.fetched in
      elim (Bool-cases (it.insn'.cont)) [
        | inl c ↦ absurd (ground (arith, it.finished))
        | inr c ↦
            let (same_pc, rvc, reason) =
              funcs_continues fpu it.insn.type w it.insn d.jumps it.executed c in
            (
              (λ b q. ground (arith, below b q, it.finished), ground (arith, it.finished)),
              ground (arith, it.finished),
            )
      ]

  loop_after_ends :
      (again : World → Option (Run World)) (r : Run (Bool × World))
      → ((v : World) → r ≡ ok (false, v) → (x : Run World) × (again v ≡ some x))
      → (x : Run World) × (loop_after again r ≡ some x)
  unfolding loop_after
  loop_after_ends again (fault f) h = (fault f, refl)
  loop_after_ends again (ok (true, v)) h = (ok v, refl)
  loop_after_ends again (ok (false, v)) h = h v refl

  loop_ends :
      (fuel : ℕ) (w : World)
      → top < 2 ^ 64
      → Fits w
      → top < fuel + (w.state.pc + guest_memory_offset)
      → (r : Run World) × (exec_block_interp fpu fuel w ≡ some r)
  unfolding exec_block_interp interp_insn
  loop_ends zero w t h f = absurd (omega (arith, h.1))
  loop_ends (suc fuel) w t h f = elim (Bool-cases (w.state.pc == 0)) [
    | inl p ↦
        loop_after_ends (exec_block_interp fpu fuel) (interp_insn fpu w)
          (λ v e. absurd (ground arith))
    | inr p ↦ loop_after_ends (exec_block_interp fpu fuel) (interp_insn fpu w) (λ v e.
        let step = continues w {w' = v} t h (ground arith) in
        loop_ends fuel v t step.0 (omega (arith, step.1)))
  ]

-- Where nothing is mapped from the host address `top` on, and the program counter's host address
-- is not above it, fuel above the distance between the two is enough: the interpreter's loop
-- ends, in a fault or with a reason to leave the block.
pub exec_block_interp_ends :
    (fpu : Fpu) (top fuel : ℕ) (w : World)
    → top < 2 ^ 64
    → IsBelow top w.memory
    → w.state.pc + guest_memory_offset ≤ top
    → top < fuel + (w.state.pc + guest_memory_offset)
    → (r : Run World) × (exec_block_interp fpu fuel w ≡ some r)
      × Ensures (λ (w' : World). leaves_block w'.state.exit_reason ≡ true) r
exec_block_interp_ends fpu top fuel w t h p f =
    let (r, e) = loop_ends fpu top fuel w t (h, p) f in
    (
      r,
      e,
      record {
        holds = λ w' q. exec_block_interp_leaves fpu fuel w (e ∙ ap (λ (x : Run World). some x) q);
      },
    )
