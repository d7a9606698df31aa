-- ===== src/Interp/MulDiv/Division.antt =====
-- The faults of the 32-bit divisions of src/interpret.c.
use riscvemu_study.Prelude.{Run, ◌^◌, sext, ℕ, ◌≡◌, ◌≢◌, ◌↔◌, arith, fault, sigfpe, u32}
use riscvemu_study.Prelude.Int.{to_i64, of_ℤ, quot, remainder}
use riscvemu_study.Insn.{Insn}
use riscvemu_study.State.{State}
use riscvemu_study.Interp.MulDiv.{
  divide_signed, word_op, func_divw, func_divuw, func_remw, func_remuw,
}

-- The host divides by zero: the register is not 0, but its low half is.
abbrev pub HasZeroLow : State → Insn → Type 0
HasZeroLow s i = (s.gp_regs i.rs2 ≢ 0) × (u32 (s.gp_regs i.rs2) ≡ 0)

-- An extended word is 0 only if the word is, and is not the lowest 64-bit integer, so no quotient
-- of two of them overflows.
divide_signed-fault :
    (f : ℕ → ℕ → ℕ) (a b : ℕ)
    → (divide_signed f (2 ^ 63) (sext 32 (u32 a)) (sext 32 (u32 b)) ≡ fault sigfpe) ↔ (u32 b ≡ 0)
unfolding divide_signed
divide_signed-fault f a b = (λ e. ground arith, λ z. ground arith)

-- A division that traps for a divisor of 0 alone
word_op-fault :
    (z : ℕ) (divide : ℕ → ℕ → Run ℕ) (s : State) (i : Insn)
    → ((divide (u32 (s.gp_regs i.rs1)) (u32 (s.gp_regs i.rs2)) ≡ fault sigfpe)
        ↔ (u32 (s.gp_regs i.rs2) ≡ 0))
    → (word_op z divide s i ≡ fault sigfpe) ↔ HasZeroLow s i
unfolding word_op
word_op-fault z divide s i h = (λ e. ground (arith, h.0), λ (n, l). ground (arith, h.1 l))

-- The four 32-bit divisions and remainders take SIGFPE exactly when the second register is not 0
-- but its low 32 bits are.
pub word_divisions_fault :
    (s : State) (i : Insn)
    → ((func_divw s i ≡ fault sigfpe) ↔ HasZeroLow s i)
      × ((func_divuw s i ≡ fault sigfpe) ↔ HasZeroLow s i)
      × ((func_remw s i ≡ fault sigfpe) ↔ HasZeroLow s i)
      × ((func_remuw s i ≡ fault sigfpe) ↔ HasZeroLow s i)
unfolding func_divw func_divuw func_remw func_remuw
word_divisions_fault s i =
    let a = s.gp_regs i.rs1 in
    let b = s.gp_regs i.rs2 in
    let quotient = divide_signed-fault (λ x y. of_ℤ (quot (to_i64 x) (to_i64 y))) a b in
    let rest = divide_signed-fault (λ x y. of_ℤ (remainder (to_i64 x) (to_i64 y))) a b in
    (
      word_op-fault _ _ s i (ground arith),
      word_op-fault _ _ s i (ground arith),
      word_op-fault _ _ s i (ground arith),
      word_op-fault _ _ s i (ground arith),
    )
