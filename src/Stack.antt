-- ===== src/Stack.antt =====
-- src/stack.c: a bounded stack of u64 that does not push what it holds.
pub mod View
use riscvemu_study.Prelude.{
  ℕ, zero, suc, ◌+◌, ◌-◌, ◌==◌, ltb, if◌then◌else◌, Bool, true, false, update, Run, ok, ◌>>=◌, ◌>>◌,
  assert,
}

abbrev pub stack_cap : ℕ
stack_cap = 256

pub record Stack : Type 0 where
  pub top : ℕ
  pub elems : ℕ → ℕ

-- The loop of `stack_push` from index `i` on, with `left` rounds to go.
unfoldable pub has_duplicate : (ℕ → ℕ) → ℕ → ℕ → ℕ → Bool
has_duplicate elems elem i zero = false
has_duplicate elems elem i (suc left) =
    if elems i == elem then true else has_duplicate elems elem (i + 1) left

unfoldable pub stack_push : Stack → ℕ → Run Stack
stack_push s elem = do
  assert (ltb s.top stack_cap)
  ok (
      if has_duplicate s.elems elem 0 s.top
      then s
      else record { top = s.top + 1; elems = update s.elems s.top elem })

-- The flag that `stack_pop` returns, with `*elem` and the stack after it.
unfoldable pub stack_pop : Stack → ℕ → Bool × ℕ × Stack
stack_pop s elem =
    if s.top == 0
    then (false, elem, s)
    else (true, s.elems (s.top - 1), record s { top = s.top - 1 })

unfoldable pub stack_reset : Stack → Stack
stack_reset s = record s { top = 0 }
