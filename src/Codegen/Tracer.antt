-- ===== src/Codegen/Tracer.antt =====
-- `tracer_t` of src/codegen.c: the registers that a block uses, as C locals.
use riscvemu_study.Prelude.{
  ℕ, zero, suc, ◌+◌, if◌then◌else◌, Bool, true, false, List, [], ◌∷◌, ◌++◌, update,
}
use riscvemu_study.Codegen.Source.{Line, load_gp, load_fp, save_gp, save_fp}

pub record Tracer : Type 0 where
  pub gp_reg : ℕ → Bool
  pub fp_reg : ℕ → Bool

unfoldable pub tracer_reset : Tracer
tracer_reset = record { gp_reg = λ r. false; fp_reg = λ r. false }

-- The loop of `tracer_add_gp_reg_usage` and `tracer_add_fp_reg_usage`
unfoldable pub add_usage : List ℕ → (ℕ → Bool) → ℕ → Bool
add_usage [] used = used
add_usage (n ∷ ns) used = add_usage ns (update used n true)

-- A loop over the registers from `i` on, `left` of them: one line for each that is used
unfoldable pub append_used : (ℕ → Bool) → (ℕ → Line) → ℕ → ℕ → List Line
append_used used line i zero = []
append_used used line i (suc left) =
    (if used i then line i ∷ [] else []) ++ append_used used line (i + 1) left

unfoldable pub tracer_append_prologue : Tracer → List Line
tracer_append_prologue t = append_used t.gp_reg load_gp 1 31 ++ append_used t.fp_reg load_fp 0 32

unfoldable pub tracer_append_epilogue : Tracer → List Line
tracer_append_epilogue t = append_used t.gp_reg save_gp 1 31 ++ append_used t.fp_reg save_fp 0 32
