-- ===== src/Decode/Select.antt =====
-- `switch` over a field whose cases only set `insn->type`; no case is `unreachable()`.
use mathlib.Core.Bool.{not}
use riscvemu_study.Prelude.{ℕ, List, [], ◌∷◌, ◌==◌, if◌then◌else◌, Run, ok, fault, unreachable}
use riscvemu_study.Prelude.{◌>>=◌, ◌>>◌, assert}
use riscvemu_study.Insn.{InsnType, Insn}

unfoldable pub pick : List (ℕ × InsnType) → ℕ → Run InsnType
pick [] k = fault unreachable
pick ((j, t) ∷ cases) k = if k == j then ok t else pick cases k

-- `*insn = ...; switch (...) { case ...: insn->type = ...; return; }`
unfoldable pub typed : Insn → Run InsnType → Run Insn
typed i m = do t ← m; ok (record i { type = t })

-- `assert(insn->imm != 0)`
unfoldable pub with_imm : Insn → Run Insn
with_imm i = do assert (not (i.imm == 0)); ok i

-- `assert(insn->rd != 0)`
unfoldable pub with_rd : Insn → Run Insn
with_rd i = do assert (not (i.rd == 0)); ok i
