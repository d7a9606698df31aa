-- ===== src/Codegen/Shape.antt =====
-- What the printed lines say of labels, jumps, braces and registers.
pub mod Operations
pub mod Append
pub mod Locals
use riscvemu_study.Prelude.{ℕ, List, [], ◌∷◌, ◌++◌, Option, some, none}
use riscvemu_study.Codegen.Source.{
  Line, open_insn, goto_insn, goto_end, close, get_gp, set_gp, get_fp, set_fp, branch, header,
  end_label, footer, load_gp, load_fp, save_gp, save_fp,
}

-- The addresses of the `insn_` labels that the lines declare, and that they jump to
unfoldable pub labels : List Line → List ℕ
labels [] = []
labels (open_insn pc ∷ ls) = pc ∷ labels ls
labels (l ∷ ls) = labels ls

unfoldable pub jumps : List Line → List ℕ
jumps [] = []
jumps (goto_insn pc ∷ ls) = pc ∷ jumps ls
jumps (branch typ op pc ∷ ls) = pc ∷ jumps ls
jumps (l ∷ ls) = jumps ls

-- The registers that the instructions of the body name, as the locals `x<r>` and `f<r>`
unfoldable pub gp_names : List Line → List ℕ
gp_names [] = []
gp_names (get_gp x r ∷ ls) = r ∷ gp_names ls
gp_names (set_gp r e ∷ ls) = r ∷ gp_names ls
gp_names (l ∷ ls) = gp_names ls

unfoldable pub fp_names : List Line → List ℕ
fp_names [] = []
fp_names (get_fp typ x v r ∷ ls) = r ∷ fp_names ls
fp_names (set_fp v r e ∷ ls) = r ∷ fp_names ls
fp_names (l ∷ ls) = fp_names ls

-- Before the source, at its declarations, between two instructions' braces, inside them, inside
-- after an unconditional `goto`, at the assignments back, and after the source
pub data Place : Type 0 where
  before declaring between inside jumped saving after : Place

-- The grammar of the sources: the locals are declared before the first instruction and assigned
-- back after the last; braces open and close in turn, with an unconditional `goto` before each
-- closing one and nowhere else. The answer is the place after the line.
unfoldable pub scan_line : Place → Line → Option Place
scan_line before header = some declaring
scan_line declaring (load_gp r) = some declaring
scan_line declaring (load_fp r) = some declaring
scan_line declaring (open_insn pc) = some inside
scan_line between (open_insn pc) = some inside
scan_line between end_label = some saving
scan_line inside (open_insn pc) = none
scan_line inside (goto_insn pc) = some jumped
scan_line inside goto_end = some jumped
scan_line inside close = none
scan_line inside header = none
scan_line inside end_label = none
scan_line inside footer = none
scan_line inside (load_gp r) = none
scan_line inside (load_fp r) = none
scan_line inside (save_gp r) = none
scan_line inside (save_fp r) = none
scan_line inside l = some inside
scan_line jumped close = some between
scan_line saving (save_gp r) = some saving
scan_line saving (save_fp r) = some saving
scan_line saving footer = some after
scan_line p l = none

unfoldable pub scan : Place → List Line → Option Place
scan p [] = some p
scan p (l ∷ ls) = elim (scan_line p l) [ none ↦ none | some q ↦ scan q ls ]
