-- ===== src/Interp/Memory.antt =====
-- The interpreter's loads and stores, those of floating-point registers included.
use riscvemu_study.Prelude.{ℕ, ◌+◌, u64, sext, update, Run, ok, ◌>>=◌, bit_or, ◌<<<◌}
use riscvemu_study.Insn.{Insn}
use riscvemu_study.State.{State, World, to_host, load_bytes, store_bytes, set_rd}

-- `rs1 + (i64)insn->imm`
abbrev pub effective : State → Insn → ℕ
effective s i = u64 (s.gp_regs i.rs1 + sext 32 i.imm)

-- `FUNC(typ)` of the loads: `n` bytes, extended by `ext`
unfoldable pub load_op : ℕ → (ℕ → ℕ) → World → Insn → Run World
unfolding set_rd
load_op n ext w i = do
  v ← load_bytes w.memory (to_host (effective w.state i)) n
  ok (record w { state = set_rd w.state i (ext v) })

unfoldable pub func_lb : World → Insn → Run World
func_lb = load_op 1 (sext 8)

unfoldable pub func_lh : World → Insn → Run World
func_lh = load_op 2 (sext 16)

unfoldable pub func_lw : World → Insn → Run World
func_lw = load_op 4 (sext 32)

unfoldable pub func_ld : World → Insn → Run World
func_ld = load_op 8 (λ v. v)

unfoldable pub func_lbu : World → Insn → Run World
func_lbu = load_op 1 (λ v. v)

unfoldable pub func_lhu : World → Insn → Run World
func_lhu = load_op 2 (λ v. v)

unfoldable pub func_lwu : World → Insn → Run World
func_lwu = load_op 4 (λ v. v)

-- `FUNC(typ)` of the stores: the low `n` bytes of `rs2`
unfoldable pub store_op : ℕ → ℕ → World → Insn → Run World
store_op n rs2 w i = do
  m ← store_bytes w.memory (to_host (effective w.state i)) n rs2
  ok (record w { memory = m })

unfoldable pub func_sb : World → Insn → Run World
func_sb w i = store_op 1 (w.state.gp_regs i.rs2) w i

unfoldable pub func_sh : World → Insn → Run World
func_sh w i = store_op 2 (w.state.gp_regs i.rs2) w i

unfoldable pub func_sw : World → Insn → Run World
func_sw w i = store_op 4 (w.state.gp_regs i.rs2) w i

unfoldable pub func_sd : World → Insn → Run World
func_sd w i = store_op 8 (w.state.gp_regs i.rs2) w i

-- `state->fp_regs[insn->rd].v = v`
unfoldable pub set_frd : State → Insn → ℕ → State
set_frd s i v = record s { fp_regs = update s.fp_regs i.rd (u64 v) }

unfoldable pub load_fp_op : ℕ → (ℕ → ℕ) → World → Insn → Run World
unfolding set_frd
load_fp_op n ext w i = do
  v ← load_bytes w.memory (to_host (effective w.state i)) n
  ok (record w { state = set_frd w.state i (ext v) })

-- `((u64)-1 << 32)`, the box of a single in a double
abbrev pub nan_box : ℕ
nan_box = 0xffffffff <<< 32

unfoldable pub func_flw : World → Insn → Run World
func_flw = load_fp_op 4 (λ v. bit_or v nan_box)

unfoldable pub func_fld : World → Insn → Run World
func_fld = load_fp_op 8 (λ v. v)

unfoldable pub func_fsw : World → Insn → Run World
func_fsw w i = store_op 4 (w.state.fp_regs i.rs2) w i

unfoldable pub func_fsd : World → Insn → Run World
func_fsd w i = store_op 8 (w.state.fp_regs i.rs2) w i
