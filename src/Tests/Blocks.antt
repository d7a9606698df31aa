-- ===== src/Tests/Blocks.antt =====
-- The source of a small guest program's block, and the theorems at it.
use riscvemu_study.Prelude.{
  ℕ, ◌-◌, ◌≡◌, ◌≤◌, ◌⊎◌, refl, arith, leb, if◌then◌else◌, false, Option, none, some, List, [], ◌∷◌,
  Run, ok, fault, All,
}
use riscvemu_study.Insn.{zeroed}
use riscvemu_study.State.{World, Memory, ExitReason, to_host, byte_at, load_bytes}
use riscvemu_study.Stack.{stack_push, stack_pop, stack_reset, has_duplicate}
use riscvemu_study.Set.{set_add, add_loop, store_free, set_reset}
use riscvemu_study.Decode.IsDecoded.{HasRegisters}
use riscvemu_study.Codegen.Source.{
  Line, header, load_gp, load_fp, open_insn, get_zero, get_gp, set_gp, set_fp, rs1, rs2, view_w,
  bin, plus, var, cast, int64_t, uint32_t, uint64_t, lit_ll, lit_ull, goto_insn, close, branch,
  equal, set_reason, set_reenter, goto_end, end_label, save_gp, save_fp, footer,
}
use riscvemu_study.Codegen.Shape.{labels, jumps, gp_names, fp_names, scan, before, after}
use riscvemu_study.Codegen.Shape.Append.{count}
use riscvemu_study.Codegen.Block.Halts.{Returns, machine_genblock-Returns}
use riscvemu_study.Codegen.Block.Reached.{machine_genblock-labels}
use riscvemu_study.Codegen.Block.Layout.{machine_genblock_layout}
use riscvemu_study.Codegen.Block.Traced.{IsGpLocal, IsFpLocal, machine_genblock_locals}
use riscvemu_study.Codegen.Emit.{reg_get, reg_set_expr, reg_set_val, emit_imm, emit_from_int}
use riscvemu_study.Codegen.Control.{emit_branch}
use riscvemu_study.Codegen.Funcs.{emit}
use riscvemu_study.Codegen.Tracer.{
  tracer_reset, add_usage, append_used, tracer_append_prologue, tracer_append_epilogue,
}
use riscvemu_study.Codegen.Block.{
  Gen, push_all, trace, gen_insn, gen_visit, gen_popped, gen_step, gen_after, gen_loop, gen_source,
  gen_start, machine_genblock,
}
use riscvemu_study.Tests.Program.{decoding, byte_of, start}

generating : Unit {0}
unfolding decoding to_host byte_at load_bytes stack_push stack_pop stack_reset has_duplicate set_add
    add_loop store_free set_reset reg_get reg_set_expr reg_set_val emit_imm emit_from_int
    emit_branch emit tracer_reset add_usage append_used tracer_append_prologue
    tracer_append_epilogue push_all trace gen_insn gen_visit gen_popped gen_step gen_after gen_loop
    gen_source gen_start machine_genblock
generating = tt

-- At address 0x1000: `addi ra, zero, 5`, `beq ra, zero, -4`, `fmv.w.x ft2, ra` and `ecall`.
block : Memory
unfolding byte_of
block a =
    if leb 0x088800001000 a
    then byte_of
        (0x93 ∷ 0x00 ∷ 0x50 ∷ 0x00 ∷ 0xe3 ∷ 0x8e ∷ 0x00 ∷ 0xfe ∷ 0x53 ∷ 0x81 ∷ 0x00 ∷ 0xf0 ∷ 0x73
          ∷ 0x00 ∷ 0x00 ∷ 0x00 ∷ [])
        (a - 0x088800001000)
    else none

abbrev hot : World
hot = record start { memory = block }

abbrev pub fresh_gen : Gen
fresh_gen = record {
  body = [];
  tracer = record { gp_reg = λ r. false; fp_reg = λ r. false };
  stack = record { top = 0; elems = λ i. 0 };
  set = record { table = λ i. 0 };
  insn = zeroed;
}

abbrev printed : List Line
printed =
    header
    ∷ load_gp 1
    ∷ load_fp 2
    ∷ open_insn 0x1000
    ∷ get_zero rs1
    ∷ set_gp 1 (bin plus (var rs1) (cast int64_t (lit_ll 5)))
    ∷ goto_insn 0x1004
    ∷ close
    ∷ open_insn 0x1004
    ∷ get_gp rs1 1
    ∷ get_zero rs2
    ∷ branch uint64_t equal 0x1000
    ∷ goto_insn 0x1008
    ∷ close
    ∷ open_insn 0x1008
    ∷ get_gp rs1 1
    ∷ set_fp view_w 2 (cast uint32_t (var rs1))
    ∷ goto_insn 0x100c
    ∷ close
    ∷ open_insn 0x100c
    ∷ set_reason ExitReason.ecall
    ∷ set_reenter (lit_ull 0x1010)
    ∷ goto_end
    ∷ close
    ∷ end_label
    ∷ save_gp 1
    ∷ save_fp 2
    ∷ footer
    ∷ []

gen_of : Option (Run (List Line × Gen)) → Gen
gen_of (some (ok (ls, g))) = g
gen_of (some (fault e)) = fresh_gen
gen_of none = fresh_gen

left : Gen
unfolding gen_of generating block
left = gen_of (machine_genblock 6 fresh_gen hot)

prints : machine_genblock 6 fresh_gen hot ≡ some (ok (printed, left))
unfolding left gen_of generating block
prints = refl

fresh_gen-HasRegisters : HasRegisters fresh_gen.insn
fresh_gen-HasRegisters = omega arith

machine_genblock-Returns_example : Returns (machine_genblock 65538 fresh_gen hot)
machine_genblock-Returns_example = machine_genblock-Returns 65538 fresh_gen hot (omega arith)

machine_genblock-labels_example :
    (count (labels printed) 0x1000 ≤ 1)
    × ((count (jumps printed) 0x1000 ≡ 0) ⊎ (count (labels printed) 0x1000 ≡ 1))
machine_genblock-labels_example =
    machine_genblock-labels 6 fresh_gen hot 0x1000 {source = printed} {g' = left} prints

machine_genblock_layout_example :
    (scan before printed ≡ some after)
    × ((rest : List ℕ) × (labels printed ≡ 0x1000 ∷ rest))
    × HasRegisters left.insn
machine_genblock_layout_example =
    machine_genblock_layout 6 fresh_gen hot {source = printed} {g' = left} fresh_gen-HasRegisters
      prints

machine_genblock_locals_example :
    All (IsGpLocal printed) (gp_names printed) × All (IsFpLocal printed) (fp_names printed)
machine_genblock_locals_example =
    machine_genblock_locals 6 fresh_gen hot {source = printed} {g' = left} fresh_gen-HasRegisters
      prints
