-- ===== src/Codegen/Block/Layout.antt =====
-- The order of the lines in the source of a block.
use riscvemu_study.Prelude.{
  ℕ, zero, suc, ◌+◌, ◌≡◌, refl, ap, ◌∙◌, arith, if◌then◌else◌, Bool, true, false, List, [], ◌∷◌,
  some, ok,
}
use riscvemu_study.State.{World}
use riscvemu_study.Stack.View.{contents}
use riscvemu_study.Decode.IsDecoded.{HasRegisters}
use riscvemu_study.Codegen.Source.{Line, footer, load_gp, load_fp, save_gp, save_fp}
use riscvemu_study.Codegen.Tracer.{append_used, tracer_append_prologue, tracer_append_epilogue}
use riscvemu_study.Codegen.Shape.{
  labels, Place, before, declaring, between, saving, after, scan_line, scan,
}
use riscvemu_study.Codegen.Shape.Append.{scan-append}
use riscvemu_study.Codegen.Block.{Gen, gen_source, machine_genblock}
use riscvemu_study.Codegen.Block.Induction.{gen_loop_keeps, machine_genblock-Generated}
use riscvemu_study.Codegen.Block.Nested.{
  IsEntered, waiting, entered, IsNested, round-IsNested, start-IsNested,
}
use riscvemu_study.Codegen.Block.Reading.{labels-IsReading, labels-IsOfBody, gen_source-reading}

-- The parts of the source around the body
module _ (line : ℕ → Line) (p : Place) (stays : (r : ℕ) → scan_line p (line r) ≡ some p) where
  scan-append_used : (used : ℕ → Bool) (i left : ℕ) → scan p (append_used used line i left) ≡ some p
  unfolding append_used scan
  scan-append_used used i zero = refl
  scan-append_used used i (suc left) =
      scan-append p (if used i then line i ∷ [] else []) _ (here (used i))
      ∙ scan-append_used used (i + 1) left
    where
      here : (b : Bool) → scan p (if b then line i ∷ [] else []) ≡ some p
      here true = ground (arith, stays i)
      here false = refl

scan-gen_source :
    (g : Gen) → scan declaring g.body ≡ some between → scan before (gen_source g) ≡ some after
unfolding gen_source scan scan_line tracer_append_prologue tracer_append_epilogue
scan-gen_source g h =
    scan-append declaring (tracer_append_prologue g.tracer) _ (
      scan-append declaring (append_used g.tracer.gp_reg load_gp 1 31) _
        (scan-append_used load_gp declaring (λ r. refl) g.tracer.gp_reg 1 31)
      ∙ scan-append_used load_fp declaring (λ r. refl) g.tracer.fp_reg 0 32)
    ∙ (scan-append declaring g.body _ h
        ∙ scan-append saving (tracer_append_epilogue g.tracer) (footer ∷ []) (
            scan-append saving (append_used g.tracer.gp_reg save_gp 1 31) _
              (scan-append_used save_gp saving (λ r. refl) g.tracer.gp_reg 1 31)
            ∙ scan-append_used save_fp saving (λ r. refl) g.tracer.fp_reg 0 32))

-- Where `*insn` holds register numbers below 32 before the call, a source that `machine_genblock`
-- returns stands in the grammar from its first line to its last, the program counter is its first
-- label, and `*insn` holds register numbers below 32 again.
pub machine_genblock_layout :
    (fuel : ℕ) (old : Gen) (w : World) {source : List Line} {g' : Gen}
    → HasRegisters old.insn
    → machine_genblock fuel old w ≡ some (ok (source, g'))
    → (scan before source ≡ some after)
      × ((rest : List ℕ) × (labels source ≡ w.state.pc ∷ rest))
      × HasRegisters g'.insn
machine_genblock_layout fuel old w {source} {g'} h e =
    let r = machine_genblock-Generated fuel old w e in
    let (inv, empty) =
      gen_loop_keeps (IsNested w.state.pc) w.memory fuel r.start
        (round-IsNested w.state.pc w.memory) (start-IsNested w.state.pc old h r.started) r.looped in
    go inv.body empty r.printed inv.registers
  where
    go :
        IsEntered w.state.pc g'
        → contents g'.stack ≡ []
        → source ≡ gen_source g'
        → HasRegisters g'.insn
        → (scan before source ≡ some after)
          × ((rest : List ℕ) × (labels source ≡ w.state.pc ∷ rest))
          × HasRegisters g'.insn
    go (waiting b c z) d p k = absurd (ground arith)
    go (entered rest s l) d p k = (
      ap (scan before) p ∙ scan-gen_source g' s,
      (rest, ap labels p ∙ (gen_source-reading labels labels-IsReading labels-IsOfBody g' ∙ l)),
      k,
    )
