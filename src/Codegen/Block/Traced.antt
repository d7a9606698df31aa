-- ===== src/Codegen/Block/Traced.antt =====
-- The registers that the source of a block names.
use mathlib.Core.Path.{subst}
use riscvemu_study.Prelude.{
  ℕ, ◌+◌, ◌<◌, ◌≡◌, ◌≢◌, refl, sym, ap, ◌∙◌, arith, Bool, true, false, ◌||◌, List, [], ◌∷◌, ◌++◌,
  u64, some, ok, All, All-append, All-map, update,
}
use riscvemu_study.State.{World, Memory}
use riscvemu_study.Decode.IsDecoded.{HasRegisters}
use riscvemu_study.Decode.Over.{insn_decode_over}
use riscvemu_study.Interp.Control.{insn_size}
use riscvemu_study.Codegen.Source.{Line, open_insn}
use riscvemu_study.Codegen.Tracer.{Tracer, add_usage}
use riscvemu_study.Codegen.Shape.{gp_names, fp_names}
use riscvemu_study.Codegen.Shape.Append.{count, gp_names-append, fp_names-append}
use riscvemu_study.Codegen.Shape.Operations.{emit-gp_names, emit-fp_names}
use riscvemu_study.Codegen.Shape.Locals.{
  gp_loads, fp_loads, gp_saves, fp_saves, IsLocal, emit-IsLocal, fall_through-IsLocal,
  IsLocal-append,
}
use riscvemu_study.Codegen.Block.{trace, Gen, gen_step, gen_start, gen_source, machine_genblock}
use riscvemu_study.Codegen.Block.Round.{
  Visit, Round, ended, seen, fresh, fall_through, gen_step-Round,
}
use riscvemu_study.Codegen.Block.Induction.{gen_loop_keeps, machine_genblock-Generated}
use riscvemu_study.Codegen.Block.Reading.{
  ++-empty, gen_start-Started, gen_source-reading, gp_names-IsReading, gp_names-IsOfBody,
  fp_names-IsReading, fp_names-IsOfBody,
}
use riscvemu_study.Codegen.Block.Declared.{
  gp_loads-count, fp_loads-count, gp_saves-count, fp_saves-count,
}

-- What is used stays used.
add_usage_keeps :
    (ns : List ℕ) (used : ℕ → Bool) (r : ℕ) → used r ≡ true → add_usage ns used r ≡ true
unfolding add_usage
add_usage_keeps [] used r h = h
add_usage_keeps (n ∷ ns) used r h = add_usage_keeps ns (update used n true) r (ground arith)

abbrev IsGp : Tracer → ℕ → Type 0
IsGp t r = (r ≢ 0) × (r < 32) × (t.gp_reg r ≡ true)

abbrev IsFp : Tracer → ℕ → Type 0
IsFp t r = (r < 32) × (t.fp_reg r ≡ true)

-- Every register that the body names is in the tracer.
record IsTraced (g : Gen) : Type 0 where
  registers : HasRegisters g.insn
  gp : All (IsGp g.tracer) (gp_names g.body)
  fp : All (IsFp g.tracer) (fp_names g.body)
  local : IsLocal g.body

fall_through-gp_names : (cont : Bool) (next : ℕ) → gp_names (fall_through cont next) ≡ []
unfolding gp_names
fall_through-gp_names true next = refl
fall_through-gp_names false next = refl

fall_through-fp_names : (cont : Bool) (next : ℕ) → fp_names (fall_through cont next) ≡ []
unfolding fp_names
fall_through-fp_names true next = refl
fall_through-fp_names false next = refl

Visit-IsTraced :
    (memory : Memory) (pc : ℕ) (g : Gen) {g' : Gen}
    → IsTraced g
    → Visit memory pc g g'
    → IsTraced g'
unfolding gp_names fp_names gp_loads fp_loads gp_saves fp_saves trace
Visit-IsTraced memory pc g {g'} h v = subst IsTraced (sym v.result) (record {
  registers = omega (arith, decoded);
  gp = subst (All (IsGp now)) (sym (gp_names-append g.body (open_insn pc ∷ lines))) (
      All-append (IsGp now) (gp_names g.body) (gp_names lines)
        (All-map (IsGp g.tracer) (IsGp now) (gp_names g.body)
          (λ r (p, q, u). (p, q, add_usage_keeps v.emission.gp_used g.tracer.gp_reg r u)) h.gp)
        (subst (All (IsGp now)) (sym (gp_names-append v.emission.lines falling ∙ none_gp))
          (emit-gp_names v.insn.type v.insn pc g.tracer.gp_reg decoded v.emitted)));
  fp = subst (All (IsFp now)) (sym (fp_names-append g.body (open_insn pc ∷ lines))) (
      All-append (IsFp now) (fp_names g.body) (fp_names lines)
        (All-map (IsFp g.tracer) (IsFp now) (fp_names g.body)
          (λ r (q, u). (q, add_usage_keeps v.emission.fp_used g.tracer.fp_reg r u)) h.fp)
        (subst (All (IsFp now)) (sym (fp_names-append v.emission.lines falling ∙ none_fp))
          (emit-fp_names v.insn.type v.insn pc g.tracer.fp_reg decoded v.emitted)));
  local = IsLocal-append g.body (open_insn pc ∷ lines) h.local (
      opened (
        IsLocal-append v.emission.lines falling (emit-IsLocal v.insn.type v.insn pc v.emitted)
          (fall_through-IsLocal cont next)));
})
  where
    cont : Bool
    cont = v.insn.cont || v.emission.deferred

    next : ℕ
    next = u64 (pc + insn_size v.insn)

    falling : List Line
    falling = fall_through cont next

    lines : List Line
    lines = v.emission.lines ++ falling

    now : Tracer
    now = trace v.emission g.tracer

    decoded : HasRegisters v.insn
    decoded = (insn_decode_over g.insn v.word h.registers v.decoded).0

    none_gp : gp_names v.emission.lines ++ gp_names falling ≡ gp_names v.emission.lines
    none_gp =
        ap (λ l. gp_names v.emission.lines ++ l) (fall_through-gp_names cont next)
        ∙ ++-empty (gp_names v.emission.lines)

    none_fp : fp_names v.emission.lines ++ fp_names falling ≡ fp_names v.emission.lines
    none_fp =
        ap (λ l. fp_names v.emission.lines ++ l) (fall_through-fp_names cont next)
        ∙ ++-empty (fp_names v.emission.lines)

    opened : IsLocal lines → IsLocal (open_insn pc ∷ lines)
    opened k = ground (arith, k)

round-IsTraced :
    (memory : Memory) (g g' : Gen) → IsTraced g → gen_step memory g ≡ ok (false, g') → IsTraced g'
round-IsTraced memory g g' h e = go (gen_step-Round memory g e)
  where
    go : Round memory g false g' → IsTraced g'
    go (ended l c r) = absurd (cc)
    go (seen pc stack l c top a r) =
        subst IsTraced (sym r)
          (record { registers = h.registers; gp = h.gp; fp = h.fp; local = h.local })
    go (fresh pc stack set l c top a v) =
        Visit-IsTraced memory pc (record g { stack = stack; set = set })
          (record { registers = h.registers; gp = h.gp; fp = h.fp; local = h.local }) v

start-IsTraced :
    (pc : ℕ) (old : Gen) {g : Gen} → HasRegisters old.insn → gen_start pc old ≡ ok g → IsTraced g
unfolding gp_names fp_names gp_loads fp_loads gp_saves fp_saves
start-IsTraced pc old {g} h e =
    let start = gen_start-Started pc old e in
    record {
      registers = subst HasRegisters (sym start.insn) h;
      gp = subst (λ b. All (IsGp g.tracer) (gp_names b)) (sym start.body) tt;
      fp = subst (λ b. All (IsFp g.tracer) (fp_names b)) (sym start.body) tt;
      local = subst IsLocal (sym start.body) (ground arith);
    }

-- A line of the source declares the local and one assigns it back.
abbrev pub IsGpLocal : List Line → ℕ → Type 0
IsGpLocal source r =
    (r ≢ 0) × (r < 32) × (count (gp_loads source) r ≡ 1) × (count (gp_saves source) r ≡ 1)

abbrev pub IsFpLocal : List Line → ℕ → Type 0
IsFpLocal source r = (r < 32) × (count (fp_loads source) r ≡ 1) × (count (fp_saves source) r ≡ 1)

traced_gp : (g : Gen) (r : ℕ) → IsLocal g.body → IsGp g.tracer r → IsGpLocal (gen_source g) r
traced_gp g r k (n, p, u) =
    (n, p, gp_loads-count g k r ∙ ground arith, gp_saves-count g k r ∙ ground arith)

traced_fp : (g : Gen) (r : ℕ) → IsLocal g.body → IsFp g.tracer r → IsFpLocal (gen_source g) r
traced_fp g r k (p, u) =
    (p, fp_loads-count g k r ∙ ground arith, fp_saves-count g k r ∙ ground arith)

-- Where `*insn` holds register numbers below 32 before the call, a source that `machine_genblock`
-- returns declares every register that its instructions name exactly once and assigns it back
-- exactly once, and `x0` is not among them.
pub machine_genblock_locals :
    (fuel : ℕ) (old : Gen) (w : World) {source : List Line} {g' : Gen}
    → HasRegisters old.insn
    → machine_genblock fuel old w ≡ some (ok (source, g'))
    → All (IsGpLocal source) (gp_names source) × All (IsFpLocal source) (fp_names source)
machine_genblock_locals fuel old w {source} {g'} h e =
    let r = machine_genblock-Generated fuel old w e in
    let (inv, empty) =
      gen_loop_keeps IsTraced w.memory fuel r.start (round-IsTraced w.memory)
        (start-IsTraced w.state.pc old h r.started) r.looped in
    subst (λ s. All (IsGpLocal s) (gp_names s) × All (IsFpLocal s) (fp_names s)) (sym r.printed)
      (
        subst (All (IsGpLocal (gen_source g')))
            (sym (gen_source-reading gp_names gp_names-IsReading gp_names-IsOfBody g'))
            (All-map (IsGp g'.tracer) _ (gp_names g'.body) (λ r p. traced_gp g' r inv.local p)
              inv.gp),
        subst (All (IsFpLocal (gen_source g')))
            (sym (gen_source-reading fp_names fp_names-IsReading fp_names-IsOfBody g'))
            (All-map (IsFp g'.tracer) _ (fp_names g'.body) (λ r p. traced_fp g' r inv.local p)
              inv.fp),
      )
