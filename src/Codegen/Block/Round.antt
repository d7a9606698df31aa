-- ===== src/Codegen/Block/Round.antt =====
-- A round of the loop of `machine_genblock`, taken apart.
use riscvemu_study.Prelude.{
  ℕ, ◌+◌, ◌^◌, ◌-◌, ◌≡◌, inl, inr, ap, ◌∙◌, arith, if◌then◌else◌, Bool, true, false, ◌||◌, List, [],
  ◌∷◌, ◌++◌, u64, ok, chained,
}
use riscvemu_study.Insn.{Insn}
use riscvemu_study.State.{Memory, to_host, load_bytes}
use riscvemu_study.Stack.{Stack, stack_push, stack_pop}
use riscvemu_study.Stack.View.{contents, stack_pop-contents}
use riscvemu_study.Set.{Set, set_add}
use riscvemu_study.Set.Free.{set_add_same}
use riscvemu_study.Decode.Dispatch.{insn_decode}
use riscvemu_study.Interp.Control.{insn_size}
use riscvemu_study.Codegen.Source.{Line, open_insn, goto_insn, close}
use riscvemu_study.Codegen.Emit.{Emission}
use riscvemu_study.Codegen.Funcs.{emit}
use riscvemu_study.Codegen.Block.{Gen, push_all, trace, gen_insn, gen_visit, gen_popped, gen_step}

-- What ends an instruction that control leaves at its end.
abbrev pub fall_through : Bool → ℕ → List Line
fall_through cont next = if cont then [] else goto_insn next ∷ close ∷ []

-- The code of one instruction.
pub record Visit (memory : Memory) (pc : ℕ) (g g' : Gen) : Type 0 where
  pub word : ℕ
  pub insn : Insn
  pub emission : Emission
  pub pushed : Stack
  pub rest : Stack
  pub decoded : insn_decode g.insn word ≡ ok insn
  pub emitted : emit insn.type insn pc ≡ ok emission
  pub targets : push_all emission.targets g.stack ≡ ok pushed
  pub next :
      (if insn.cont || emission.deferred
        then ok pushed
        else stack_push pushed (u64 (pc + insn_size insn)))
      ≡ ok rest
  pub result : g' ≡ record g {
    body =
        g.body
        ++ open_insn pc
          ∷ (emission.lines
              ++ fall_through (insn.cont || emission.deferred) (u64 (pc + insn_size insn)));
    tracer = trace emission g.tracer;
    stack = rest;
    insn = record insn { cont = insn.cont || emission.deferred };
  }

pub gen_insn-Visit :
    (memory : Memory) (pc : ℕ) (g : Gen) {g' : Gen}
    → gen_insn memory pc g ≡ ok g'
    → Visit memory pc g g'
unfolding gen_insn
gen_insn-Visit memory pc g e =
    let fetch = chained (load_bytes memory (to_host pc) 4) e in
    let decode = chained (insn_decode g.insn fetch.between) fetch.second in
    let print = chained (emit decode.between.type decode.between pc) decode.second in
    let targets = chained (push_all print.between.targets g.stack) print.second in
    let next =
      chained
        (if decode.between.cont || print.between.deferred
          then ok targets.between
          else stack_push targets.between (u64 (pc + insn_size decode.between)))
        targets.second in
    record {
      word = fetch.between;
      insn = decode.between;
      emission = print.between;
      pushed = targets.between;
      rest = next.between;
      decoded = decode.first;
      emitted = print.first;
      targets = targets.first;
      next = next.first;
      result = ground (arith, next.second);
    }

-- A round that returns: at the end, at an address that was seen before, or at a new one.
pub data Round (memory : Memory) (g : Gen) (last : Bool) (g' : Gen) : Type 0 where
  ended : last ≡ true → contents g.stack ≡ [] → g' ≡ g → Round memory g last g'
  seen :
      (pc : ℕ) (stack : Stack)
      → last ≡ false
      → contents g.stack ≡ contents stack ++ pc ∷ []
      → g.stack.top ≡ stack.top + 1
      → set_add g.set pc ≡ ok (false, g.set)
      → g' ≡ record g { stack = stack }
      → Round memory g last g'
  fresh :
      (pc : ℕ) (stack : Stack) (set : Set)
      → last ≡ false
      → contents g.stack ≡ contents stack ++ pc ∷ []
      → g.stack.top ≡ stack.top + 1
      → set_add g.set pc ≡ ok (true, set)
      → Visit memory pc (record g { stack = stack; set = set }) g'
      → Round memory g last g'

pop_top : (s : Stack) (x : ℕ) → (stack_pop s x).0 ≡ true → s.top ≡ (stack_pop s x).2.top + 1
unfolding stack_pop
pop_top s x e = ground arith

gen_popped-Round :
    (memory : Memory) (g : Gen) (pc : ℕ) (stack : Stack) {last : Bool} {g' : Gen}
    → contents g.stack ≡ contents stack ++ pc ∷ []
    → g.stack.top ≡ stack.top + 1
    → gen_popped memory pc (record g { stack = stack }) ≡ ok (last, g')
    → Round memory g last g'
unfolding gen_popped gen_visit
gen_popped-Round memory g pc stack {last} {g'} p q e =
    let add = chained (set_add g.set pc) e in
    go add.between.0 add.between.1 add.first (ground (arith, add.second))
  where
    go :
        (b : Bool) (set : Set)
        → set_add g.set pc ≡ ok (b, set)
        → gen_visit memory pc b (record g { stack = stack; set = set }) ≡ ok (last, g')
        → Round memory g last g'
    go false set a r =
        let same = set_add_same g.set pc a in
        seen pc stack (ground arith) p q (a ∙ ap (λ t. ok (false, t)) same) (ground arith)
    go true set a r =
        let visit = chained (gen_insn memory pc (record g { stack = stack; set = set })) r in
        fresh pc stack set (ground (arith, visit.second)) p q a
          (gen_insn-Visit memory pc _ (visit.first ∙ ground (arith, visit.second)))

-- A round that returns is one of the three.
pub gen_step-Round :
    (memory : Memory) (g : Gen) {last : Bool} {g' : Gen}
    → gen_step memory g ≡ ok (last, g')
    → Round memory g last g'
unfolding gen_step
gen_step-Round memory g {last} {g'} e = elim (stack_pop-contents g.stack (2 ^ 64 - 1)) [
  | inl (empty, stays, _, _) ↦ ended (ground arith) empty (ground arith)
  | inr (top, popped) ↦
      gen_popped-Round memory g (stack_pop g.stack (2 ^ 64 - 1)).1
        (stack_pop g.stack (2 ^ 64 - 1)).2 top (pop_top g.stack (2 ^ 64 - 1) popped) (ground arith)
]
