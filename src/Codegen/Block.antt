-- ===== src/Codegen/Block.antt =====
-- `machine_genblock` of src/codegen.c: the worklist over the instructions that a block reaches.
pub mod Round
pub mod Halts
pub mod Induction
pub mod Pending
pub mod Reading
pub mod Reached
pub mod Nested
pub mod Layout
pub mod Declared
pub mod Traced
use riscvemu_study.Prelude.{
  ℕ, zero, suc, ◌+◌, ◌^◌, ◌-◌, if◌then◌else◌, Bool, true, false, ◌||◌, List, [], ◌∷◌, ◌++◌, u64,
  Option, none, some, Run, ok, fault, ◌>>=◌,
}
use riscvemu_study.Insn.{Insn}
use riscvemu_study.State.{World, Memory, to_host, load_bytes}
use riscvemu_study.Stack.{Stack, stack_push, stack_pop, stack_reset}
use riscvemu_study.Set.{Set, set_add, set_reset}
use riscvemu_study.Decode.Dispatch.{insn_decode}
use riscvemu_study.Interp.Control.{insn_size}
use riscvemu_study.Codegen.Source.{Line, open_insn, goto_insn, close, header, end_label, footer}
use riscvemu_study.Codegen.Emit.{Emission}
use riscvemu_study.Codegen.Funcs.{emit}
use riscvemu_study.Codegen.Tracer.{
  Tracer, tracer_reset, add_usage, tracer_append_prologue, tracer_append_epilogue,
}

-- The static variables of `machine_genblock`, between two rounds of its loop. `insn` keeps what
-- the round before decoded.
pub record Gen : Type 0 where
  pub body : List Line
  pub tracer : Tracer
  pub stack : Stack
  pub set : Set
  pub insn : Insn

unfoldable pub push_all : List ℕ → Stack → Run Stack
push_all [] s = ok s
push_all (x ∷ xs) s = do s' ← stack_push s x; push_all xs s'

-- The effects of an operation on the tracer
unfoldable pub trace : Emission → Tracer → Tracer
trace e t = record { gp_reg = add_usage e.gp_used t.gp_reg; fp_reg = add_usage e.fp_used t.fp_reg }

-- The rest of a round, from the label on, for an address that the set did not hold
unfoldable pub gen_insn : Memory → ℕ → Gen → Run Gen
gen_insn memory pc g = do
  word ← load_bytes memory (to_host pc) 4
  i ← insn_decode g.insn word
  e ← emit i.type i pc
  stack ← push_all e.targets g.stack
  let cont = i.cont || e.deferred
  let next = u64 (pc + insn_size i)
  stack' ← if cont then ok stack else stack_push stack next
  ok (record g {
    body = g.body ++ open_insn pc ∷ (e.lines ++ (if cont then [] else goto_insn next ∷ close ∷ []));
    tracer = trace e g.tracer;
    stack = stack';
    insn = record i { cont = cont };
  })

-- A round of the loop, for the address that it popped: `fresh` is what `set_add` returned.
unfoldable pub gen_visit : Memory → ℕ → Bool → Gen → Run (Bool × Gen)
gen_visit memory pc fresh g = do g' ← if fresh then gen_insn memory pc g else ok g; ok (false, g')

unfoldable pub gen_popped : Memory → ℕ → Gen → Run (Bool × Gen)
unfolding gen_visit
gen_popped memory pc g = do
  (fresh, set) ← set_add g.set pc
  gen_visit memory pc fresh (record g { set = set })

-- A round of the loop; the flag says that the stack was empty, and the loop ends.
unfoldable pub gen_step : Memory → Gen → Run (Bool × Gen)
gen_step memory g =
    let (popped, pc, stack) = stack_pop g.stack (2 ^ 64 - 1) in
    if popped then gen_popped memory pc (record g { stack = stack }) else ok (true, g)

unfoldable pub gen_after : (Gen → Option (Run Gen)) → Run (Bool × Gen) → Option (Run Gen)
gen_after again (fault e) = some (fault e)
gen_after again (ok (true, g)) = some (ok g)
gen_after again (ok (false, g)) = again g

-- The loop, on fuel: `none` is out of fuel.
unfoldable pub gen_loop : Memory → ℕ → Gen → Option (Run Gen)
unfolding gen_after
gen_loop memory zero g = none
gen_loop memory (suc fuel) g = gen_after (gen_loop memory fuel) (gen_step memory g)

unfoldable pub gen_source : Gen → List Line
gen_source g =
    header
    ∷ (tracer_append_prologue g.tracer
        ++ (g.body ++ (end_label ∷ (tracer_append_epilogue g.tracer ++ (footer ∷ [])))))

-- The stack, the set and the tracer are static and are reset here; `insn` and what the old
-- arrays held are what the call before left.
unfoldable pub gen_start : ℕ → Gen → Run Gen
unfolding stack_reset set_reset
gen_start pc old = do
  stack ← stack_push (stack_reset old.stack) pc
  ok (record {
    body = [];
    tracer = tracer_reset;
    stack = stack;
    set = set_reset old.set;
    insn = old.insn;
  })

-- The text, with the static variables that the next call finds
unfoldable pub machine_genblock : ℕ → Gen → World → Option (Run (List Line × Gen))
machine_genblock fuel old w = elim (gen_start w.state.pc old) [
  | fault e ↦ some (fault e)
  | ok g ↦ elim (gen_loop w.memory fuel g) [
    | none ↦ none
    | some (fault e) ↦ some (fault e)
    | some (ok g') ↦ some (ok (gen_source g', g'))
  ]
]
