-- ===== src/Codegen/Block/Induction.antt =====
-- Invariants of the loop of `machine_genblock`.
use riscvemu_study.Prelude.{
  ℕ, zero, suc, ◌≡◌, refl, sym, ap, ◌∙◌, arith, Bool, true, false, List, [], Option, some, none,
  Run, ok, fault,
}
use mathlib.Core.Path.{subst}
use riscvemu_study.State.{World, Memory}
use riscvemu_study.Stack.View.{contents}
use riscvemu_study.Codegen.Source.{Line}
use riscvemu_study.Codegen.Block.{
  Gen, gen_step, gen_after, gen_loop, gen_start, gen_source, machine_genblock,
}
use riscvemu_study.Codegen.Block.Round.{Round, ended, seen, fresh, gen_step-Round}

ended_round :
    (memory : Memory) (g : Gen) {g' : Gen}
    → gen_step memory g ≡ ok (true, g')
    → (g' ≡ g) × (contents g.stack ≡ [])
ended_round memory g {g'} e = go (gen_step-Round memory g e)
  where
    go : Round memory g true g' → (g' ≡ g) × (contents g.stack ≡ [])
    go (ended l c r) = (r, c)
    go (seen pc stack l c top a r) = absurd (cc)
    go (fresh pc stack set l c top a v) = absurd (cc)

-- What every round keeps holds at the end of the loop, where the stack is empty.
pub gen_loop_keeps :
    (P : Gen → Type 0) (memory : Memory) (fuel : ℕ) (g : Gen) {g' : Gen}
    → ((h h' : Gen) → P h → gen_step memory h ≡ ok (false, h') → P h')
    → P g
    → gen_loop memory fuel g ≡ some (ok g')
    → P g' × (contents g'.stack ≡ [])
unfolding gen_loop gen_after
gen_loop_keeps P memory zero g keeps h e = absurd (cc)
gen_loop_keeps P memory (suc fuel) g {g'} keeps h e =
    go (gen_step memory g) refl (λ m. gen_loop_keeps P memory fuel m {g' = g'} keeps)
  where
    go :
        (r : Run (Bool × Gen))
        → gen_step memory g ≡ r
        → ((m : Gen)
            → P m
            → gen_loop memory fuel m ≡ some (ok g')
            → P g' × (contents g'.stack ≡ []))
        → P g' × (contents g'.stack ≡ [])
    go (fault f) q again = absurd (ground arith)
    go (ok (true, m)) q again =
        let (same, empty) = ended_round memory g q in
        let last : g ≡ g' = sym same ∙ ground arith in
        (subst P last h, ap (λ (k : Gen). contents k.stack) (sym last) ∙ empty)
    go (ok (false, m)) q again = again m (keeps g m h q) (ground arith)

-- A call that returns a source, taken apart.
pub record Generated (fuel : ℕ) (old : Gen) (w : World) (source : List Line) (g' : Gen)
    : Type 0 where
  pub start : Gen
  pub started : gen_start w.state.pc old ≡ ok start
  pub looped : gen_loop w.memory fuel start ≡ some (ok g')
  pub printed : source ≡ gen_source g'

pub machine_genblock-Generated :
    (fuel : ℕ) (old : Gen) (w : World) {source : List Line} {g' : Gen}
    → machine_genblock fuel old w ≡ some (ok (source, g'))
    → Generated fuel old w source g'
unfolding machine_genblock
machine_genblock-Generated fuel old w {source} {g'} e = go (gen_start w.state.pc old) refl
  where
    loop :
        (g : Gen) (r : Option (Run Gen))
        → gen_start w.state.pc old ≡ ok g
        → gen_loop w.memory fuel g ≡ r
        → Generated fuel old w source g'
    loop g none p q = absurd (ground arith)
    loop g (some (fault f)) p q = absurd (ground arith)
    loop g (some (ok h)) p q = record {
      start = g;
      started = p;
      looped = q ∙ ground arith;
      printed = ground arith;
    }

    go : (r : Run Gen) → gen_start w.state.pc old ≡ r → Generated fuel old w source g'
    go (fault f) p = absurd (ground arith)
    go (ok g) p = loop g (gen_loop w.memory fuel g) p refl
