-- ===== src/Codegen/Block/Halts.antt =====
-- The loop of `machine_genblock` ends, whatever the guest's memory holds.
use riscvemu_study.Prelude.{
  ℕ, zero, suc, ◌+◌, ◌*◌, ◌≤◌, ◌<◌, ◌≡◌, refl, ap, arith, if◌then◌else◌, Bool, true, false, ◌||◌,
  List, [], ◌∷◌, u64, Option, some, Run, ok, fault, chained, length,
}
use riscvemu_study.State.{World, Memory}
use riscvemu_study.Stack.{Stack, stack_push, stack_reset}
use riscvemu_study.Set.{set_size}
use riscvemu_study.Set.Free.{free_slots, free_slots_le, set_add-free_slots}
use riscvemu_study.Interp.Control.{insn_size}
use riscvemu_study.Codegen.Shape.Operations.{emit-length}
use riscvemu_study.Codegen.Block.{
  Gen, push_all, gen_step, gen_after, gen_loop, gen_source, gen_start, machine_genblock,
}
use riscvemu_study.Codegen.Block.Round.{Visit, Round, ended, seen, fresh, gen_step-Round}

stack_push_top : (s : Stack) (x : ℕ) {t : Stack} → stack_push s x ≡ ok t → t.top ≤ s.top + 1
unfolding stack_push
stack_push_top s x e = ground arith

push_all_top :
    (xs : List ℕ) (s : Stack) {t : Stack} → push_all xs s ≡ ok t → t.top ≤ s.top + length xs
unfolding push_all
push_all_top [] s e = ground arith
push_all_top (x ∷ xs) s e =
    let push = chained (stack_push s x) e in
    omega (arith, stack_push_top s x push.first, push_all_top xs push.between push.second)

-- What a round uses up: two for each free slot of the set, and one for each address that waits.
abbrev measure : Gen → ℕ
measure g = 2 * free_slots g.set.table set_size + g.stack.top

Visit-top :
    (memory : Memory) (pc : ℕ) (g : Gen) {g' : Gen}
    → Visit memory pc g g'
    → (g'.stack.top ≤ g.stack.top + 2) × (g'.set ≡ g.set)
Visit-top memory pc g v =
    let last =
      next_top (v.insn.cont || v.emission.deferred) v.pushed (u64 (pc + insn_size v.insn)) v.next in
    let targets = push_all_top v.emission.targets g.stack v.targets in
    let few = emit-length v.insn.type v.insn pc v.emitted in
    (ground (arith, v.result), ap (λ (h : Gen). h.set) v.result)
  where
    next_top :
        (cont : Bool) (s : Stack) (x : ℕ) {t : Stack}
        → (if cont then ok s else stack_push s x) ≡ ok t
        → t.top ≤ s.top + 1
    next_top true s x e = ground arith
    next_top false s x e = stack_push_top s x e

gen_step-measure :
    (memory : Memory) (g : Gen) {g' : Gen}
    → gen_step memory g ≡ ok (false, g')
    → measure g' < measure g
gen_step-measure memory g {g'} e = go (gen_step-Round memory g e)
  where
    go : Round memory g false g' → measure g' < measure g
    go (ended l c r) = absurd (cc)
    go (seen pc stack l c top a r) = ground (arith)
    go (fresh pc stack set l c top a v) =
        let (grows, kept) = Visit-top memory pc _ v in
        let fills = set_add-free_slots g.set pc a in
        let slots : free_slots g'.set.table set_size ≡ free_slots set.table set_size =
          ap (λ s. free_slots s.table set_size) kept in
        omega arith

abbrev pub Returns {ℓ} : {A : Type ℓ} → Option A → Type ℓ
Returns m = (a : _) × (m ≡ some a)

gen_loop-Returns :
    (memory : Memory) (fuel : ℕ) (g : Gen) → measure g < fuel → Returns (gen_loop memory fuel g)
unfolding gen_loop gen_after
gen_loop-Returns memory zero g h = absurd (omega arith)
gen_loop-Returns memory (suc fuel) g h =
    go (gen_step memory g) refl (λ g' p. gen_loop-Returns memory fuel g' (omega arith))
  where
    go :
        (r : Run (Bool × Gen))
        → gen_step memory g ≡ r
        → ((g' : Gen) → measure g' < measure g → Returns (gen_loop memory fuel g'))
        → Returns (gen_loop memory (suc fuel) g)
    go (fault f) e again = (fault f, ground arith)
    go (ok (true, g')) e again = (ok g', ground arith)
    go (ok (false, g')) e again =
        let (r, rest) = again g' (gen_step-measure memory g e) in (r, ground arith)

start_measure : (pc : ℕ) (old : Gen) {g : Gen} → gen_start pc old ≡ ok g → measure g ≤ 65537
unfolding gen_start
start_measure pc old {g} e =
    let push = chained (stack_push (stack_reset old.stack) pc) e in
    let top = stack_push_top (stack_reset old.stack) pc push.first in
    let slots = free_slots_le g.set.table set_size in ground (arith, push.second)

-- On 65538 rounds of fuel or more, `machine_genblock` comes to an end, with a source or a fault,
-- whatever the guest's memory and registers hold and whatever the call before left.
pub machine_genblock-Returns :
    (fuel : ℕ) (old : Gen) (w : World) → 65538 ≤ fuel → Returns (machine_genblock fuel old w)
unfolding machine_genblock
machine_genblock-Returns fuel old w h = go (gen_start w.state.pc old) refl
  where
    loop :
        (g : Gen) (r : Run Gen)
        → gen_start w.state.pc old ≡ ok g
        → gen_loop w.memory fuel g ≡ some r
        → Returns (machine_genblock fuel old w)
    loop g (fault f) e q = (fault f, ground arith)
    loop g (ok g') e q = (ok (gen_source g', g'), ground arith)

    go : (r : Run Gen) → gen_start w.state.pc old ≡ r → Returns (machine_genblock fuel old w)
    go (fault f) e = (fault f, ground arith)
    go (ok g) e =
        let fits : measure g < fuel = omega (arith, start_measure w.state.pc old e) in
        let (r, ends) = gen_loop-Returns w.memory fuel g fits in loop g r e ends
