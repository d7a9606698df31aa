-- ===== src/Codegen/Block/Nested.antt =====
-- The order of the lines in the body of a block.
use mathlib.Core.Path.{subst}
use riscvemu_study.Prelude.{
  ℕ, ◌+◌, ◌≡◌, refl, sym, ap, ◌∙◌, arith, if◌then◌else◌, Bool, true, false, ◌||◌, List, [], ◌∷◌,
  ◌++◌, u64, some, ok,
}
use riscvemu_study.State.{Memory}
use riscvemu_study.Stack.View.{contents}
use riscvemu_study.Stack.{Stack}
use riscvemu_study.Set.Members.{set_add_iff}
use riscvemu_study.Set.{Set, set_add, set_reset}
use riscvemu_study.Set.Laws.{set_add_ne}
use riscvemu_study.Decode.IsDecoded.{HasRegisters}
use riscvemu_study.Decode.Over.{insn_decode_over}
use riscvemu_study.Interp.Control.{insn_size}
use riscvemu_study.Codegen.Source.{Line, open_insn}
use riscvemu_study.Codegen.Shape.{labels, declaring, between, inside, scan_line, scan}
use riscvemu_study.Codegen.Shape.Append.{labels-append, scan-append}
use riscvemu_study.Codegen.Shape.Operations.{emit-scan}
use riscvemu_study.Codegen.Block.{Gen, gen_step, gen_start}
use riscvemu_study.Codegen.Block.Round.{
  Visit, Round, ended, seen, fresh, fall_through, gen_step-Round,
}
use riscvemu_study.Codegen.Block.Reading.{gen_start-Started}

-- The code of an instruction, from behind its opening brace on
falling_scan :
    (cont : Bool) (next : ℕ)
    → scan (if cont then between else inside) (fall_through cont next) ≡ some between
unfolding scan scan_line
falling_scan true next = refl
falling_scan false next = refl

Visit-scan :
    (memory : Memory) (pc : ℕ) (g : Gen) {g' : Gen}
    → HasRegisters g.insn
    → (v : Visit memory pc g g')
    → scan inside (
        v.emission.lines
        ++ fall_through (v.insn.cont || v.emission.deferred) (u64 (pc + insn_size v.insn)))
      ≡ some between
Visit-scan memory pc g h v =
    let cont = v.insn.cont || v.emission.deferred in
    let next = u64 (pc + insn_size v.insn) in
    let (registers, jump) = insn_decode_over g.insn v.word h v.decoded in
    scan-append inside v.emission.lines (fall_through cont next) (
      emit-scan v.insn.type v.insn pc v.emitted
      ∙ ap (λ b. some (if b || v.emission.deferred then between else inside)) (sym jump))
    ∙ falling_scan cont next

-- The body is empty and the entry waits, or the body stands in the grammar from the
-- declarations on and starts with the entry.
pub data IsEntered (entry : ℕ) (g : Gen) : Type 0 where
  waiting :
      g.body ≡ []
      → contents g.stack ≡ entry ∷ []
      → ((i : ℕ) → g.set.table i ≡ 0)
      → IsEntered entry g
  entered :
      (rest : List ℕ)
      → scan declaring g.body ≡ some between
      → labels g.body ≡ entry ∷ rest
      → IsEntered entry g

pub record IsNested (entry : ℕ) (g : Gen) : Type 0 where
  pub registers : HasRegisters g.insn
  pub body : IsEntered entry g

only_one : (xs : List ℕ) (x y : ℕ) → xs ++ x ∷ [] ≡ y ∷ [] → x ≡ y
only_one [] x y e = ground arith
only_one (z ∷ []) x y e = absurd (ground arith)
only_one (z ∷ w ∷ xs) x y e = absurd (ground arith)

seen-IsNested :
    (entry pc : ℕ) (g : Gen) (stack : Stack)
    → IsNested entry g
    → set_add g.set pc ≡ ok (false, g.set)
    → IsNested entry (record g { stack = stack })
seen-IsNested entry pc g stack h a = record { registers = h.registers; body = go h.body }
  where
    go : IsEntered entry g → IsEntered entry (record g { stack = stack })
    go (waiting b c z) =
        let (i, p, q) = (set_add_iff g.set pc (λ i p n. absurd (n (z i))) a).0 refl in
        absurd (set_add_ne g.set pc a (sym q ∙ z i))
    go (entered rest s l) = entered rest s l

fresh-IsNested :
    (entry pc : ℕ) (memory : Memory) (g : Gen) (stack : Stack) (set : Set) {g' : Gen}
    → IsNested entry g
    → contents g.stack ≡ contents stack ++ pc ∷ []
    → Visit memory pc (record g { stack = stack; set = set }) g'
    → IsNested entry g'
unfolding scan scan_line labels
fresh-IsNested entry pc memory g stack set {g'} h c v = record {
  registers =
      subst HasRegisters (sym (ap (λ (k : Gen). k.insn) v.result))
        (omega (arith, (insn_decode_over g.insn v.word h.registers v.decoded).0));
  body = go h.body;
}
  where
    lines : List Line
    lines =
        v.emission.lines
        ++ fall_through (v.insn.cont || v.emission.deferred) (u64 (pc + insn_size v.insn))

    added : g'.body ≡ g.body ++ open_insn pc ∷ lines
    added = ap (λ (k : Gen). k.body) v.result

    nested : scan inside lines ≡ some between
    nested = Visit-scan memory pc (record g { stack = stack; set = set }) h.registers v

    go : IsEntered entry g → IsEntered entry g'
    go (waiting b d z) =
        let alone = added ∙ ap (λ l. l ++ open_insn pc ∷ lines) b in
        let first = only_one (contents stack) pc entry (sym c ∙ d) in
        entered (labels lines) (ap (scan declaring) alone ∙ nested)
          (ap labels alone ∙ ap (λ k. k ∷ labels lines) first)
    go (entered rest s l) =
        entered (rest ++ pc ∷ labels lines)
          (ap (scan declaring) added
            ∙ (scan-append declaring g.body (open_insn pc ∷ lines) s ∙ nested))
          (ap labels added
            ∙ (labels-append g.body (open_insn pc ∷ lines) ∙ ap (λ k. k ++ pc ∷ labels lines) l))

pub round-IsNested :
    (entry : ℕ) (memory : Memory) (g g' : Gen)
    → IsNested entry g
    → gen_step memory g ≡ ok (false, g')
    → IsNested entry g'
round-IsNested entry memory g g' h e = go (gen_step-Round memory g e)
  where
    go : Round memory g false g' → IsNested entry g'
    go (ended l c r) = absurd (cc)
    go (seen pc stack l c top a r) =
        subst (IsNested entry) (sym r) (seen-IsNested entry pc g stack h a)
    go (fresh pc stack set l c top a v) = fresh-IsNested entry pc memory g stack set h c v

pub start-IsNested :
    (pc : ℕ) (old : Gen) {g : Gen} → HasRegisters old.insn → gen_start pc old ≡ ok g → IsNested pc g
unfolding set_reset
start-IsNested pc old {g} h e =
    let start = gen_start-Started pc old e in
    record {
      registers = subst HasRegisters (sym start.insn) h;
      body = waiting start.body start.waiting (λ i. ap (λ (s : Set). s.table i) start.set);
    }
