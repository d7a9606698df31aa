-- ===== src/Codegen/Block/Reached.antt =====
-- The labels and jumps of the source of a block.
use mathlib.Core.Path.{subst}
use riscvemu_study.Prelude.{
  ℕ, ◌+◌, ◌≤◌, ◌<◌, ◌≡◌, ◌≢◌, ◌⊎◌, inl, inr, refl, sym, ap, ◌∙◌, arith, ◌==◌, Bool-cases, true,
  false, List, [], ◌∷◌, ◌++◌, some, ok,
}
use riscvemu_study.State.{World, Memory}
use riscvemu_study.Stack.{Stack}
use riscvemu_study.Stack.View.{contents}
use riscvemu_study.Set.{Set, set_add}
use riscvemu_study.Set.Laws.{set_add_ne}
use riscvemu_study.Set.Members.{IsMember, IsProbed, set_add-IsProbed, set_add_iff}
use riscvemu_study.Set.Free.{set_add-IsMember}
use riscvemu_study.Codegen.Source.{Line}
use riscvemu_study.Codegen.Shape.{labels, jumps}
use riscvemu_study.Codegen.Shape.Append.{count, count-append}
use riscvemu_study.Codegen.Block.{Gen, gen_step, machine_genblock}
use riscvemu_study.Codegen.Block.Round.{Round, ended, seen, fresh, gen_step-Round}
use riscvemu_study.Codegen.Block.Induction.{gen_loop_keeps, machine_genblock-Generated}
use riscvemu_study.Codegen.Block.Reading.{
  labels-IsReading, labels-IsOfBody, jumps-IsReading, jumps-IsOfBody, Started, gen_source-reading,
  gen_start-Started,
}
use riscvemu_study.Set.{set_reset}
use riscvemu_study.Codegen.Block.Pending.{IsPending, Adds, Visit-Adds}
use riscvemu_study.Set.{set_reset}
use riscvemu_study.Codegen.Block.{gen_start}
use riscvemu_study.Set.Members.{set_reset-IsProbed}

-- Between two rounds: a label for every address of the set and no other, and for every jump a
-- label or an address that waits.
record IsReaching (g : Gen) : Type 0 where
  probed : IsProbed g.set
  single : (x : ℕ) → count (labels g.body) x ≤ 1
  labelled : (x : ℕ) → x ≢ 0 → IsMember g.set x → count (labels g.body) x ≡ 1
  unlabelled : (x : ℕ) → (x ≡ 0) ⊎ (¬ IsMember g.set x) → count (labels g.body) x ≡ 0
  reached :
      (x : ℕ) → 0 < count (jumps g.body) x → (count (labels g.body) x ≡ 1) ⊎ IsPending g.stack x

-- What waits before a pop is popped or waits on.
popped-IsPending :
    (s t : Stack) (pc x : ℕ)
    → contents s ≡ contents t ++ pc ∷ []
    → IsPending s x
    → (x ≡ pc) ⊎ IsPending t x
unfolding count
popped-IsPending s t pc x e h = elim (Bool-cases (pc == x)) [
  | inl same ↦ inl (ground arith)
  | inr other ↦ inr (let more = count-append (contents t) (pc ∷ []) x in ground arith)
]

seen-IsReaching :
    (g : Gen) (stack : Stack) (pc : ℕ)
    → IsReaching g
    → contents g.stack ≡ contents stack ++ pc ∷ []
    → set_add g.set pc ≡ ok (false, g.set)
    → IsReaching (record g { stack = stack })
seen-IsReaching g stack pc h c a = record {
  probed = h.probed;
  single = h.single;
  labelled = h.labelled;
  unlabelled = h.unlabelled;
  reached = λ x p. elim (h.reached x p) [
    | inl done ↦ inl done
    | inr waits ↦ elim (popped-IsPending g.stack stack pc x c waits) [
      | inl popped ↦ inl (
          subst (λ k. count (labels g.body) k ≡ 1) (sym popped)
            (h.labelled pc (set_add_ne g.set pc a) ((set_add_iff g.set pc h.probed a).0 refl)))
      | inr still ↦ inr still
    ]
  ];
}

fresh-IsReaching :
    (g : Gen) (stack : Stack) (set : Set) (pc : ℕ) {g' : Gen}
    → IsReaching g
    → contents g.stack ≡ contents stack ++ pc ∷ []
    → set_add g.set pc ≡ ok (true, set)
    → Adds pc (record g { stack = stack; set = set }) g'
    → IsReaching g'
unfolding count
fresh-IsReaching g stack set pc {g'} h c a v = record {
  probed = subst IsProbed (sym v.set) (set_add-IsProbed g.set pc h.probed a);
  single = λ x.
      let old = h.single x in
      elim (Bool-cases (pc == x)) [
        | inl same ↦ let one = at_new x (ground arith) in omega arith
        | inr other ↦ let kept = at_old x (ground arith) refl in omega arith
      ];
  labelled = λ x n m. elim (members.2 x (subst (λ s. IsMember s x) v.set m)) [
    | inl here ↦ at_new x here
    | inr before ↦
        at_old x (λ e. absent (subst (IsMember g.set) (sym e) before)) (h.labelled x n before)
  ];
  unlabelled = λ x m. elim m [
    | inl nought ↦ at_old x (λ e. set_add_ne g.set pc a (e ∙ nought)) (h.unlabelled x (inl nought))
    | inr out ↦ elim (Bool-cases (x == 0)) [
      | inl nought ↦
          at_old x (λ e. set_add_ne g.set pc a (e ∙ ground arith))
            (h.unlabelled x (inl (ground arith)))
      | inr some_address ↦
          at_old x (λ e. out (in_new x e))
            (h.unlabelled x (
              inr (λ before.
                out (subst (λ s. IsMember s x) (sym v.set) (members.1 x (ground arith) before)))))
    ]
  ];
  reached = λ x p. elim (v.jump x p) [
    | inr waits ↦ inr waits
    | inl before ↦ elim (h.reached x before) [
      | inl done ↦ inl (
          at_old x
            (λ e.
              let none_yet = h.unlabelled pc (inr absent) in
              absurd (ground (arith, ap (count (labels g.body)) e)))
            done)
      | inr waits ↦ elim (popped-IsPending g.stack stack pc x c waits) [
        | inl popped ↦ inl (at_new x popped)
        | inr still ↦ inr (v.keeps x still)
      ]
    ]
  ];
}
  where
    members :
        IsMember set pc
        × ((y : ℕ) → y ≢ 0 → IsMember g.set y → IsMember set y)
        × ((y : ℕ) → IsMember set y → (y ≡ pc) ⊎ IsMember g.set y)
    members = set_add-IsMember g.set pc a

    absent : ¬ IsMember g.set pc
    absent m = let old = (set_add_iff g.set pc h.probed a).1 m in absurd (cc)

    in_new : (x : ℕ) → pc ≡ x → IsMember g'.set x
    in_new x e = subst (IsMember g'.set) e (subst (λ s. IsMember s pc) (sym v.set) members.0)

    labels_at : (x : ℕ) → count (labels g'.body) x ≡ count (labels g.body) x + count (pc ∷ []) x
    labels_at x = ap (λ l. count l x) v.label ∙ count-append (labels g.body) (pc ∷ []) x

    at_new : (x : ℕ) → x ≡ pc → count (labels g'.body) x ≡ 1
    at_new x e =
        let none_yet = h.unlabelled pc (inr absent) in
        subst (λ k. count (labels g'.body) k ≡ 1) (sym e) (let sum = labels_at pc in ground arith)

    at_old :
        {n : ℕ} (x : ℕ) → ¬ (pc ≡ x) → count (labels g.body) x ≡ n → count (labels g'.body) x ≡ n
    at_old x e k = let sum = labels_at x in ground arith

round-IsReaching :
    (memory : Memory) (g g' : Gen)
    → IsReaching g
    → gen_step memory g ≡ ok (false, g')
    → IsReaching g'
round-IsReaching memory g g' h e = go (gen_step-Round memory g e)
  where
    go : Round memory g false g' → IsReaching g'
    go (ended l c r) = absurd (cc)
    go (seen pc stack l c top a r) = subst IsReaching (sym r) (seen-IsReaching g stack pc h c a)
    go (fresh pc stack set l c top a v) =
        fresh-IsReaching g stack set pc h c a (Visit-Adds memory pc _ v)

start-IsReaching : (pc : ℕ) (old : Gen) {g : Gen} → gen_start pc old ≡ ok g → IsReaching g
unfolding labels jumps count set_reset
start-IsReaching pc old {g} e = record {
  probed = subst IsProbed (sym start.set) (set_reset-IsProbed old.set);
  single = λ x. let none_yet = ap (λ l. count (labels l) x) start.body in omega arith;
  labelled = λ x n (i, p, q). absurd (n (sym q ∙ ap (λ (s : Set). s.table i) start.set));
  unlabelled = λ x m. ap (λ l. count (labels l) x) start.body;
  reached = λ x p. absurd (let none_yet = ap (λ l. count (jumps l) x) start.body in omega arith);
}
  where
    start : Started pc old g
    start = gen_start-Started pc old e

once :
    (g : Gen) (x : ℕ)
    → IsReaching g
    → contents g.stack ≡ []
    → (count (labels g.body) x ≤ 1) × ((count (jumps g.body) x ≡ 0) ⊎ (count (labels g.body) x ≡ 1))
unfolding count
once g x h empty = (
  h.single x,
  elim (Bool-cases (count (jumps g.body) x == 0)) [
    | inl never ↦ inl (ground arith)
    | inr jumped ↦ elim (h.reached x (ground arith)) [
      | inl done ↦ inr done
      | inr waits ↦ absurd (ground arith)
    ]
  ],
)

-- Whenever `machine_genblock` returns a source, the source declares each `insn_` label at most
-- once, and declares the label of every `insn_` address that it jumps to.
pub machine_genblock-labels :
    (fuel : ℕ) (old : Gen) (w : World) (x : ℕ) {source : List Line} {g' : Gen}
    → machine_genblock fuel old w ≡ some (ok (source, g'))
    → (count (labels source) x ≤ 1) × ((count (jumps source) x ≡ 0) ⊎ (count (labels source) x ≡ 1))
machine_genblock-labels fuel old w x {source} {g'} e =
    let r = machine_genblock-Generated fuel old w e in
    let (inv, empty) =
      gen_loop_keeps IsReaching w.memory fuel r.start (round-IsReaching w.memory)
        (start-IsReaching w.state.pc old r.started) r.looped in
    let declared : labels source ≡ labels g'.body =
      ap labels r.printed ∙ gen_source-reading labels labels-IsReading labels-IsOfBody g' in
    let jumped : jumps source ≡ jumps g'.body =
      ap jumps r.printed ∙ gen_source-reading jumps jumps-IsReading jumps-IsOfBody g' in
    ground (arith, once g' x inv empty)
